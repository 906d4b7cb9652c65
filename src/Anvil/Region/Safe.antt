-- ===== src/Anvil/Region/Safe.antt =====
-- No index of `RegionFile::parse` is out of range.
use mcagit.Common.{
  ℕ, zero, suc, ◌+◌, ◌*◌, ◌%◌, ◌<◌, ◌≤◌, ◌≡◌, ◌≢◌, refl, arith, List, [], ◌∷◌, Option-cases, Option,
  none, some, Bool, true, false, length, ℤ, pos, negsuc, ltb, ◌-◌, Bool-cases, inl, inr, not, ◌==◌,
  ◌||◌, if◌then◌else◌,
}
use mcagit.Common.Text.{Text}
use mcagit.Common.Split.{split}
use mcagit.Anvil.Chunk.{RawChunk, ChunkCompression, from_byte, ChunkPos}
use mcagit.Anvil.Region
use mcagit.Anvil.Region.{
  Result, ok, err, out_of_range, ◌>>=◌, External, byte_at, read_i32, read_location,
  external_payload, inline_payload, inline_len, minus, slice, positive, with_payload, read_scheme,
  read_body, sized_body, read_slot, read_slots, parse_chunks, keep_chunk, parse_region_coords,
  coords_of, file_stem, parse,
}

bind_safe :
    {A B : Type 0} (m : Result A) (f : A → Result B)
    → m ≢ err out_of_range
    → ((a : A) → f a ≢ err out_of_range)
    → (m >>= f) ≢ err out_of_range
bind_safe (ok a) f hm hf = hf a
bind_safe (err e) f hm hf = λ p. hm (cc)

byte_at_safe : (bytes : List ℕ) (i : ℕ) → i < length bytes → byte_at bytes i ≢ err out_of_range
unfolding byte_at
byte_at_safe [] i h = ground arith
byte_at_safe (b ∷ bytes) zero h = ground arith
byte_at_safe (b ∷ bytes) (suc i) h = byte_at_safe bytes i (omega arith)

read_i32_safe :
    (bytes : List ℕ) (i : ℕ) → i + 4 ≤ length bytes → read_i32 bytes i ≢ err out_of_range
unfolding read_i32
read_i32_safe bytes i h = bind_safe _ _ (byte_at_safe bytes i (omega arith)) (λ a.
    bind_safe _ _ (byte_at_safe bytes (i + 1) (omega arith)) (λ b.
      bind_safe _ _ (byte_at_safe bytes (i + 2) (omega arith))
        (λ c. bind_safe _ _ (byte_at_safe bytes (i + 3) (omega arith)) (λ d. ground arith))))

read_location_safe :
    (bytes : List ℕ) (i : ℕ) → i + 4 ≤ length bytes → read_location bytes i ≢ err out_of_range
unfolding read_location
read_location_safe bytes i h = bind_safe _ _ (byte_at_safe bytes i (omega arith)) (λ a.
    bind_safe _ _ (byte_at_safe bytes (i + 1) (omega arith)) (λ b.
      bind_safe _ _ (byte_at_safe bytes (i + 2) (omega arith))
        (λ c. bind_safe _ _ (byte_at_safe bytes (i + 3) (omega arith)) (λ d. ground arith))))

external_payload_safe :
    (files : External) (p : ChunkPos) → external_payload files p ≢ err out_of_range
unfolding external_payload
external_payload_safe files p =
    elim (files.metadata p)
      as (λ m.
        (elim m [
          | none ↦ ok none
          | some (is_file, len) ↦
              if not is_file || ltb Region.max_external_chunk len
              then err Region.external_too_large
              else ok (files.content p)
        ])
        ≢ err out_of_range) [ none ↦ ground arith | some (is_file, len) ↦ ground arith ]

ok_safe : {A : Type 0} (a : A) → ok a ≢ err out_of_range
ok_safe a = λ p. cc

if_safe :
    {A : Type 0} (b : Bool) (m n : Result A)
    → m ≢ err out_of_range
    → (b ≡ false → n ≢ err out_of_range)
    → (if b then m else n) ≢ err out_of_range
if_safe true m n hm hn = hm
if_safe false m n hm hn = hn refl

with_payload_safe :
    (f : List ℕ → RawChunk) (found : Option (List ℕ)) → with_payload f found ≢ err out_of_range
with_payload_safe f none = ground arith
with_payload_safe f (some bytes) = ground arith

coords_safe : (name : Text) → parse_region_coords name ≢ err out_of_range
unfolding parse_region_coords
coords_safe name = elim (Option-cases (coords_of (split b'.' (file_stem name)))) [
  | inl e ↦ rw (e, parse_region_coords) (λ p. cc)
  | inr (r, e) ↦ rw (e, parse_region_coords) (ok_safe r)
]

minus_safe : (a b : ℕ) → b ≤ a → minus a b ≢ err out_of_range
unfolding minus
minus_safe a b h = ground arith

slice_safe :
    (bytes : List ℕ) (a b : ℕ) → a ≤ b → b ≤ length bytes → slice bytes a b ≢ err out_of_range
unfolding slice
slice_safe bytes a b h k = ground arith

-- What is clamped ends within the file.
inline_len-fits :
    (bytes : List ℕ) (data_start data_len : ℕ)
    → data_start ≤ length bytes
    → (n : ℕ) × (inline_len bytes data_start data_len ≡ ok n) × (data_start + n ≤ length bytes)
unfolding inline_len minus
inline_len-fits bytes data_start data_len h =
    elim (Bool-cases (ltb (length bytes) (data_start + data_len))) [
      | inl long ↦ (length bytes - data_start, ground (arith, long), omega arith)
      | inr fits ↦ (data_len, ground (arith, fits), ground arith)
    ]

inline_payload_safe :
    (bytes : List ℕ) (start size : ℕ)
    → 0 < size
    → start + 5 ≤ length bytes
    → inline_payload bytes start size ≢ err out_of_range
unfolding inline_payload
inline_payload_safe bytes start size hz h =
    bind_safe _ _ (minus_safe size 1 (omega arith)) (λ wanted.
      let (n, e, fits) = inline_len-fits bytes (start + 5) wanted h in
      rw e (
        if_safe (n == 0) _ _ (ok_safe none) (λ nz.
          bind_safe _ _ (slice_safe bytes (start + 5) (start + 5 + n) (omega arith) fits)
            (λ payload. ok_safe (some payload)))))

module _ (files : External) (r : ℤ × ℤ) (bytes : List ℕ) (h : 8192 ≤ length bytes) where
  read_scheme_safe :
      (i start size comp_byte : ℕ) (scheme : ChunkCompression)
      → i < 1024
      → 0 < size
      → start + 5 ≤ length bytes
      → read_scheme files r bytes i start size comp_byte scheme ≢ err out_of_range
  unfolding read_scheme
  read_scheme_safe i start size comp_byte scheme hi hz hs =
      bind_safe _ _ (read_i32_safe bytes (4096 + i * 4) (omega arith)) (λ timestamp.
        bind_safe _ _
          (if_safe (Region.leb 128 comp_byte) _ _ (external_payload_safe files _)
            (λ e. inline_payload_safe bytes start size hz hs))
          (with_payload_safe _))

  read_body_safe :
      (i start size comp_byte : ℕ)
      → i < 1024
      → 0 < size
      → start + 5 ≤ length bytes
      → read_body files r bytes i start size comp_byte ≢ err out_of_range
  unfolding read_body
  read_body_safe i start size comp_byte hi hz hs =
      elim (Option-cases (from_byte (comp_byte % 128))) [
        | inl e ↦ rw (e, read_body) (ok_safe none)
        | inr (scheme, e) ↦
            rw (e, read_body) (read_scheme_safe i start size comp_byte scheme hi hz hs)
      ]

  sized_body_safe :
      (i start : ℕ) (length_field : ℤ)
      → i < 1024
      → start + 5 ≤ length bytes
      → sized_body files r bytes i start (positive length_field) ≢ err out_of_range
  unfolding positive
  sized_body_safe i start (pos zero) hi hs = ok_safe none
  sized_body_safe i start (negsuc n) hi hs = ok_safe none
  sized_body_safe i start (pos (suc n)) hi hs =
      bind_safe _ _ (byte_at_safe bytes (start + 4) (omega arith))
        (λ c. read_body_safe i start (suc n) c hi (omega arith) hs)

  read_slot_safe : (i : ℕ) → i < 1024 → read_slot files r bytes i ≢ err out_of_range
  unfolding read_slot
  read_slot_safe i hi = bind_safe _ _ (read_location_safe bytes (i * 4) (omega arith)) (λ l.
      if_safe (l.0 == 0 || l.1 == 0) _ _ (ok_safe none) (λ e.
        if_safe (ltb (length bytes) (l.0 * 4096 + 5)) _ _ (ok_safe none) (λ far.
          bind_safe _ _ (read_i32_safe bytes (l.0 * 4096) (ground arith))
            (λ size. sized_body_safe i (l.0 * 4096) size hi (ground arith)))))

  read_slots_safe : (n : ℕ) → n ≤ 1024 → read_slots files r bytes n ≢ err out_of_range
  unfolding read_slots
  read_slots_safe zero hn = ground arith
  read_slots_safe (suc n) hn =
      bind_safe _ _ (read_slots_safe n (omega arith))
        (λ chunks. bind_safe _ _ (read_slot_safe n (omega arith)) (λ found. ground arith))

-- On every file name, every bytes and all files beside, no index and no slice that
-- RegionFile::parse takes of the bytes is out of range, and no length that it computes by
-- subtraction is below zero.
pub parse_safe :
    (files : External) (name : Text) (bytes : List ℕ) → parse files name bytes ≢ err out_of_range
unfolding parse parse_chunks
parse_safe files name bytes = bind_safe _ _ (coords_safe name) (λ r.
    bind_safe _ _
      (if_safe (ltb (length bytes) (4096 * 2)) _ _ (ok_safe [])
        (λ e. read_slots_safe files r bytes (ground arith) 1024 (omega arith)))
      (λ chunks. ok_safe (r, chunks)))
