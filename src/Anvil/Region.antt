-- ===== src/Anvil/Region.antt =====
-- crates/anvil/src/region.rs: the region file, a table of 1024 chunk places and times in its first
-- two sectors, and the sectors of the chunks behind them. Files beside the region file, which hold
-- the chunks that are too large for it, are a parameter of the reader and a result of the writer.
pub mod Safe
use mcagit.Common.{
  ℕ, zero, suc, ◌+◌, ◌-◌, ◌*◌, ◌/◌, ◌%◌, ◌^◌, List, [], ◌∷◌, ◌++◌, Bool, true, false, not, ◌||◌,
  ◌&&◌, Option, none, some, leb, ltb, ◌==◌, if◌then◌else◌, length, get_elem?, take, drop, replicate,
  ℤ, pos, negsuc, eq_ℤ,
}
use mcagit.Common.Text.{Text, text_eq, codes}
use mcagit.Common.Split.{split}
use mcagit.Common.Words.{low_bits, wrap}
use mcagit.Nbt.Decimal.{parse_i64}
use mcagit.Anvil.Chunk.{
  ChunkPos, region_index, from_region_index, ChunkCompression, to_byte, from_byte, RawChunk,
}

-- `AnvilError`, as far as reading a region raises it. `out_of_range` stands for no error of the
-- program, but for the panic of an index or a slice out of range, or of a subtraction below zero.
pub data AnvilError : Type 0 where
  bad_region_name external_too_large out_of_range : AnvilError

pub data Result (A : Type 0) : Type 0 where
  ok : A → Result A
  err : AnvilError → Result A

infixl 5 ◌>>=◌
abbrev pub ◌>>=◌ : {A B : Type 0} → Result A → (A → Result B) → Result B
ok a >>= f = f a
err e >>= f = err e

-- The files `c.X.Z.mcc`: whether there is one, if so whether it is a regular file and its length,
-- and what reading it gives.
pub record External : Type 0 where
  pub metadata : ChunkPos → Option (Bool × ℕ)
  pub content : ChunkPos → Option (List ℕ)

-- `bytes[i]`
unfoldable pub byte_at : List ℕ → ℕ → Result ℕ
byte_at bytes i = elim (get_elem? bytes i) [ none ↦ err out_of_range | some b ↦ ok b ]

-- `i32::from_be_bytes` of four bytes.
unfoldable pub be_i32 : ℕ → ℕ → ℕ → ℕ → ℤ
be_i32 a b c d = wrap 32 (pos (a * 0x100_0000 + b * 0x1_0000 + c * 0x100 + d))

unfoldable pub read_i32 : List ℕ → ℕ → Result ℤ
read_i32 bytes i = do
  a ← byte_at bytes i
  b ← byte_at bytes (i + 1)
  c ← byte_at bytes (i + 2)
  d ← byte_at bytes (i + 3)
  ok (be_i32 a b c d)

-- The two fields of a place in the table.
unfoldable pub read_location : List ℕ → ℕ → Result (ℕ × ℕ)
read_location bytes e = do
  a ← byte_at bytes e
  b ← byte_at bytes (e + 1)
  c ← byte_at bytes (e + 2)
  n ← byte_at bytes (e + 3)
  ok (a * 0x1_0000 + b * 0x100 + c, n)

abbrev pub max_external_chunk : ℕ
max_external_chunk = 128 * 1024 * 1024

-- The body of an oversized chunk; `none` for `continue`.
unfoldable pub external_payload : External → ChunkPos → Result (Option (List ℕ))
external_payload files p = elim (files.metadata p) [
  | none ↦ ok none
  | some (is_file, len) ↦
      if not is_file || ltb max_external_chunk len
      then err external_too_large
      else ok (files.content p)
]

-- `bytes[a..b]`
unfoldable pub slice : List ℕ → ℕ → ℕ → Result (List ℕ)
slice bytes a b =
    if ltb b a || ltb (length bytes) b then err out_of_range else ok (take (b - a) (drop a bytes))

-- `a - b` on `usize`; below zero it is out of range too.
unfoldable pub minus : ℕ → ℕ → Result ℕ
minus a b = if ltb a b then err out_of_range else ok (a - b)

-- The length of the inline body, clamped to the end of the file.
unfoldable pub inline_len : List ℕ → ℕ → ℕ → Result ℕ
inline_len bytes data_start data_len =
    if ltb (length bytes) (data_start + data_len)
    then minus (length bytes) data_start
    else ok data_len

-- The inline body; `none` for `continue`.
unfoldable pub inline_payload : List ℕ → ℕ → ℕ → Result (Option (List ℕ))
inline_payload bytes start size = do
  wanted ← minus size 1
  data_len ← inline_len bytes (start + 5) wanted
  if data_len == 0
      then ok none
      else (slice bytes (start + 5) (start + 5 + data_len) >>= λ payload. ok (some payload))

unfoldable pub positive : ℤ → Option ℕ
positive (pos zero) = none
positive (pos (suc n)) = some (suc n)
positive (negsuc n) = none

abbrev pub with_payload : (List ℕ → RawChunk) → Option (List ℕ) → Result (Option RawChunk)
with_payload f none = ok none
with_payload f (some bytes) = ok (some (f bytes))

unfoldable pub read_scheme :
    External → ℤ × ℤ → List ℕ → ℕ → ℕ → ℕ → ℕ → ChunkCompression → Result (Option RawChunk)
read_scheme files r bytes i start size comp_byte scheme = do
  timestamp ← read_i32 bytes (4096 + i * 4)
  let external = leb 128 comp_byte
  let place = from_region_index r i
  found ← if external then external_payload files place else inline_payload bytes start size
  with_payload
      (λ payload. record {
        place = place;
        compression = scheme;
        payload = payload;
        external = external;
        timestamp = timestamp;
      })
      found

-- The chunk of table entry `i` whose body starts at `start` with length `size` and byte `comp_byte`.
unfoldable pub read_body : External → ℤ × ℤ → List ℕ → ℕ → ℕ → ℕ → ℕ → Result (Option RawChunk)
read_body files r bytes i start size comp_byte = elim (from_byte (comp_byte % 128)) [
  | none ↦ ok none
  | some scheme ↦ read_scheme files r bytes i start size comp_byte scheme
]

abbrev pub sized_body : External → ℤ × ℤ → List ℕ → ℕ → ℕ → Option ℕ → Result (Option RawChunk)
sized_body files r bytes i start none = ok none
sized_body files r bytes i start (some size) =
    byte_at bytes (start + 4) >>= read_body files r bytes i start size

-- One round of the loop of `RegionFile::parse`; `none` for `continue`.
unfoldable pub read_slot : External → ℤ × ℤ → List ℕ → ℕ → Result (Option RawChunk)
read_slot files r bytes i = do
  l ← read_location bytes (i * 4)
  let start = l.0 * 4096
  if l.0 == 0 || l.1 == 0
      then ok none
      else if ltb (length bytes) (start + 5)
      then ok none
      else (read_i32 bytes start >>= λ size. sized_body files r bytes i start (positive size))

abbrev pub same_place : ChunkPos → ChunkPos → Bool
same_place p q = eq_ℤ p.x q.x && eq_ℤ p.z q.z

-- `HashMap::insert`
unfoldable pub insert_chunk : RawChunk → List RawChunk → List RawChunk
insert_chunk c [] = c ∷ []
insert_chunk c (d ∷ ds) =
    let rest = insert_chunk c ds in if same_place c.place d.place then c ∷ ds else d ∷ rest

-- `RegionFile::get`
unfoldable pub get_chunk : ChunkPos → List RawChunk → Option RawChunk
get_chunk p [] = none
get_chunk p (d ∷ ds) = let rest = get_chunk p ds in if same_place p d.place then some d else rest

abbrev pub keep_chunk : Option RawChunk → List RawChunk → List RawChunk
keep_chunk none chunks = chunks
keep_chunk (some c) chunks = insert_chunk c chunks

-- The rounds for the first `n` entries of the table.
unfoldable pub read_slots : External → ℤ × ℤ → List ℕ → ℕ → Result (List RawChunk)
read_slots files r bytes zero = ok []
read_slots files r bytes (suc n) = do
  chunks ← read_slots files r bytes n
  found ← read_slot files r bytes n
  ok (keep_chunk found chunks)

unfoldable pub parse_chunks : External → ℤ × ℤ → List ℕ → Result (List RawChunk)
parse_chunks files r bytes =
    if ltb (length bytes) (4096 * 2) then ok [] else read_slots files r bytes 1024

-- `Path::file_stem` of a file name: what stands before the last dot.
unfoldable pub before_last_dot : Text → Option Text
before_last_dot [] = none
before_last_dot (c ∷ s) = elim (before_last_dot s) [
  | some t ↦ some (c ∷ t)
  | none ↦ if c == b'.' then some [] else none
]

unfoldable pub file_stem : Text → Text
file_stem name = elim (before_last_dot name) [ none ↦ name | some [] ↦ name | some (c ∷ s) ↦ c ∷ s ]

-- `str::parse::<i32>`
unfoldable pub parse_i32 : Text → Option ℤ
parse_i32 s = elim (parse_i64 s) [
  | none ↦ none
  | some (pos n) ↦ if ltb n 0x8000_0000 then some (pos n) else none
  | some (negsuc n) ↦ if ltb n 0x8000_0000 then some (negsuc n) else none
]

unfoldable pub coords_of : List Text → Option (ℤ × ℤ)
coords_of (a ∷ b ∷ c ∷ []) = elim (parse_i32 b) [
  | none ↦ none
  | some x ↦ elim (parse_i32 c) [
    | none ↦ none
    | some z ↦ if text_eq a (codes "r") then some (x, z) else none
  ]
]
coords_of _ = none

unfoldable pub parse_region_coords : Text → Result (ℤ × ℤ)
parse_region_coords name = elim (coords_of (split b'.' (file_stem name))) [
  | none ↦ err bad_region_name
  | some r ↦ ok r
]

-- `RegionFile::parse` of the file `name`.
unfoldable pub parse : External → Text → List ℕ → Result ((ℤ × ℤ) × List RawChunk)
parse files name bytes = do
  r ← parse_region_coords name
  chunks ← parse_chunks files r bytes
  ok (r, chunks)
