-- ===== src/Anvil/Writer/Fields.antt =====
-- Each field that `RegionFile::parse` reads, and the bytes that `RegionWriter::write` made of it.
use mcagit.Common.{
  ℕ, ◌+◌, ◌-◌, ◌*◌, ◌/◌, ◌%◌, ◌<◌, ◌≤◌, ◌≡◌, ◌∙◌, refl, ap, arith, List, ◌++◌, append_assoc, Bool,
  true, false, some, ltb, leb, length, take, drop, replicate, get_elem?, take-append, ℤ, pos,
  negsuc,
}
use mcagit.Common.Words.{low_bits, wrap, IsI32}
use mcagit.Anvil.Chunk.{
  RawChunk, ChunkCompression, gzip, zlib, uncompressed, lz4, custom, to_byte, from_byte,
}
use mcagit.Anvil.Region.{
  ok, byte_at, be_i32, read_i32, read_location, inline_payload, inline_len, minus, slice, positive,
}
use mcagit.Anvil.Writer.{needed_sectors, sectors_of, inline_of, comp_byte_of, be_bytes, body_of}

pub byte_at-ok : (bytes : List ℕ) (i b : ℕ) → get_elem? bytes i ≡ some b → byte_at bytes i ≡ ok b
unfolding byte_at
byte_at-ok bytes i b h = rw (h, byte_at) refl

module _ (bytes : List ℕ) (i a b c d : ℕ) (ha : get_elem? bytes (i + 0) ≡ some a)
    (hb : get_elem? bytes (i + 1) ≡ some b) (hc : get_elem? bytes (i + 2) ≡ some c)
    (hd : get_elem? bytes (i + 3) ≡ some d) where
  pub read_i32-ok : read_i32 bytes i ≡ ok (be_i32 a b c d)
  unfolding read_i32
  read_i32-ok =
      let e : i + 0 ≡ i = omega arith in
      rw
        (
          byte_at-ok bytes i a (rw e at ha),
          byte_at-ok bytes (i + 1) b hb,
          byte_at-ok bytes (i + 2) c hc,
          byte_at-ok bytes (i + 3) d hd,
        )
        refl

  pub read_location-ok : read_location bytes i ≡ ok (a * 0x1_0000 + b * 0x100 + c, d)
  unfolding read_location
  read_location-ok =
      let e : i + 0 ≡ i = omega arith in
      rw
        (
          byte_at-ok bytes i a (rw e at ha),
          byte_at-ok bytes (i + 1) b hb,
          byte_at-ok bytes (i + 2) c hc,
          byte_at-ok bytes (i + 3) d hd,
        )
        refl

pub be_i32-be_bytes :
    (n : ℕ)
    → n < 0x1_0000_0000
    → be_i32 (n / 0x100_0000 % 256) (n / 0x1_0000 % 256) (n / 0x100 % 256) (n % 256)
      ≡ wrap 32 (pos n)
unfolding be_i32
be_i32-be_bytes n h =
    let e : n / 0x100_0000 % 256 * 0x100_0000
          + n / 0x1_0000 % 256 * 0x1_0000
          + n / 0x100 % 256 * 0x100
          + n % 256
        ≡ n =
      omega arith in
    rw e refl

pub wrap-low_bits : (t : ℤ) → IsI32 t → wrap 32 (pos (low_bits 32 t)) ≡ t
unfolding wrap low_bits
wrap-low_bits (pos n) h = ground arith
wrap-low_bits (negsuc n) h = ground arith

pub low_bits_bound : (t : ℤ) → low_bits 32 t < 0x1_0000_0000
unfolding low_bits
low_bits_bound (pos n) = omega arith
low_bits_bound (negsuc n) = omega arith

pub wrap_small : (n : ℕ) → n < 0x8000_0000 → wrap 32 (pos n) ≡ pos n
unfolding wrap low_bits
wrap_small n h = ground arith

pub from_byte-to_byte :
    (s : ChunkCompression)
    → (from_byte (to_byte s % 128) ≡ some s)
      × (from_byte ((to_byte s + 128) % 128) ≡ some s)
      × (to_byte s < 128)
unfolding from_byte to_byte
from_byte-to_byte gzip = (refl, refl, omega arith)
from_byte-to_byte zlib = (refl, refl, omega arith)
from_byte-to_byte uncompressed = (refl, refl, omega arith)
from_byte-to_byte lz4 = (refl, refl, omega arith)
from_byte-to_byte custom = (refl, refl, omega arith)

abbrev pub big : RawChunk → Bool
big c = ltb 255 (needed_sectors c)

pub inline_payload-ok :
    (bytes payload rest : List ℕ) (start : ℕ)
    → drop (start + 5) bytes ≡ payload ++ rest
    → start + 5 + length payload ≤ length bytes
    → 0 < length payload
    → inline_payload bytes start (length payload + 1) ≡ ok (some payload)
unfolding inline_payload inline_len minus slice
inline_payload-ok bytes payload rest start e h p =
    let n = length payload in
    let wanted : minus (n + 1) 1 ≡ ok n = ground arith in
    let fits : inline_len bytes (start + 5) n ≡ ok n = ground arith in
    let width : start + 5 + n - (start + 5) ≡ n = omega arith in
    let body : take n (drop (start + 5) bytes) ≡ payload =
      ap (take n) e ∙ take-append payload rest in
    let cut : slice bytes (start + 5) (start + 5 + n) ≡ ok payload =
      ground (arith, width, ap (λ k. take k (drop (start + 5) bytes)) width, body) in
    rw (wanted, fits, cut, inline_payload) (ground arith)

pub inline_small : (c : RawChunk) → big c ≡ false → inline_of c ≡ c.payload
unfolding inline_of
inline_small c h = ground arith

pub comp_byte_small : (c : RawChunk) → big c ≡ false → comp_byte_of c ≡ to_byte c.compression
unfolding comp_byte_of
comp_byte_small c h = ground arith

pub comp_byte_big : (c : RawChunk) → big c ≡ true → comp_byte_of c ≡ to_byte c.compression + 128
unfolding comp_byte_of
comp_byte_big c h = ground arith

pub location_value :
    (o n : ℕ)
    → o < 0x100_0000
    → n < 256
    → ◌≡◌ {A = ℕ × ℕ}
        (o / 0x1_0000 % 256 * 0x1_0000 + o / 0x100 % 256 * 0x100 + o % 256, n % 256)
        (o, n)
location_value o n ho hn =
    let e : o / 0x1_0000 % 256 * 0x1_0000 + o / 0x100 % 256 * 0x100 + o % 256 ≡ o = omega arith in
    let f : n % 256 ≡ n = omega arith in rw (e, f) refl

pub payload_of_body :
    (c : RawChunk) (rest : List ℕ)
    → big c ≡ false
    → drop 5 (body_of c ++ rest)
      ≡ c.payload ++ (replicate (sectors_of c * 4096 - 5 - length c.payload) 0 ++ rest)
unfolding body_of be_bytes
payload_of_body c rest h =
    let pad = replicate (sectors_of c * 4096 - 5 - length c.payload) 0 in
    rw (inline_small c h) (append_assoc c.payload pad rest)

pub positive_lem : (n : ℕ) → positive (pos (n + 1)) ≡ some (n + 1)
unfolding positive
positive_lem n = ground arith

pub external_bit : (c : RawChunk) → leb 128 (comp_byte_of c) ≡ big c
unfolding comp_byte_of
external_bit c = ground (arith, from_byte-to_byte c.compression)
