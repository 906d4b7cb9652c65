-- ===== src/Anvil/Chunk.antt =====
-- crates/anvil/src/chunk.rs and compression.rs: the coordinates of a chunk, its place in the table
-- of its region, and the raw record that a region file holds for it.
use mcagit.Common.{
  ℕ, ◌+◌, ◌*◌, ◌/◌, ◌%◌, ◌<◌, ◌≡◌, ◌&&◌, List, Bool, Option, none, some, ◌==◌, if◌then◌else◌, ℤ,
  pos, negsuc, arith, refl,
}
use mcagit.Common.Text.{text_eq}
use mcagit.Common.Words.{low_bits, wrap, shift_right, join_bits, IsI32}

pub record ChunkPos : Type 0 where
  pub x : ℤ
  pub z : ℤ

unfoldable pub region_index : ChunkPos → ℕ
region_index p = low_bits 5 p.x + low_bits 5 p.z * 32

unfoldable pub region : ChunkPos → ℤ × ℤ
region p = (shift_right 5 p.x, shift_right 5 p.z)

-- `i32` arithmetic wraps.
unfoldable pub from_region_index : ℤ × ℤ → ℕ → ChunkPos
from_region_index (rx, rz) i = record {
  x = wrap 32 (join_bits 5 rx (i % 32));
  z = wrap 32 (join_bits 5 rz (i / 32));
}

pub data ChunkCompression : Type 0 where
  gzip : ChunkCompression
  zlib : ChunkCompression
  uncompressed : ChunkCompression
  lz4 : ChunkCompression
  custom : ChunkCompression

unfoldable pub to_byte : ChunkCompression → ℕ
to_byte gzip = 1
to_byte zlib = 2
to_byte uncompressed = 3
to_byte lz4 = 4
to_byte custom = 127

unfoldable pub from_byte : ℕ → Option ChunkCompression
from_byte b =
    if b == 1
    then some gzip
    else if b == 2
    then some zlib
    else if b == 3
    then some uncompressed
    else if b == 4
    then some lz4
    else if b == 127
    then some custom
    else none

pub record RawChunk : Type 0 where
  pub place : ChunkPos
  pub compression : ChunkCompression
  pub payload : List ℕ
  pub external : Bool
  pub timestamp : ℤ

unfoldable pub payload_equals : RawChunk → RawChunk → Bool
payload_equals a b = to_byte a.compression == to_byte b.compression && text_eq a.payload b.payload

low_bits-join_bits : (z : ℤ) (k : ℕ) → k < 32 → low_bits 5 (wrap 32 (join_bits 5 z k)) ≡ k
unfolding low_bits wrap join_bits
low_bits-join_bits (pos n) k h = ground arith
low_bits-join_bits (negsuc n) k h = ground arith

join_bits-shift_right :
    (z : ℤ) → IsI32 z → wrap 32 (join_bits 5 (shift_right 5 z) (low_bits 5 z)) ≡ z
unfolding low_bits wrap join_bits shift_right
join_bits-shift_right (pos n) h = ground arith
join_bits-shift_right (negsuc n) h = ground arith

low_bits_small : (z : ℤ) → low_bits 5 z < 32
unfolding low_bits
low_bits_small (pos n) = omega arith
low_bits_small (negsuc n) = omega arith

pub region_index_bound : (p : ChunkPos) → region_index p < 1024
unfolding region_index
region_index_bound p = omega (arith, low_bits_small p.x, low_bits_small p.z)

-- A chunk position with i32 coordinates, negative ones too, is given back by its region and its
-- index in the region.
pub from_region_index-region :
    (p : ChunkPos) → IsI32 p.x → IsI32 p.z → from_region_index (region p) (region_index p) ≡ p
unfolding from_region_index region region_index
from_region_index-region p hx hz =
    let ex : (low_bits 5 p.x + low_bits 5 p.z * 32) % 32 ≡ low_bits 5 p.x =
      omega (arith, low_bits_small p.x) in
    let ez : (low_bits 5 p.x + low_bits 5 p.z * 32) / 32 ≡ low_bits 5 p.z =
      omega (arith, low_bits_small p.x) in
    rw (ex, ez, join_bits-shift_right p.x hx, join_bits-shift_right p.z hz) refl

pub region_index-from_region_index :
    (r : ℤ × ℤ) (i : ℕ) → i < 1024 → region_index (from_region_index r i) ≡ i
unfolding from_region_index region_index
region_index-from_region_index r i h = omega (
  arith,
  low_bits-join_bits r.0 (i % 32) (omega arith),
  low_bits-join_bits r.1 (i / 32) (omega arith),
)
