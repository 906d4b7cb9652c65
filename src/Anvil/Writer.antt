-- ===== src/Anvil/Writer.antt =====
-- crates/anvil/src/region.rs: `RegionWriter::write`. The file is a value, and so are the files beside
-- it that hold the chunks that are too large.
pub mod Layout
pub mod Place
pub mod Fields
pub mod Beside
pub mod RoundTrip
use mcagit.Common.{
  ℕ, zero, suc, ◌+◌, ◌-◌, ◌*◌, ◌/◌, ◌%◌, List, [], ◌∷◌, ◌++◌, leb, ltb, if◌then◌else◌, length, take,
  drop, replicate, ℤ, pos, negsuc,
}
use mcagit.Common.Words.{low_bits}
use mcagit.Anvil.Chunk.{ChunkPos, region_index, to_byte, RawChunk}

-- `ordered.sort_by_key(..)`, which is stable.
unfoldable pub insert_by_index : RawChunk → List RawChunk → List RawChunk
insert_by_index c [] = c ∷ []
insert_by_index c (d ∷ ds) =
    let rest = insert_by_index c ds in
    if leb (region_index c.place) (region_index d.place) then c ∷ d ∷ ds else d ∷ rest

unfoldable pub ordered : List RawChunk → List RawChunk
ordered [] = []
ordered (c ∷ cs) = insert_by_index c (ordered cs)

-- `(5 + ch.payload.len()).div_ceil(SECTOR)`
unfoldable pub needed_sectors : RawChunk → ℕ
needed_sectors c = (5 + length c.payload + 4095) / 4096

unfoldable pub sectors_of : RawChunk → ℕ
sectors_of c = if ltb 255 (needed_sectors c) then 1 else needed_sectors c

unfoldable pub inline_of : RawChunk → List ℕ
inline_of c = if ltb 255 (needed_sectors c) then [] else c.payload

-- The scheme's byte, with the bit 0x80 for a body beside the file.
unfoldable pub comp_byte_of : RawChunk → ℕ
comp_byte_of c =
    if ltb 255 (needed_sectors c) then to_byte c.compression + 128 else to_byte c.compression

-- `to_be_bytes` of the low 32 bits.
unfoldable pub be_bytes : ℕ → List ℕ
be_bytes n = (n / 0x100_0000 % 256) ∷ (n / 0x1_0000 % 256) ∷ (n / 0x100 % 256) ∷ (n % 256) ∷ []

unfoldable pub body_of : RawChunk → List ℕ
body_of c =
    be_bytes (length (inline_of c) + 1)
    ++ (comp_byte_of c
        ∷ (inline_of c ++ replicate (sectors_of c * 4096 - 5 - length (inline_of c)) 0))

-- `copy_from_slice` into a vector.
unfoldable pub splice : ℕ → List ℕ → List ℕ → List ℕ
splice at xs bytes = take at bytes ++ (xs ++ drop (at + length xs) bytes)

-- The place of a chunk in the table: three bytes of its first sector, one of its size.
unfoldable pub location_bytes : ℕ → ℕ → List ℕ
location_bytes offset sectors =
    (offset / 0x1_0000 % 256) ∷ (offset / 0x100 % 256) ∷ (offset % 256) ∷ (sectors % 256) ∷ []

unfoldable pub put_header : RawChunk → ℕ → List ℕ → List ℕ
put_header c offset header =
    let e = region_index c.place * 4 in
    splice (4096 + e) (be_bytes (low_bits 32 c.timestamp))
      (splice e (location_bytes offset (sectors_of c)) header)

-- The loop over the chunks: the header and the bodies.
unfoldable pub write_chunks : List RawChunk → ℕ → List ℕ → List ℕ → List ℕ × List ℕ
write_chunks [] offset header bodies = (header, bodies)
write_chunks (c ∷ cs) offset header bodies =
    write_chunks cs (offset + sectors_of c) (put_header c offset header) (bodies ++ body_of c)

-- `vec![0u8; SECTOR * 2]`
unfoldable pub empty_header : List ℕ
empty_header = replicate (4096 * 2) 0

-- The bytes of the region file.
unfoldable pub write : List RawChunk → List ℕ
write chunks =
    let (header, bodies) = write_chunks (ordered chunks) 2 empty_header [] in header ++ bodies

-- The files that are written beside it, in this order.
unfoldable pub spilled : List RawChunk → List (ChunkPos × List ℕ)
spilled [] = []
spilled (c ∷ cs) =
    if ltb 255 (needed_sectors c) then (c.place, c.payload) ∷ spilled cs else spilled cs

unfoldable pub write_external : List RawChunk → List (ChunkPos × List ℕ)
write_external chunks = spilled (ordered chunks)
