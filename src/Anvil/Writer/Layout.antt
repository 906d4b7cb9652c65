-- ===== src/Anvil/Writer/Layout.antt =====
-- Where `RegionWriter::write` puts the bytes of each chunk.
use mcagit.Common.{
  ℕ, ◌+◌, ◌-◌, ◌*◌, ◌<◌, ◌≤◌, ◌≡◌, refl, ◌∙◌, arith, List, [], ◌∷◌, ◌++◌, append_assoc, append-nil,
  if◌then◌else◌, ◌&&◌, ◌==◌, leb, ltb, length, take, drop, replicate, get_elem?, length-append,
  length-drop, length-replicate, length-take, get_elem?-append_left, get_elem?-append_right,
  get_elem?-take, get_elem?-drop,
}
use mcagit.Common.Words.{low_bits}
use mcagit.Anvil.Chunk.{RawChunk, region_index, region_index_bound}
use mcagit.Anvil.Writer.{
  needed_sectors, sectors_of, inline_of, be_bytes, body_of, splice, location_bytes, put_header,
  write_chunks,
}

pub length-splice :
    (at : ℕ) (xs bytes : List ℕ)
    → at + length xs ≤ length bytes
    → length (splice at xs bytes) ≡ length bytes
unfolding splice
length-splice at xs bytes h = omega (
  arith,
  length-append (take at bytes) (xs ++ drop (at + length xs) bytes),
  length-append xs (drop (at + length xs) bytes),
  length-take at bytes (omega arith),
  length-drop (at + length xs) bytes,
)

pub get_elem?-splice :
    (at : ℕ) (xs bytes : List ℕ) (i : ℕ)
    → at + length xs ≤ length bytes
    → get_elem? (splice at xs bytes) i
      ≡ (if leb at i && ltb i (at + length xs) then get_elem? xs (i - at) else get_elem? bytes i)
unfolding splice
get_elem?-splice at xs bytes i h =
    let behind = drop (at + length xs) bytes in
    let n = length-take at bytes (omega arith) in
    ground (
      arith,
      n,
      get_elem?-append_left (take at bytes) (xs ++ behind) i,
      get_elem?-append_right (take at bytes) (xs ++ behind) i,
      get_elem?-take at bytes i,
      get_elem?-append_left xs behind (i - at),
      get_elem?-append_right xs behind (i - at),
      get_elem?-drop (at + length xs) bytes (i - at - length xs),
    )

four_location : (offset sectors : ℕ) → length (location_bytes offset sectors) ≡ 4
unfolding location_bytes
four_location offset sectors = refl

four_bytes : (n : ℕ) → length (be_bytes n) ≡ 4
unfolding be_bytes
four_bytes n = refl

pub length-put_header :
    (c : RawChunk) (offset : ℕ) (header : List ℕ)
    → length header ≡ 8192
    → length (put_header c offset header) ≡ 8192
unfolding put_header be_bytes location_bytes
length-put_header c offset header h =
    let e = region_index c.place * 4 in
    let loc = location_bytes offset (sectors_of c) in
    omega (
      arith,
      region_index_bound c.place,
      h,
      length-splice e loc header (omega (arith, region_index_bound c.place, h)),
      length-splice (4096 + e) (be_bytes (low_bits 32 c.timestamp)) (splice e loc header) (
          omega (
            arith,
            region_index_bound c.place,
            h,
            length-splice e loc header (omega (arith, region_index_bound c.place, h)),
          )),
    )

-- The byte `j` of the place of entry `k`, and of its time.
pub get_elem?-put_header :
    (c : RawChunk) (offset : ℕ) (header : List ℕ) (k j : ℕ)
    → length header ≡ 8192
    → k < 1024
    → j < 4
    → get_elem? (put_header c offset header) (k * 4 + j) ≡ (
        if region_index c.place == k
        then get_elem? (location_bytes offset (sectors_of c)) j
        else get_elem? header (k * 4 + j))
unfolding put_header
get_elem?-put_header c offset header k j h hk hj =
    let e = region_index c.place * 4 in
    let loc = location_bytes offset (sectors_of c) in
    let bound = region_index_bound c.place in
    ground (
      arith,
      bound,
      four_location offset (sectors_of c),
      four_bytes (low_bits 32 c.timestamp),
      length-splice e loc header,
      get_elem?-splice (4096 + e) (be_bytes (low_bits 32 c.timestamp)) (splice e loc header)
          (k * 4 + j),
      get_elem?-splice e loc header (k * 4 + j),
    )

pub get_elem?-put_time :
    (c : RawChunk) (offset : ℕ) (header : List ℕ) (k j : ℕ)
    → length header ≡ 8192
    → k < 1024
    → j < 4
    → get_elem? (put_header c offset header) (4096 + k * 4 + j) ≡ (
        if region_index c.place == k
        then get_elem? (be_bytes (low_bits 32 c.timestamp)) j
        else get_elem? header (4096 + k * 4 + j))
unfolding put_header
get_elem?-put_time c offset header k j h hk hj =
    let e = region_index c.place * 4 in
    let loc = location_bytes offset (sectors_of c) in
    let bound = region_index_bound c.place in
    ground (
      arith,
      bound,
      four_location offset (sectors_of c),
      four_bytes (low_bits 32 c.timestamp),
      length-splice e loc header,
      get_elem?-splice (4096 + e) (be_bytes (low_bits 32 c.timestamp)) (splice e loc header)
          (4096 + k * 4 + j),
      get_elem?-splice e loc header (4096 + k * 4 + j),
    )

-- The header and the bodies that the loop makes.
unfoldable pub header_of : List RawChunk → ℕ → List ℕ → List ℕ
header_of [] offset header = header
header_of (c ∷ cs) offset header = header_of cs (offset + sectors_of c) (put_header c offset header)

unfoldable pub bodies_of : List RawChunk → List ℕ
bodies_of [] = []
bodies_of (c ∷ cs) = body_of c ++ bodies_of cs

abbrev pub total_sectors : List RawChunk → ℕ
total_sectors [] = 0
total_sectors (c ∷ cs) = sectors_of c + total_sectors cs

pub write_chunks_lem :
    (cs : List RawChunk) (offset : ℕ) (header bodies : List ℕ)
    → write_chunks cs offset header bodies ≡ (header_of cs offset header, bodies ++ bodies_of cs)
unfolding write_chunks header_of bodies_of
write_chunks_lem [] offset header bodies = rw (append-nil bodies) refl
write_chunks_lem (c ∷ cs) offset header bodies =
    write_chunks_lem cs (offset + sectors_of c) (put_header c offset header) (bodies ++ body_of c)
    ∙ rw (append_assoc bodies (body_of c) (bodies_of cs)) refl

pub length-header_of :
    (cs : List RawChunk) (offset : ℕ) (header : List ℕ)
    → length header ≡ 8192
    → length (header_of cs offset header) ≡ 8192
unfolding header_of
length-header_of [] offset header h = h
length-header_of (c ∷ cs) offset header h =
    length-header_of cs _ _ (length-put_header c offset header h)

-- The body has room for its five bytes in front, and no more than 255 sectors are used.
pub body_fits :
    (c : RawChunk)
    → (length (inline_of c) + 5 ≤ sectors_of c * 4096) × (0 < sectors_of c) × (sectors_of c < 256)
unfolding inline_of sectors_of needed_sectors
body_fits c = ground arith

pub length-body_of : (c : RawChunk) → length (body_of c) ≡ sectors_of c * 4096
unfolding body_of be_bytes
length-body_of c =
    let rest = sectors_of c * 4096 - 5 - length (inline_of c) in
    let padded = length-append (inline_of c) (replicate rest 0) in
    omega (arith, body_fits c, padded, length-replicate {A = ℕ} rest 0)

pub length-bodies_of : (cs : List RawChunk) → length (bodies_of cs) ≡ total_sectors cs * 4096
unfolding bodies_of
length-bodies_of [] = refl
length-bodies_of (c ∷ cs) =
    omega (arith, length-append (body_of c) (bodies_of cs), length-body_of c, length-bodies_of cs)
