-- ===== src/Anvil/Writer/Place.antt =====
-- The table of the written file at the index of one chunk, and the bytes from its place on.
use mcagit.Common.{
  ℕ, ◌+◌, ◌*◌, ◌<◌, ◌≡◌, ◌≢◌, refl, sym, ap, ◌∙◌, arith, List, [], ◌∷◌, ◌++◌, append_assoc, length,
  drop, get_elem?, length-append, length-replicate, get_elem?-append_left, drop-append,
}
use mcagit.Common.Words.{low_bits}
use native.Mathlib.Nat.{add-zero}
use mcagit.Anvil.Chunk.{RawChunk, region_index, region_index_bound}
use mcagit.Anvil.Writer.{
  ordered, sectors_of, be_bytes, body_of, location_bytes, put_header, empty_header, write,
}
use mcagit.Anvil.Writer.Layout.{
  header_of, bodies_of, total_sectors, write_chunks_lem, length-header_of, length-bodies_of,
  length-put_header, get_elem?-put_header, get_elem?-put_time,
}

-- No chunk of the list has this index.
abbrev pub Absent : ℕ → List RawChunk → Type 0
Absent k [] = Unit {0}
Absent k (c ∷ cs) = (region_index c.place ≢ k) × Absent k cs

header_of-append :
    (pre rest : List RawChunk) (offset : ℕ) (header : List ℕ)
    → header_of (pre ++ rest) offset header
      ≡ header_of rest (offset + total_sectors pre) (header_of pre offset header)
unfolding header_of
header_of-append [] rest offset header = rw (add-zero offset) refl
header_of-append (c ∷ pre) rest offset header =
    let e : offset + sectors_of c + total_sectors pre
        ≡ offset + (sectors_of c + total_sectors pre) =
      omega arith in
    header_of-append pre rest _ _ ∙ rw e refl

header_of-Absent :
    (cs : List RawChunk) (offset : ℕ) (header : List ℕ) (k j : ℕ)
    → Absent k cs
    → length header ≡ 8192
    → k < 1024
    → j < 4
    → get_elem? (header_of cs offset header) (k * 4 + j) ≡ get_elem? header (k * 4 + j)
unfolding header_of
header_of-Absent [] offset header k j a h hk hj = refl
header_of-Absent (c ∷ cs) offset header k j a h hk hj =
    header_of-Absent cs _ _ k j a.1 (length-put_header c offset header h) hk hj
    ∙ ground (arith, a.0, get_elem?-put_header c offset header k j h hk hj)

time_of-Absent :
    (cs : List RawChunk) (offset : ℕ) (header : List ℕ) (k j : ℕ)
    → Absent k cs
    → length header ≡ 8192
    → k < 1024
    → j < 4
    → get_elem? (header_of cs offset header) (4096 + k * 4 + j)
      ≡ get_elem? header (4096 + k * 4 + j)
unfolding header_of
time_of-Absent [] offset header k j a h hk hj = refl
time_of-Absent (c ∷ cs) offset header k j a h hk hj =
    time_of-Absent cs _ _ k j a.1 (length-put_header c offset header h) hk hj
    ∙ ground (arith, a.0, get_elem?-put_time c offset header k j h hk hj)

length-empty_header : length empty_header ≡ 8192
unfolding empty_header
length-empty_header = length-replicate {A = ℕ} (4096 * 2) 0

write_layout :
    (chunks : List RawChunk)
    → write chunks ≡ header_of (ordered chunks) 2 empty_header ++ bodies_of (ordered chunks)
unfolding write
write_layout chunks = rw (write_chunks_lem (ordered chunks) 2 empty_header []) refl

bodies_of-append :
    (pre rest : List RawChunk) → bodies_of (pre ++ rest) ≡ bodies_of pre ++ bodies_of rest
unfolding bodies_of
bodies_of-append [] rest = refl
bodies_of-append (c ∷ pre) rest =
    rw (bodies_of-append pre rest) (sym (append_assoc (body_of c) (bodies_of pre) (bodies_of rest)))

bodies_cons :
    (c : RawChunk) (post : List RawChunk) → bodies_of (c ∷ post) ≡ body_of c ++ bodies_of post
unfolding bodies_of
bodies_cons c post = refl

module _ (chunks pre post : List RawChunk) (c : RawChunk)
    (split : ordered chunks ≡ pre ++ (c ∷ post)) (absent : Absent (region_index c.place) post) where
  offset_of : ℕ
  offset_of = 2 + total_sectors pre

  header_before : List ℕ
  header_before = header_of pre 2 empty_header

  written :
      write chunks
      ≡ header_of post (offset_of + sectors_of c) (put_header c offset_of header_before)
        ++ bodies_of (pre ++ (c ∷ post))
  unfolding header_of offset_of header_before
  written = write_layout chunks ∙ rw (split, header_of-append pre (c ∷ post) 2 empty_header) refl

  before : length header_before ≡ 8192
  unfolding header_before
  before = length-header_of pre 2 empty_header length-empty_header

  put : length (put_header c offset_of header_before) ≡ 8192
  put = length-put_header c offset_of header_before before

  pub location_at :
      (j : ℕ)
      → j < 4
      → get_elem? (write chunks) (region_index c.place * 4 + j)
        ≡ get_elem? (location_bytes (2 + total_sectors pre) (sectors_of c)) j
  unfolding offset_of
  location_at j hj =
      let k = region_index c.place in
      let bound = region_index_bound c.place in
      let whole = length-header_of post (offset_of + sectors_of c) _ put in
      rw written (
        get_elem?-append_left _ _ (k * 4 + j) (omega arith)
        ∙ header_of-Absent post _ _ k j absent put bound hj
        ∙ ground (arith, get_elem?-put_header c offset_of header_before k j before bound hj))

  pub time_at :
      (j : ℕ)
      → j < 4
      → get_elem? (write chunks) (4096 + region_index c.place * 4 + j)
        ≡ get_elem? (be_bytes (low_bits 32 c.timestamp)) j
  time_at j hj =
      let k = region_index c.place in
      let bound = region_index_bound c.place in
      let whole = length-header_of post (offset_of + sectors_of c) _ put in
      rw written (
        get_elem?-append_left _ _ (4096 + k * 4 + j) (omega arith)
        ∙ time_of-Absent post _ _ k j absent put bound hj
        ∙ ground (arith, get_elem?-put_time c offset_of header_before k j before bound hj))

  pub body_at : drop ((2 + total_sectors pre) * 4096) (write chunks) ≡ body_of c ++ bodies_of post
  body_at =
      let header =
        header_of post (offset_of + sectors_of c) (put_header c offset_of header_before) in
      let whole = length-header_of post (offset_of + sectors_of c) _ put in
      let start : (2 + total_sectors pre) * 4096 ≡ length header + (length (bodies_of pre) + 0) =
        omega (arith, whole, length-bodies_of pre) in
      rw (written, start, bodies_of-append pre (c ∷ post))
        (drop-append header _ (length (bodies_of pre) + 0)
          ∙ drop-append (bodies_of pre) (bodies_of (c ∷ post)) 0
          ∙ bodies_cons c post)

  pub length_at :
      length (write chunks) ≡ 8192 + (total_sectors pre + sectors_of c + total_sectors post) * 4096
  length_at =
      let header =
        header_of post (offset_of + sectors_of c) (put_header c offset_of header_before) in
      let whole = length-header_of post (offset_of + sectors_of c) _ put in
      let all = length-append header (bodies_of (pre ++ (c ∷ post))) in
      let sizes = length-append (bodies_of pre) (bodies_of (c ∷ post)) in
      rw written (
        omega (
          arith,
          all,
          ap length (bodies_of-append pre (c ∷ post)),
          sizes,
          whole,
          length-bodies_of pre,
          length-bodies_of (c ∷ post),
        ))
