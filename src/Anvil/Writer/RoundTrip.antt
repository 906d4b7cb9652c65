-- ===== src/Anvil/Writer/RoundTrip.antt =====
-- Reading back what was written.
use mcagit.Common.{
  ℕ, ◌+◌, ◌-◌, ◌*◌, ◌%◌, ◌<◌, ◌≤◌, ◌≡◌, refl, sym, ap, ◌∙◌, arith, List, ◌∷◌, ◌++◌, true, false,
  some, ltb, ◌==◌, length, drop, replicate, get_elem?, get_elem?-drop, drop-drop, ℤ, pos, ◌||◌,
  Bool-cases, inl, inr,
}
use mcagit.Common.Words.{low_bits, IsI32}
use mcagit.Anvil.Chunk.{
  RawChunk, region, region_index, from_region_index, from_region_index-region, from_byte,
}
use mcagit.Anvil.Region.{
  External, ok, byte_at, read_i32, read_location, max_external_chunk, external_payload,
  inline_payload, read_scheme, read_body, read_slot,
}
use mcagit.Anvil.Writer.{
  ordered, needed_sectors, sectors_of, inline_of, comp_byte_of, be_bytes, body_of, location_bytes,
  write, spilled, write_external,
}
use mcagit.Anvil.Writer.Layout.{bodies_of, total_sectors, body_fits}
use mcagit.Anvil.Writer.Place.{Absent, location_at, time_at, body_at, length_at}
use mcagit.Anvil.Writer.Fields.{
  byte_at-ok, read_i32-ok, read_location-ok, be_i32-be_bytes, wrap-low_bits, low_bits_bound,
  wrap_small, from_byte-to_byte, big, inline_payload-ok, inline_small, location_value,
  payload_of_body, positive_lem, external_bit,
}
use mcagit.Anvil.Writer.Beside.{directory, find_spilled, external_payload-ok}

-- The chunk as it is read back: marked as external where it was written beside the file.
unfoldable pub stored : RawChunk → RawChunk
stored c = record {
  place = c.place;
  compression = c.compression;
  payload = c.payload;
  external = ltb 255 (needed_sectors c);
  timestamp = c.timestamp;
}

module _ (chunks pre post : List RawChunk) (c : RawChunk)
    (split : ordered chunks ≡ pre ++ (c ∷ post)) (absent : Absent (region_index c.place) post)
    (low : 2 + total_sectors pre < 0x100_0000) where
  start_of : ℕ
  start_of = (2 + total_sectors pre) * 4096

  location_read :
      read_location (write chunks) (region_index c.place * 4)
      ≡ ok (2 + total_sectors pre, sectors_of c)
  unfolding location_bytes
  location_read =
      read_location-ok _ _ _ _ _ _ (location_at chunks pre post c split absent 0 (omega arith))
        (location_at chunks pre post c split absent 1 (omega arith))
        (location_at chunks pre post c split absent 2 (omega arith))
        (location_at chunks pre post c split absent 3 (omega arith))
      ∙ ap ok
          (location_value (2 + total_sectors pre) (sectors_of c) low (omega (arith, body_fits c)))

  time_read :
      IsI32 c.timestamp → read_i32 (write chunks) (4096 + region_index c.place * 4) ≡ ok c.timestamp
  unfolding be_bytes
  time_read ht =
      read_i32-ok _ _ _ _ _ _ (time_at chunks pre post c split absent 0 (omega arith))
        (time_at chunks pre post c split absent 1 (omega arith))
        (time_at chunks pre post c split absent 2 (omega arith))
        (time_at chunks pre post c split absent 3 (omega arith))
      ∙ ap ok (
          be_i32-be_bytes (low_bits 32 c.timestamp) (low_bits_bound c.timestamp)
          ∙ wrap-low_bits c.timestamp ht)

  body_byte :
      (j : ℕ) → get_elem? (write chunks) (start_of + j) ≡ get_elem? (body_of c ++ bodies_of post) j
  unfolding start_of
  body_byte j =
      sym (get_elem?-drop start_of (write chunks) j)
      ∙ ap (λ (xs : List ℕ). get_elem? xs j) (body_at chunks pre post c split absent)

  size_read : read_i32 (write chunks) start_of ≡ ok (pos (length (inline_of c) + 1))
  unfolding body_of be_bytes
  size_read =
      read_i32-ok _ _ _ _ _ _ (body_byte 0) (body_byte 1) (body_byte 2) (body_byte 3)
      ∙ ap ok (
          be_i32-be_bytes (length (inline_of c) + 1) (omega (arith, body_fits c))
          ∙ wrap_small _ (omega (arith, body_fits c)))

  comp_read : byte_at (write chunks) (start_of + 4) ≡ ok (comp_byte_of c)
  unfolding body_of be_bytes
  comp_read = byte_at-ok _ _ _ (body_byte 4)

  enough_bytes : (2 + total_sectors pre) * 4096 + 5 ≤ length (write chunks)
  enough_bytes = omega (arith, length_at chunks pre post c split absent, body_fits c)

  module _ (r : ℤ × ℤ) (home : from_region_index r (region_index c.place) ≡ c.place)
      (ht : IsI32 c.timestamp) (nonempty : 0 < length c.payload)
      (short : length c.payload ≤ max_external_chunk) where
    files : External
    files = directory (write_external chunks)

    slot_steps :
        read_slot files r (write chunks) (region_index c.place)
        ≡ read_body files r
            (write chunks)
            (region_index c.place)
            start_of
            (length (inline_of c) + 1)
            (comp_byte_of c)
    unfolding read_slot start_of
    slot_steps =
        let used : (2 + total_sectors pre == 0 || sectors_of c == 0) ≡ false =
          ground (arith, body_fits c) in
        let near : ltb (length (write chunks)) ((2 + total_sectors pre) * 4096 + 5) ≡ false =
          ground (arith, enough_bytes) in
        rw (location_read, used, near, size_read, positive_lem (length (inline_of c)), comp_read)
          refl

    start_body : drop start_of (write chunks) ≡ body_of c ++ bodies_of post
    unfolding start_of
    start_body = body_at chunks pre post c split absent

    room : big c ≡ false → start_of + 5 + length c.payload ≤ length (write chunks)
    unfolding start_of
    room h =
        omega (
          arith,
          ap length (inline_small c h),
          length_at chunks pre post c split absent,
          body_fits c,
        )

    inline_read :
        big c ≡ false
        → inline_payload (write chunks) start_of (length (inline_of c) + 1) ≡ ok (some c.payload)
    inline_read h =
        let behind : drop (start_of + 5) (write chunks)
            ≡ c.payload
              ++ (replicate (sectors_of c * 4096 - 5 - length c.payload) 0 ++ bodies_of post) =
          drop-drop start_of 5 (write chunks)
          ∙ ap (drop {A = ℕ} 5) start_body
          ∙ payload_of_body c (bodies_of post) h in
        rw (inline_small c h)
          (inline_payload-ok (write chunks) c.payload _ start_of behind (room h) nonempty)

    external_read : big c ≡ true → external_payload files c.place ≡ ok (some c.payload)
    unfolding files write_external
    external_read h =
        external_payload-ok (spilled (ordered chunks)) c.place c.payload
          (rw split (find_spilled pre post c absent h)) short

    scheme_small :
        big c ≡ false
        → read_scheme files r
            (write chunks)
            (region_index c.place)
            start_of
            (length (inline_of c) + 1)
            (comp_byte_of c)
            c.compression
          ≡ ok (some (stored c))
    unfolding read_scheme stored
    scheme_small h = rw (time_read ht, external_bit c, h, home, inline_read h) refl

    scheme_big :
        big c ≡ true
        → read_scheme files r
            (write chunks)
            (region_index c.place)
            start_of
            (length (inline_of c) + 1)
            (comp_byte_of c)
            c.compression
          ≡ ok (some (stored c))
    unfolding read_scheme stored
    scheme_big h = rw (time_read ht, external_bit c, h, home, external_read h) refl

    read_scheme-write :
        read_scheme files r
          (write chunks)
          (region_index c.place)
          start_of
          (length (inline_of c) + 1)
          (comp_byte_of c)
          c.compression
        ≡ ok (some (stored c))
    read_scheme-write = elim (Bool-cases (big c)) [ inl h ↦ scheme_big h | inr h ↦ scheme_small h ]

    scheme_read : from_byte (comp_byte_of c % 128) ≡ some c.compression
    unfolding comp_byte_of
    scheme_read = ground (arith, from_byte-to_byte c.compression)

    slot_read : read_slot files r (write chunks) (region_index c.place) ≡ ok (some (stored c))
    unfolding read_body
    slot_read = slot_steps ∙ rw (scheme_read, read_body) read_scheme-write

-- Let a chunk stand in the order of the table without a later one of the same index, let it have
-- i32 coordinates and time, a payload that is not empty and within the cap of external bodies, and
-- let its first sector have a number below 2^24. Then reading the table entry of the chunk, in the
-- file that RegionWriter::write makes and beside the files that it spilled, gives the chunk back
-- with its position, compression, payload and time, and marked external exactly if it needed more
-- than 255 sectors.
pub read_slot-write :
    (chunks pre post : List RawChunk) (c : RawChunk)
    → ordered chunks ≡ pre ++ (c ∷ post)
    → Absent (region_index c.place) post
    → 2 + total_sectors pre < 0x100_0000
    → IsI32 c.place.x
    → IsI32 c.place.z
    → IsI32 c.timestamp
    → 0 < length c.payload
    → length c.payload ≤ max_external_chunk
    → read_slot
        (directory (write_external chunks))
        (region c.place)
        (write chunks)
        (region_index c.place)
      ≡ ok (some (stored c))
unfolding files
read_slot-write chunks pre post c split absent low hx hz ht nonempty short =
    slot_read chunks pre post c split absent low (region c.place)
      (from_region_index-region c.place hx hz) ht nonempty short
