-- ===== src/Tests/Containing.antt =====
-- Region files and sections at concrete inputs.
use mcagit.Common.{
  ◌-◌, ◌≢◌, Option, replicate, ◌<◌, ◌≤◌, ◌^◌, ◌≡◌, refl, [], ◌∷◌, List, some, none, get_elem?, pos,
  negsuc, arith, true, false,
}
use mcagit.Common.Text.{codes, text_eq, compare_text}
use mcagit.Common.Dict.{is_some}
use mcagit.Common.Words.{shift_right, low_bits, wrap, join_bits}
use mcagit.Nbt.Value.{
  Value, int, string, list, compound, long_array, nil, cons, end, entry, find_entry,
}
use mcagit.Anvil.Chunk.{
  ChunkPos, RawChunk, uncompressed, region, region_index, from_region_index,
  from_region_index-region,
}
use mcagit.Anvil.Sections
use mcagit.Anvil.Sections.Bits.{bits_for_bounds}
use mcagit.Anvil.Sections.Agree.{block_at-section_blocks}
use mcagit.Anvil.Region.{External, parse, err, out_of_range, read_slot, ok}
use mcagit.Anvil.Region.Safe.{parse_safe}
use mcagit.Anvil.Writer.{
  insert_by_index, sectors_of, needed_sectors, ordered, write, write_external,
}
use mcagit.Anvil.Writer.Beside.{directory}
use mcagit.Anvil.Writer.RoundTrip.{stored, read_slot-write}

abbrev corner : ChunkPos
corner = record { x = pos 33; z = negsuc 0 }

corner_index : region_index corner ≡ 993
unfolding region_index low_bits
corner_index = refl

from_region_index-region_example : from_region_index (region corner) (region_index corner) ≡ corner
from_region_index-region_example = from_region_index-region corner (omega arith) (omega arith)

bits_for_bounds_example :
    (17 ≤ 2 ^ Sections.bits_for 17 4)
    × (4 ≤ Sections.bits_for 17 4)
    × (4 < Sections.bits_for 17 4 → 2 ^ (Sections.bits_for 17 4 - 1) < 17)
bits_for_bounds_example = bits_for_bounds 17 4 (omega arith)

abbrev bare : External
bare = record { metadata = λ p. none; content = λ p. none }

parse_safe_example : parse bare (codes "r.0.0.mca") (1 ∷ 2 ∷ []) ≢ err out_of_range
parse_safe_example = parse_safe bare (codes "r.0.0.mca") (1 ∷ 2 ∷ [])

abbrev stone_chunk : RawChunk
stone_chunk = record {
  place = corner;
  compression = uncompressed;
  payload = 7 ∷ 8 ∷ 9 ∷ [];
  external = false;
  timestamp = pos 1007;
}

abbrev first_chunk : RawChunk
first_chunk = record {
  place = record { x = pos 32; z = negsuc 31 };
  compression = uncompressed;
  payload = 5 ∷ [];
  external = false;
  timestamp = pos 3;
}

abbrev two_chunks : List RawChunk
two_chunks = stone_chunk ∷ first_chunk ∷ []

two_chunks-ordered : ordered two_chunks ≡ first_chunk ∷ stone_chunk ∷ []
unfolding ordered insert_by_index region_index low_bits
two_chunks-ordered = refl

read_slot-write_example :
    read_slot
      (directory (write_external two_chunks))
      (region corner)
      (write two_chunks)
      (region_index corner)
    ≡ ok (some (stored stone_chunk))
unfolding sectors_of needed_sectors
read_slot-write_example =
    read_slot-write two_chunks (first_chunk ∷ []) [] stone_chunk two_chunks-ordered tt (omega arith)
      (omega arith) (omega arith) (omega arith) (omega arith) (omega arith)

abbrev stone : Value
stone = compound (entry (codes "Name") (string (codes "stone")) end)

abbrev dirt : Value
dirt = compound (entry (codes "Name") (string (codes "dirt")) end)

-- Two blocks to choose from, and 256 words that hold sixteen choices each.
abbrev mixed_section : Value
mixed_section = compound (
    entry (codes "Y") (int (negsuc 0)) (
      entry (codes "block_states")
        (compound (
          entry (codes "palette") (list (cons stone (cons dirt nil)))
            (entry (codes "data") (long_array (replicate 256 (pos 0x10))) end)))
        end))

abbrev mixed_chunk : Value
mixed_chunk = compound (entry (codes "sections") (list (cons mixed_section nil)) end)

abbrev blocks_or_nil : Option (List Sections.BlockState) → List Sections.BlockState
blocks_or_nil none = []
blocks_or_nil (some bs) = bs

mixed_blocks : List Sections.BlockState
mixed_blocks = blocks_or_nil (Sections.section_blocks mixed_chunk (negsuc 0))

mixed_chunk_decodes : is_some (Sections.section_blocks mixed_chunk (negsuc 0)) ≡ true
unfolding Sections.section_blocks Sections.section_at Sections.sections_of Sections.get find_entry
    text_eq Sections.as_list Sections.find_section Sections.has_y Sections.section_y shift_right
    wrap join_bits low_bits Sections.section_decode Sections.palette_of Sections.states_of
    Sections.block_state Sections.as_string Sections.bits_for Sections.decode_blocks
    Sections.insert_property Sections.leading_zeros Sections.max Sections.needed_bits
    Sections.packed Sections.unpacked_index Sections.properties_of Sections.repeat_first
    Sections.text_properties Sections.unpack compare_text
mixed_chunk_decodes = refl

decoded : (o : Option (List Sections.BlockState)) → is_some o ≡ true → o ≡ some (blocks_or_nil o)
decoded none h = ground arith
decoded (some bs) h = refl

mixed_blocks-decoded :
    Sections.section_blocks mixed_chunk (shift_right 4 (negsuc 3)) ≡ some mixed_blocks
unfolding mixed_blocks shift_right
mixed_blocks-decoded = decoded _ mixed_chunk_decodes

block_at-section_blocks_example :
    Sections.block_at mixed_chunk (pos 17) (negsuc 3) (pos 5)
    ≡ get_elem? mixed_blocks (Sections.block_index (pos 17) (negsuc 3) (pos 5))
block_at-section_blocks_example =
    block_at-section_blocks mixed_chunk mixed_blocks (pos 17) (negsuc 3) (pos 5) (omega arith)
      mixed_blocks-decoded
