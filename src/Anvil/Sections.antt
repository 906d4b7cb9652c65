-- ===== src/Anvil/Sections.antt =====
-- crates/anvil/src/blockstate.rs: the block or the biome at a coordinate of a decoded chunk, and all
-- blocks of a section. A section holds a palette and a packed array of palette indices, of which no
-- index crosses a word.
pub mod Bits
pub mod Agree
use Prim.Native.Nat.{Ordering}
use mcagit.Common.{
  ℕ, zero, suc, ◌+◌, ◌-◌, ◌*◌, ◌/◌, ◌%◌, ◌^◌, List, [], ◌∷◌, Bool, Option, none, some, leb, ltb,
  ◌==◌, if◌then◌else◌, ◌>>=◌, length, get_elem?, replicate, ℤ, eq_ℤ, pos,
}
use mcagit.Common.Text.{Text, codes, compare_text}
use mcagit.Common.Words.{low_bits, wrap, shift_right, join_bits}
use mcagit.Nbt.Value.{
  Value, Items, Entries, byte, short, int, string, list, compound, long_array, end, entry,
  items_list, find_entry,
}

pub record BlockState : Type 0 where
  pub name : Text
  pub properties : List (Text × Text)

unfoldable pub get : Value → Text → Option Value
get (compound m) key = find_entry key m
get _ key = none

unfoldable pub as_list : Value → Option (List Value)
as_list (list xs) = some (items_list xs)
as_list _ = none

-- `leading_zeros` of a number of `w` bits.
unfoldable pub leading_zeros : ℕ → ℕ → ℕ
leading_zeros zero n = 0
leading_zeros (suc w) n = if leb (2 ^ w) n then 0 else suc (leading_zeros w n)

-- The larger of two numbers.
unfoldable pub max : ℕ → ℕ → ℕ
max a b = if ltb b a then a else b

unfoldable pub needed_bits : ℕ → ℕ
needed_bits palette_len = if leb palette_len 1 then 0 else 64 - leading_zeros 64 (palette_len - 1)

unfoldable pub bits_for : ℕ → ℕ → ℕ
bits_for palette_len min_bits = max (needed_bits palette_len) min_bits

-- Entry `idx` of the packed words: `(raw >> off) & mask`.
unfoldable pub packed : ℕ → List ℤ → ℕ → Option ℕ
packed bits words idx = do
  raw ← get_elem? words (idx / (64 / bits))
  some (low_bits 64 raw / 2 ^ (idx % (64 / bits) * bits) % 2 ^ bits)

-- The same reading as `section_blocks` writes it out once more.
unfoldable pub unpacked_index : ℕ → List ℤ → ℕ → Option ℕ
unpacked_index bits words idx = do
  raw ← get_elem? words (idx / (64 / bits))
  some (low_bits 64 raw / 2 ^ (idx % (64 / bits) * bits) % 2 ^ bits)

unfoldable pub palette_index : Option Value → ℕ → ℕ → ℕ → Option ℕ
palette_index (some (long_array words)) palette_len min_bits idx =
    let bits = bits_for palette_len min_bits in if ltb 0 bits then packed bits words idx else some 0
palette_index _ palette_len min_bits idx = some 0

unfoldable pub section_y : Value → Option ℤ
section_y s = get s (codes "Y") >>= λ y. elim y [
  | byte b ↦ some b
  | int i ↦ some i
  | short i ↦ some i
  | other ↦ none
]

-- `get(chunk, "sections").or_else(..)`: the older place is tried where there is no newer one.
unfoldable pub sections_of : Value → Option Value
sections_of chunk = elim (get chunk (codes "sections")) [
  | some secs ↦ some secs
  | none ↦ get chunk (codes "Level") >>= λ level. get level (codes "Sections")
]

-- `section_y(s) == Some(want)`
unfoldable pub has_y : ℤ → Value → Bool
has_y want s = elim (section_y s) [ none ↦ Bool.false | some y ↦ eq_ℤ y want ]

unfoldable pub find_section : ℤ → List Value → Option Value
find_section want [] = none
find_section want (s ∷ ss) =
    let rest = find_section want ss in if has_y want s then some s else rest

unfoldable pub section_at : Value → ℤ → Option Value
section_at chunk y = do
  secs ← sections_of chunk
  ss ← as_list secs
  find_section (shift_right 4 y) ss

unfoldable pub ys_of : List Value → List ℤ
ys_of [] = []
ys_of (s ∷ ss) = elim (section_y s) [ none ↦ ys_of ss | some y ↦ wrap 32 y ∷ ys_of ss ]

-- The heights of the sections of a chunk.
unfoldable pub section_ys : Value → List ℤ
section_ys chunk = elim (sections_of chunk) [
  | none ↦ []
  | some secs ↦ elim (as_list secs) [ none ↦ [] | some ss ↦ ys_of ss ]
]

-- Pairs of texts in the order of `sort`.
unfoldable pub insert_property : Text → Text → List (Text × Text) → List (Text × Text)
insert_property k v [] = (k, v) ∷ []
insert_property k v ((j, w) ∷ ps) =
    let rest = insert_property k v ps in
    let behind = (j, w) ∷ rest in
    elim (compare_text k j) [
      | Ordering.lt ↦ (k, v) ∷ (j, w) ∷ ps
      | Ordering.gt ↦ behind
      | Ordering.eq ↦ elim (compare_text v w) [
        | Ordering.gt ↦ behind
        | other ↦ (k, v) ∷ (j, w) ∷ ps
      ]
    ]

unfoldable pub text_properties : Entries → List (Text × Text)
text_properties end = []
text_properties (entry k (string s) m) = insert_property k s (text_properties m)
text_properties (entry k v m) = text_properties m

unfoldable pub properties_of : Value → List (Text × Text)
properties_of palette_entry = elim (get palette_entry (codes "Properties")) [
  | some (compound props) ↦ text_properties props
  | other ↦ []
]

unfoldable pub as_string : Value → Option Text
as_string (string s) = some s
as_string _ = none

unfoldable pub block_state : Value → Option BlockState
block_state palette_entry = do
  v ← get palette_entry (codes "Name")
  name ← as_string v
  some (record { name = name; properties = properties_of palette_entry })

-- `palette.is_empty()` makes the whole lookup fail.
abbrev pub nonempty {ℓ} : {A : Type ℓ} → List A → Option (List A)
nonempty [] = none
nonempty (a ∷ as_) = some (a ∷ as_)

-- The palette of a section's container `which`, and its packed data.
unfoldable pub palette_of : Value → Option (List Value)
palette_of container = get container (codes "palette") >>= λ p. as_list p >>= nonempty

-- `ly * 256 + lz * 16 + lx`
unfoldable pub block_index : ℤ → ℤ → ℤ → ℕ
block_index x y z = low_bits 4 y * 256 + low_bits 4 z * 16 + low_bits 4 x

-- Entry `idx` of the section that holds the blocks of `bs`.
unfoldable pub block_in : Value → ℕ → Option BlockState
block_in bs idx = do
  palette ← palette_of bs
  pi ← palette_index (get bs (codes "data")) (length palette) 4 idx
  chosen ← get_elem? palette pi
  block_state chosen

unfoldable pub block_at : Value → ℤ → ℤ → ℤ → Option BlockState
block_at chunk x y z = do
  section ← section_at chunk y
  bs ← get section (codes "block_states")
  block_in bs (block_index x y z)

unfoldable pub biome_index : ℤ → ℤ → ℤ → ℕ
biome_index x y z = low_bits 4 y / 4 * 16 + low_bits 4 z / 4 * 4 + low_bits 4 x / 4

unfoldable pub biome_at : Value → ℤ → ℤ → ℤ → Option Text
biome_at chunk x y z = do
  section ← section_at chunk y
  biomes ← get section (codes "biomes")
  palette ← palette_of biomes
  pi ← palette_index (get biomes (codes "data")) (length palette) 1 (biome_index x y z)
  chosen ← get_elem? palette pi
  as_string chosen

-- `palette.iter().filter_map(block_state).collect()`
unfoldable pub states_of : List Value → List BlockState
states_of [] = []
states_of (v ∷ vs) = elim (block_state v) [ none ↦ states_of vs | some s ↦ s ∷ states_of vs ]

-- The loop of `section_blocks` for `count` more entries, from entry `idx` on.
unfoldable pub unpack : ℕ → List ℤ → List BlockState → ℕ → ℕ → Option (List BlockState)
unpack bits words states zero idx = some []
unpack bits words states (suc count) idx = do
  pi ← unpacked_index bits words idx
  s ← get_elem? states pi
  rest ← unpack bits words states count (suc idx)
  some (s ∷ rest)

-- One state for `count` entries.
unfoldable pub repeat_first : ℕ → List BlockState → Option (List BlockState)
repeat_first count states = get_elem? states 0 >>= λ s. some (replicate count s)

unfoldable pub decode_blocks : ℕ → Option Value → List BlockState → Option (List BlockState)
decode_blocks count (some (long_array words)) states =
    let bits = bits_for (length states) 4 in
    if ltb 0 bits then unpack bits words states count 0 else repeat_first count states
decode_blocks count _ states = repeat_first count states

-- An entry of the palette that is no block state makes it fail.
unfoldable pub section_decode : Value → Option (List BlockState)
section_decode bs = do
  palette ← palette_of bs
  let states = states_of palette
  if length states == length palette
      then decode_blocks 4096 (get bs (codes "data")) states
      else none

-- All blocks of section `sy`.
unfoldable pub section_blocks : Value → ℤ → Option (List BlockState)
section_blocks chunk sy = do
  section ← section_at chunk (wrap 32 (join_bits 4 sy 0))
  bs ← get section (codes "block_states")
  section_decode bs
