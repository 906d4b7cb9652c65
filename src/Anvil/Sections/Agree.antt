-- ===== src/Anvil/Sections/Agree.antt =====
-- The two ways to read a block agree.
use mcagit.Common.{
  ℕ, zero, suc, ◌+◌, ◌<◌, ◌≤◌, ◌≡◌, refl, sym, ◌∙◌, arith, List, [], ◌∷◌, Option, none, some, ◌>>=◌,
  length, get_elem?, replicate, ℤ, pos, negsuc, ◌==◌, >>=-eq-some, test_passed, >>=-pointwise,
  if◌then◌else◌,
}
use mcagit.Common.Text.{codes}
use mcagit.Common.Words.{low_bits, wrap, shift_right, join_bits, IsI32}
use mcagit.Nbt.Value.{Value, long_array}
use mcagit.Anvil.Sections

same_section :
    (y : ℤ) → IsI32 y → shift_right 4 (wrap 32 (join_bits 4 (shift_right 4 y) 0)) ≡ shift_right 4 y
unfolding low_bits wrap join_bits shift_right
same_section (pos n) h = ground arith
same_section (negsuc n) h = ground arith

low_bits_small : (z : ℤ) → low_bits 4 z < 16
unfolding low_bits
low_bits_small (pos n) = omega arith
low_bits_small (negsuc n) = omega arith

block_index_bound : (x y z : ℤ) → Sections.block_index x y z < 4096
unfolding Sections.block_index
block_index_bound x y z = omega (arith, low_bits_small x, low_bits_small y, low_bits_small z)

get_elem?-replicate {ℓ} :
    {A : Type ℓ} (n : ℕ) (a : A) (i : ℕ) → i < n → get_elem? (replicate n a) i ≡ some a
get_elem?-replicate zero a i h = ground arith
get_elem?-replicate (suc n) a zero h = refl
get_elem?-replicate (suc n) a (suc i) h = get_elem?-replicate n a i (omega arith)

get_elem?-unpack :
    (bits : ℕ) (words : List ℤ) (states out : List Sections.BlockState) (count idx i : ℕ)
    → Sections.unpack bits words states count idx ≡ some out
    → i < count
    → get_elem? out i ≡ (Sections.packed bits words (idx + i) >>= get_elem? states)
unfolding Sections.unpack Sections.packed Sections.unpacked_index
get_elem?-unpack bits words states out zero idx i e h = ground arith
get_elem?-unpack bits words states out (suc count) idx zero e h =
    let (pi, e1, f1) = >>=-eq-some (Sections.unpacked_index bits words idx) _ e in
    let (s, e2, f2) = >>=-eq-some (get_elem? states pi) _ f1 in
    let (rest, e3, f3) = >>=-eq-some (Sections.unpack bits words states count (suc idx)) _ f2 in
    ground arith
get_elem?-unpack bits words states out (suc count) idx (suc i) e h =
    let (pi, e1, f1) = >>=-eq-some (Sections.unpacked_index bits words idx) _ e in
    let (s, e2, f2) = >>=-eq-some (get_elem? states pi) _ f1 in
    let (rest, e3, f3) = >>=-eq-some (Sections.unpack bits words states count (suc idx)) _ f2 in
    let ih = get_elem?-unpack bits words states rest count (suc idx) i e3 (omega arith) in
    ground arith

states_short : (vs : List Value) → length (Sections.states_of vs) ≤ length vs
unfolding Sections.states_of
states_short [] = omega arith
states_short (v ∷ vs) = ground (arith, states_short vs)

get_elem?-states :
    (vs : List Value) (i : ℕ)
    → length (Sections.states_of vs) ≡ length vs
    → get_elem? (Sections.states_of vs) i ≡ (get_elem? vs i >>= Sections.block_state)
unfolding Sections.states_of
get_elem?-states [] i h = refl
get_elem?-states (v ∷ vs) zero h = ground (arith, states_short vs)
get_elem?-states (v ∷ vs) (suc i) h = ground (arith, states_short vs, get_elem?-states vs i)

get_elem?-repeat_first :
    (count : ℕ) (states out : List Sections.BlockState) (idx : ℕ)
    → Sections.repeat_first count states ≡ some out
    → idx < count
    → get_elem? out idx ≡ get_elem? states 0
unfolding Sections.repeat_first
get_elem?-repeat_first count states out idx e h =
    let (s, e1, f1) = >>=-eq-some (get_elem? states 0) _ e in
    ground (arith, get_elem?-replicate count s idx h)

-- The palette entry that the packed data of a section chooses.
get_elem?-decode :
    (count : ℕ) (packed_data : Option Value) (states out : List Sections.BlockState) (idx : ℕ)
    → Sections.decode_blocks count packed_data states ≡ some out
    → idx < count
    → get_elem? out idx
      ≡ (Sections.palette_index packed_data (length states) 4 idx >>= get_elem? states)
unfolding Sections.decode_blocks Sections.palette_index
get_elem?-decode count (some (long_array words)) states out idx e h =
    let bits = Sections.bits_for (length states) 4 in
    let unpacked = get_elem?-unpack bits words states out count 0 idx in
    let repeated = get_elem?-repeat_first count states out idx in ground (arith, unpacked, repeated)
get_elem?-decode count none states out idx e h = get_elem?-repeat_first count states out idx e h
get_elem?-decode count (some v) states out idx e h = get_elem?-repeat_first count states out idx e h

decode_palette :
    (count : ℕ) (palette : List Value) (packed_data : Option Value) (out : List Sections.BlockState)
    (idx : ℕ)
    → (if length (Sections.states_of palette) == length palette
        then Sections.decode_blocks count packed_data (Sections.states_of palette)
        else none)
      ≡ some out
    → idx < count
    → get_elem? out idx ≡ (
        Sections.palette_index packed_data (length palette) 4 idx >>= λ pi.
        get_elem? palette pi >>= Sections.block_state)
decode_palette count palette packed_data out idx e h =
    let states = Sections.states_of palette in
    let (same, f) = test_passed (length states == length palette) _ e in
    let long_enough : length states ≡ length palette = ground arith in
    let chosen = get_elem?-decode count packed_data states out idx f h in
    rw (sym long_enough)
      (chosen ∙ >>=-pointwise _ _ _ (λ i. get_elem?-states palette i long_enough))

decode_section :
    (container : Value) (out : List Sections.BlockState) (idx : ℕ)
    → Sections.section_decode container ≡ some out
    → idx < 4096
    → get_elem? out idx ≡ Sections.block_in container idx
unfolding Sections.section_decode Sections.block_in
decode_section container out idx e h =
    let (palette, e1, f1) = >>=-eq-some (Sections.palette_of container) _ e in
    let chosen = decode_palette 4096 palette (Sections.get container (codes "data")) out idx f1 h in
    rw e1 chosen

same_section_at :
    (chunk : Value) (y : ℤ)
    → IsI32 y
    → Sections.section_at chunk y
      ≡ Sections.section_at chunk (wrap 32 (join_bits 4 (shift_right 4 y) 0))
unfolding Sections.section_at
same_section_at chunk y h = rw (same_section y h) refl

-- If section_blocks decodes the section of the height y, an i32, then block_at gives at every x and
-- z of that height the block that section_blocks has at the index of the coordinates in YZX order.
pub block_at-section_blocks :
    (chunk : Value) (out : List Sections.BlockState) (x y z : ℤ)
    → IsI32 y
    → Sections.section_blocks chunk (shift_right 4 y) ≡ some out
    → Sections.block_at chunk x y z ≡ get_elem? out (Sections.block_index x y z)
unfolding Sections.section_blocks Sections.block_at
block_at-section_blocks chunk out x y z hy e =
    let (section, e1, f1) = >>=-eq-some (Sections.section_at chunk _) _ e in
    let (bs, e2, f2) = >>=-eq-some (Sections.get section (codes "block_states")) _ f1 in
    let at_y : Sections.section_at chunk y ≡ some section = same_section_at chunk y hy ∙ e1 in
    rw (at_y, e2) (sym (decode_section bs out _ f2 (block_index_bound x y z)))
