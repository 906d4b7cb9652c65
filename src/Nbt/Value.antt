-- ===== src/Nbt/Value.antt =====
-- crates/nbt/src/value.rs: NBT values, and the equality that they derive.
pub mod Equality
use mcagit.Common.{
  ℕ, suc, ◌%◌, ◌^◌, List, [], ◌∷◌, Bool, true, false, not, ◌&&◌, ◌||◌, Option, none, some, ltb,
  ◌==◌, if◌then◌else◌, ℤ, eq_ℤ,
}
use mcagit.Common.Text.{Text, text_eq}
use mcagit.Common.Dict.{Dict}

-- `float` and `double` hold the IEEE bit pattern. `Items` is the vector of a list and `Entries` the
-- IndexMap of a compound, in insertion order.
mutual
  pub data Value : Type 0 where
    byte : ℤ → Value
    short : ℤ → Value
    int : ℤ → Value
    long : ℤ → Value
    float : ℕ → Value
    double : ℕ → Value
    byte_array : List ℕ → Value
    string : Text → Value
    list : Items → Value
    compound : Entries → Value
    int_array : List ℤ → Value
    long_array : List ℤ → Value

  pub data Items : Type 0 where
    nil : Items
    cons : Value → Items → Items

  pub data Entries : Type 0 where
    end : Entries
    entry : Text → Value → Entries → Entries

unfoldable pub tag_id : Value → ℕ
tag_id (byte _) = 1
tag_id (short _) = 2
tag_id (int _) = 3
tag_id (long _) = 4
tag_id (float _) = 5
tag_id (double _) = 6
tag_id (byte_array _) = 7
tag_id (string _) = 8
tag_id (list _) = 9
tag_id (compound _) = 10
tag_id (int_array _) = 11
tag_id (long_array _) = 12

-- The vector and the map as plain lists, and back.
abbrev pub items_list : Items → List Value
items_list nil = []
items_list (cons v xs) = v ∷ items_list xs

abbrev pub items_of : List Value → Items
items_of [] = nil
items_of (v ∷ vs) = cons v (items_of vs)

abbrev pub entries_dict : Entries → Dict Value
entries_dict end = []
entries_dict (entry k v m) = (k, v) ∷ entries_dict m

abbrev pub entries_of : Dict Value → Entries
entries_of [] = end
entries_of ((k, v) ∷ m) = entry k v (entries_of m)

-- `IndexMap::get` and `IndexMap::len`.
unfoldable pub find_entry : Text → Entries → Option Value
find_entry k end = none
find_entry k (entry j v m) = let rest = find_entry k m in if text_eq j k then some v else rest

unfoldable pub count_entries : Entries → ℕ
count_entries end = 0
count_entries (entry k v m) = suc (count_entries m)

-- `==` on floats: NaN equals nothing, and the two zeros are equal.
float_eq : ℕ → ℕ → ℕ → ℕ → Bool
float_eq sign inf a b =
    not (ltb inf (a % sign))
    && (not (ltb inf (b % sign)) && (a == b || (a % sign == 0 && b % sign == 0)))

unfoldable pub f32_eq : ℕ → ℕ → Bool
unfolding float_eq
f32_eq = float_eq (2 ^ 31) 0x7f80_0000

unfoldable pub f64_eq : ℕ → ℕ → Bool
unfolding float_eq
f64_eq = float_eq (2 ^ 63) 0x7ff0_0000_0000_0000

unfoldable pub ints_eq : List ℤ → List ℤ → Bool
ints_eq [] [] = true
ints_eq (a ∷ s) (b ∷ t) = eq_ℤ a b && ints_eq s t
ints_eq _ _ = false

-- The derived `PartialEq`. An IndexMap ignores the order of its entries.
unfoldable mutual
  pub value_eq : Value → Value → Bool
  value_eq (byte a) (byte b) = eq_ℤ a b
  value_eq (short a) (short b) = eq_ℤ a b
  value_eq (int a) (int b) = eq_ℤ a b
  value_eq (long a) (long b) = eq_ℤ a b
  value_eq (float a) (float b) = f32_eq a b
  value_eq (double a) (double b) = f64_eq a b
  value_eq (byte_array a) (byte_array b) = text_eq a b
  value_eq (string a) (string b) = text_eq a b
  value_eq (list a) (list b) = items_eq a b
  value_eq (compound a) (compound b) = count_entries a == count_entries b && entries_in a b
  value_eq (int_array a) (int_array b) = ints_eq a b
  value_eq (long_array a) (long_array b) = ints_eq a b
  value_eq _ _ = false

  pub items_eq : Items → Items → Bool
  items_eq nil nil = true
  items_eq (cons v xs) (cons w ys) = value_eq v w && items_eq xs ys
  items_eq _ _ = false

  pub entries_in : Entries → Entries → Bool
  entries_in end n = true
  entries_in (entry k v m) n =
      (elim (find_entry k n) [ none ↦ false | some w ↦ value_eq v w ]) && entries_in m n
