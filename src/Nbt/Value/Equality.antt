-- ===== src/Nbt/Value/Equality.antt =====
-- When the derived equality is reflexive: values without NaN whose compounds repeat no key.
use mcagit.Common.{List, [], ◌∷◌, true, none, some, ℤ, eq_ℤ_iff, ◌≡◌, refl, arith, ==_refl}
use mcagit.Common.Text.{Text, text_eq_iff, text_eq_refl}
use mcagit.Nbt.Value.{
  Value, Items, Entries, byte, short, int, long, float, double, byte_array, string, list, compound,
  int_array, long_array, nil, cons, end, entry, value_eq, items_eq, entries_in, find_entry,
  count_entries, f32_eq, f64_eq, ints_eq,
}

-- Every float equals itself, and no key is used twice in one compound.
unfoldable mutual
  pub IsPlain : Value → Type 0
  IsPlain (float b) = f32_eq b b ≡ true
  IsPlain (double b) = f64_eq b b ≡ true
  IsPlain (list xs) = AllPlain xs
  IsPlain (compound m) = AllDistinct m
  IsPlain _ = Unit

  pub AllPlain : Items → Type 0
  AllPlain nil = Unit
  AllPlain (cons v xs) = IsPlain v × AllPlain xs

  pub AllDistinct : Entries → Type 0
  AllDistinct end = Unit
  AllDistinct (entry k v m) = (find_entry k m ≡ none) × IsPlain v × AllDistinct m

ints_eq_refl : (a : List ℤ) → ints_eq a a ≡ true
unfolding ints_eq
ints_eq_refl [] = refl
ints_eq_refl (x ∷ a) = ground (arith, ints_eq_refl a, eq_ℤ_iff x x)

-- Every entry of `m` is what `n` holds for its key.
abbrev pub Sub : Entries → Entries → Type 0
Sub end n = Unit
Sub (entry k v m) n = (find_entry k n ≡ some v) × Sub m n

Sub-entry :
    (j : Text) (w : Value) (m n : Entries) → find_entry j m ≡ none → Sub m n → Sub m (entry j w n)
unfolding find_entry
Sub-entry j w end n h s = tt
Sub-entry j w (entry k v m) n h s =
    (ground (arith, text_eq_iff j k, text_eq_refl k), Sub-entry j w m n (ground arith) s.1)

pub Sub-self : (m : Entries) → AllDistinct m → Sub m m
unfolding find_entry IsPlain
Sub-self end h = tt
Sub-self (entry k v m) (fresh, p, h) =
    (ground (arith, text_eq_refl k), Sub-entry k v m m fresh (Sub-self m h))

mutual
  unfolding value_eq IsPlain

  value_eq_self : (v : Value) → IsPlain v → value_eq v v ≡ true
  value_eq_self (byte a) h = ground (arith, eq_ℤ_iff a a)
  value_eq_self (short a) h = ground (arith, eq_ℤ_iff a a)
  value_eq_self (int a) h = ground (arith, eq_ℤ_iff a a)
  value_eq_self (long a) h = ground (arith, eq_ℤ_iff a a)
  value_eq_self (float a) h = h
  value_eq_self (double a) h = h
  value_eq_self (byte_array a) h = text_eq_refl a
  value_eq_self (string a) h = text_eq_refl a
  value_eq_self (list xs) h = items_eq_self xs h
  value_eq_self (compound m) h =
      ground (arith, ==_refl (count_entries m), entries_in-Sub m m (Sub-self m h) h)
  value_eq_self (int_array a) h = ints_eq_refl a
  value_eq_self (long_array a) h = ints_eq_refl a

  items_eq_self : (xs : Items) → AllPlain xs → items_eq xs xs ≡ true
  items_eq_self nil h = refl
  items_eq_self (cons v xs) h = ground (arith, value_eq_self v h.0, items_eq_self xs h.1)

  entries_in-Sub : (m n : Entries) → Sub m n → AllDistinct m → entries_in m n ≡ true
  entries_in-Sub end n s h = refl
  entries_in-Sub (entry k v m) n s h =
      rw (s.0, entries_in) (ground (arith, value_eq_self v h.1, entries_in-Sub m n s.1 h.2))

-- A value equals itself in the derived equality, if no float in it is NaN and no compound in it has
-- a key twice.
pub value_eq_refl : (v : Value) → IsPlain v → value_eq v v ≡ true
value_eq_refl v h = value_eq_self v h
