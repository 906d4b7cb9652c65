-- ===== src/Diff/Comparer/Same.antt =====
-- A value compared with itself gives no event.
use mcagit.Common.{
  ℕ, suc, List, [], ◌∷◌, true, false, none, some, if◌then◌else◌, ◌≡◌, inl, inr, refl, subst, arith,
  Bool-cases, Option-cases, ==_refl,
}
use mcagit.Common.Text.{Text, text_eq, text_eq_iff, text_eq_refl}
use mcagit.Common.Members.{contains}
use mcagit.Common.Dict.{Dict, lookup, insert, lookup-insert}
use mcagit.Nbt.Value.{
  Value, Items, Entries, byte, short, int, long, float, double, byte_array, string, list, compound,
  int_array, long_array, nil, cons, end, entry, items_list, tag_id,
}
use mcagit.Nbt.Value.Equality.{IsPlain, AllPlain, AllDistinct, Sub, Sub-self, value_eq_refl}
use mcagit.Nbt.Decimal.{show_nat}
use mcagit.Nbt.Identity.{identity_key}
use mcagit.Diff.Comparer.{
  Event, child_path, bracket_path, keys_loop, list_keys, added_entries, added_events, added_from,
  key_index, remove_key, remove_keys, checked, compare_same, compare_entries, compare_index,
  compare_keyed, walk,
}

pub lookup-remove_key :
    (k j : Text) (m : Dict Value)
    → lookup j (remove_key k m) ≡ (if text_eq k j then none else lookup j m)
unfolding lookup remove_key
lookup-remove_key k j [] = ground arith
lookup-remove_key k j ((i, v) ∷ m) =
    ground (arith, text_eq_iff k j, text_eq_iff i j, text_eq_iff i k, lookup-remove_key k j m)

-- A dictionary in which nothing is found is empty.
lookup-none_all : (m : Dict Value) → ((j : Text) → lookup j m ≡ none) → m ≡ []
unfolding lookup
lookup-none_all [] h = refl
lookup-none_all ((k, v) ∷ m) h = ground (arith, h k, text_eq_refl k)

lookup-remove_keys :
    (ks : List Text) (j : Text) (m : Dict Value)
    → lookup j (remove_keys ks m) ≡ (if contains ks j then none else lookup j m)
unfolding remove_keys contains
lookup-remove_keys [] j m = refl
lookup-remove_keys (k ∷ ks) j m =
    ground (arith, lookup-remove_keys ks j (remove_key k m), lookup-remove_key k j m)

lookup-key_index :
    (ks : List Text) (xs : Items) (j : Text)
    → contains ks j ≡ false
    → lookup j (key_index ks xs) ≡ none
unfolding key_index contains lookup
lookup-key_index [] xs j h = refl
lookup-key_index (k ∷ ks) nil j h = refl
lookup-key_index (k ∷ ks) (cons v xs) j h =
    ground (arith, lookup-key_index ks xs j, lookup-insert k j v (key_index ks xs))

-- No key is listed twice.
abbrev pub Distinct : List Text → Type 0
Distinct [] = Unit {0}
Distinct (k ∷ ks) = (contains ks k ≡ false) × Distinct ks

-- Each element is found in the index under its key.
abbrev pub Holds : Items → List Text → Dict Value → Type 0
Holds (cons v xs) (k ∷ ks) idx = (lookup k idx ≡ some v) × Holds xs ks idx
Holds _ _ idx = Unit {0}

abbrev Fresh : List Text → List Text → Type 0
Fresh seen ks = Distinct ks × ((j : Text) → contains seen j ≡ true → contains ks j ≡ false)

keys_loop-Fresh :
    (seen : List Text) (els : List Value) {ks : List Text}
    → keys_loop seen els ≡ some ks
    → Fresh seen ks
unfolding keys_loop contains
keys_loop-Fresh seen [] {ks} h = let q : [] ≡ ks = cc in subst (Fresh seen) q (tt, λ j m. refl)
keys_loop-Fresh seen (el ∷ els) {ks} h = elim (Option-cases (identity_key el)) [
  | inl e ↦ absurd (ground arith)
  | inr (k, e) ↦ elim (Bool-cases (contains seen k)) [
    | inl dup ↦ absurd (ground arith)
    | inr new ↦ elim (Option-cases (keys_loop (k ∷ seen) els)) [
      | inl r ↦ absurd (ground arith)
      | inr (keys, r) ↦
          let (d, fresh) = keys_loop-Fresh (k ∷ seen) els r in
          let q : k ∷ keys ≡ ks = ground arith in
          subst (Fresh seen) q (
            (fresh k (ground (arith, text_eq_refl k)), d),
            λ j m. ground (arith, fresh j, text_eq_iff k j),
          )
    ]
  ]
]

list_keys-Distinct : (xs : Items) {ks : List Text} → list_keys xs ≡ some ks → Distinct ks
unfolding list_keys
list_keys-Distinct nil h = cc
list_keys-Distinct (cons v xs) h = (keys_loop-Fresh [] (v ∷ items_list xs) h).0

Holds-insert :
    (xs : Items) (ks : List Text) (idx : Dict Value) (k : Text) (v : Value)
    → contains ks k ≡ false
    → Holds xs ks idx
    → Holds xs ks (insert k v idx)
unfolding contains
Holds-insert nil ks idx k v h s = tt
Holds-insert (cons w xs) [] idx k v h s = tt
Holds-insert (cons w xs) (j ∷ ks) idx k v h s = (
  ground (arith, lookup-insert k j v idx, text_eq_iff k j, text_eq_iff j k),
  Holds-insert xs ks idx k v (ground arith) s.1,
)

Holds-remove :
    (xs : Items) (ks : List Text) (idx : Dict Value) (k : Text)
    → contains ks k ≡ false
    → Holds xs ks idx
    → Holds xs ks (remove_key k idx)
unfolding contains
Holds-remove nil ks idx k h s = tt
Holds-remove (cons w xs) [] idx k h s = tt
Holds-remove (cons w xs) (j ∷ ks) idx k h s = (
  ground (arith, lookup-remove_key k j idx, text_eq_iff k j, text_eq_iff j k),
  Holds-remove xs ks idx k (ground arith) s.1,
)

Holds-key_index : (xs : Items) (ks : List Text) → Distinct ks → Holds xs ks (key_index ks xs)
unfolding key_index
Holds-key_index nil ks d = tt
Holds-key_index (cons v xs) [] d = tt
Holds-key_index (cons v xs) (k ∷ ks) d = (
  ground (arith, lookup-insert k k v (key_index ks xs), text_eq_refl k),
  Holds-insert xs ks (key_index ks xs) k v d.0 (Holds-key_index xs ks d.1),
)

-- Every element's key is used up, so no element is added.
remove_keys-key_index : (xs : Items) (ks : List Text) → remove_keys ks (key_index ks xs) ≡ []
remove_keys-key_index xs ks = lookup-none_all (remove_keys ks (key_index ks xs)) λ j.
    elim (Bool-cases (contains ks j)) [
      | inl m ↦ ground (arith, lookup-remove_keys ks j (key_index ks xs))
      | inr n ↦
          ground (arith, lookup-remove_keys ks j (key_index ks xs), lookup-key_index ks xs j n)
    ]

added_entries-Sub : (m n : Entries) → Sub m n → added_entries n m ≡ []
unfolding added_entries
added_entries-Sub end n s = refl
added_entries-Sub (entry k v m) n s = rw s.0 (added_entries-Sub m n s.1)

no_added : (label : Text → Text) → added_events label [] ≡ []
unfolding added_events
no_added label = refl

checked_self :
    (path : Text) (v : Value) (same : List Event) → same ≡ [] → checked path v v same ≡ []
unfolding checked
checked_self path v same h = ground (arith, ==_refl (tag_id v))

mutual
  unfolding compare_same IsPlain added_from

  compare_same_self : (v : Value) (path : Text) → IsPlain v → compare_same v path v ≡ []
  compare_same_self (compound m) path h =
      rw (compare_entries-Sub m path m (Sub-self m h) h, added_entries-Sub m m (Sub-self m h))
        (no_added (child_path path))
  compare_same_self (list xs) path h = elim (Option-cases (list_keys xs)) [
    | inl e ↦ ground (arith, compare_index_self xs path 0 h)
    | inr (ks, e) ↦ ground (
      arith,
      compare_keyed_self xs ks path (key_index ks xs)
          (Holds-key_index xs ks (list_keys-Distinct xs e)) (list_keys-Distinct xs e) h,
      remove_keys-key_index xs ks,
      no_added (bracket_path path),
    )
  ]
  compare_same_self (byte a) path h = ground (arith, value_eq_refl (byte a) h)
  compare_same_self (short a) path h = ground (arith, value_eq_refl (short a) h)
  compare_same_self (int a) path h = ground (arith, value_eq_refl (int a) h)
  compare_same_self (long a) path h = ground (arith, value_eq_refl (long a) h)
  compare_same_self (float a) path h = ground (arith, value_eq_refl (float a) h)
  compare_same_self (double a) path h = ground (arith, value_eq_refl (double a) h)
  compare_same_self (byte_array a) path h = ground (arith, value_eq_refl (byte_array a) h)
  compare_same_self (string a) path h = ground (arith, value_eq_refl (string a) h)
  compare_same_self (int_array a) path h = ground (arith, value_eq_refl (int_array a) h)
  compare_same_self (long_array a) path h = ground (arith, value_eq_refl (long_array a) h)

  compare_entries-Sub :
      (m : Entries) (path : Text) (n : Entries)
      → Sub m n
      → AllDistinct m
      → compare_entries m path n ≡ []
  compare_entries-Sub end path n s h = refl
  compare_entries-Sub (entry k v m) path n s h = ground (
    arith,
    checked_self (child_path path k) v (compare_same v (child_path path k) v)
        (compare_same_self v (child_path path k) h.1),
    compare_entries-Sub m path n s.1 h.2,
  )

  compare_index_self :
      (xs : Items) (path : Text) (i : ℕ) → AllPlain xs → compare_index xs path i xs ≡ []
  compare_index_self nil path i h = refl
  compare_index_self (cons v xs) path i h =
      let label = bracket_path path (show_nat i) in
      ground (
        arith,
        checked_self label v (compare_same v label v) (compare_same_self v label h.0),
        compare_index_self xs path (suc i) h.1,
      )

  compare_keyed_self :
      (xs : Items) (ks : List Text) (path : Text) (idx : Dict Value)
      → Holds xs ks idx
      → Distinct ks
      → AllPlain xs
      → compare_keyed xs ks path idx ≡ []
  compare_keyed_self nil ks path idx s d h = refl
  compare_keyed_self (cons v xs) [] path idx s d h = refl
  compare_keyed_self (cons v xs) (k ∷ ks) path idx s d h =
      let label = bracket_path path k in
      ground (
        arith,
        checked_self label v (compare_same v label v) (compare_same_self v label h.0),
        compare_keyed_self xs ks path (remove_key k idx) (Holds-remove xs ks idx k d.0 s.1) d.1 h.1,
      )

-- Comparing a value with itself reports no event, if no float in it is NaN and no compound in it
-- has a key twice.
pub walk_self : (v : Value) → IsPlain v → walk v v ≡ []
unfolding walk
walk_self v h = checked_self [] v (compare_same v [] v) (compare_same_self v [] h)
