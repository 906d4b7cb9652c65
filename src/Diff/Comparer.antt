-- ===== src/Diff/Comparer.antt =====
-- crates/diff/src/comparer.rs: the tree walk. The calls on the `DiffSink` are the list of events, in
-- the order of the calls.
pub mod Same
use mcagit.Common.{
  ℕ, suc, List, [], ◌∷◌, ◌++◌, Bool, true, false, not, Option, none, some, ◌==◌, if◌then◌else◌,
}
use mcagit.Common.Text.{Text, text_eq}
use mcagit.Common.Members.{contains}
use mcagit.Common.Dict.{Dict, lookup, insert, is_some}
use mcagit.Nbt.Decimal.{show_nat}
use mcagit.Nbt.Value.{
  Value, Items, Entries, byte_array, list, compound, int_array, long_array, nil, cons, end, entry,
  items_list, tag_id, find_entry, value_eq,
}
use mcagit.Nbt.Identity.{identity_key}

pub data Event : Type 0 where
  added removed : Text → Value → Event
  modified type_changed array_changed : Text → Value → Value → Event

unfoldable pub child_path : Text → Text → Text
child_path [] name = name
child_path (c ∷ path) name = (c ∷ path) ++ (b'.' ∷ name)

-- `format!("{path}[{k}]")`
unfoldable pub bracket_path : Text → Text → Text
bracket_path path label = path ++ (b'[' ∷ (label ++ (b']' ∷ [])))

-- The loop of `list_keys`, with the keys that were seen.
unfoldable pub keys_loop : List Text → List Value → Option (List Text)
keys_loop seen [] = some []
keys_loop seen (el ∷ els) = elim (identity_key el) [
  | none ↦ none
  | some k ↦
      let rest = keys_loop (k ∷ seen) els in
      if contains seen k then none else elim rest [ none ↦ none | some keys ↦ some (k ∷ keys) ]
]

unfoldable pub list_keys : Items → Option (List Text)
unfolding keys_loop
list_keys nil = none
list_keys (cons v xs) = keys_loop [] (v ∷ items_list xs)

-- The entries of `m` whose key `ma` lacks, in sorted order.
unfoldable pub added_entries : Entries → Entries → Dict Value
added_entries ma end = []
added_entries ma (entry k v m) =
    let rest = added_entries ma m in if is_some (find_entry k ma) then rest else insert k v rest

unfoldable pub added_events : (Text → Text) → Dict Value → List Event
added_events label [] = []
added_events label ((k, v) ∷ m) = added (label k) v ∷ added_events label m

-- The tails of two lists that are longer than the other.
unfoldable pub removed_from : Text → ℕ → Items → List Event
removed_from path i nil = []
removed_from path i (cons v xs) =
    removed (bracket_path path (show_nat i)) v ∷ removed_from path (suc i) xs

unfoldable pub added_from : Text → ℕ → Items → List Event
added_from path i nil = []
added_from path i (cons v xs) =
    added (bracket_path path (show_nat i)) v ∷ added_from path (suc i) xs

-- `b_index`: the elements of the new list by their keys.
unfoldable pub key_index : List Text → Items → Dict Value
key_index (k ∷ ks) (cons v xs) = insert k v (key_index ks xs)
key_index _ _ = []

unfoldable pub remove_key : Text → Dict Value → Dict Value
remove_key k [] = []
remove_key k ((j, v) ∷ m) = let rest = remove_key k m in if text_eq j k then rest else (j, v) ∷ rest

unfoldable pub remove_keys : List Text → Dict Value → Dict Value
remove_keys [] m = m
remove_keys (k ∷ ks) m = remove_keys ks (remove_key k m)

abbrev unless : Bool → Event → List Event
unless true e = []
unless false e = e ∷ []

-- `compare_list` matches by key only if both lists have keys.
abbrev both : Option (List Text) → Option (List Text) → Option (List Text × List Text)
both (some ka) (some kb) = some (ka, kb)
both _ _ = none

-- `compare` first tests the tags; `same` is what it does for two values of one kind.
unfoldable pub checked : Text → Value → Value → List Event → List Event
checked path a b same = if tag_id a == tag_id b then same else type_changed path a b ∷ []

unfoldable mutual
  pub compare_same : Value → Text → Value → List Event
  compare_same (compound ma) path (compound mb) =
      compare_entries ma path mb ++ added_events (child_path path) (added_entries ma mb)
  compare_same (list xs) path (list ys) = elim (both (list_keys xs) (list_keys ys)) [
    | none ↦ compare_index xs path 0 ys
    | some (ka, kb) ↦
        compare_keyed xs ka path (key_index kb ys)
        ++ added_events (bracket_path path) (remove_keys ka (key_index kb ys))
  ]
  compare_same (byte_array a) path b =
      unless (value_eq (byte_array a) b) (array_changed path (byte_array a) b)
  compare_same (int_array a) path b =
      unless (value_eq (int_array a) b) (array_changed path (int_array a) b)
  compare_same (long_array a) path b =
      unless (value_eq (long_array a) b) (array_changed path (long_array a) b)
  compare_same a path b = unless (value_eq a b) (modified path a b)

  -- The first loop of `compare_compound`.
  pub compare_entries : Entries → Text → Entries → List Event
  compare_entries end path mb = []
  compare_entries (entry k va ma) path mb =
      (elim (find_entry k mb) [
        | none ↦ removed (child_path path k) va ∷ []
        | some vb ↦ checked (child_path path k) va vb (compare_same va (child_path path k) vb)
      ])
      ++ compare_entries ma path mb

  -- The alignment by index, from the index `i` on.
  pub compare_index : Items → Text → ℕ → Items → List Event
  compare_index nil path i ys = added_from path i ys
  compare_index (cons v xs) path i nil = removed_from path i (cons v xs)
  compare_index (cons v xs) path i (cons w ys) =
      let label = bracket_path path (show_nat i) in
      checked label v w (compare_same v label w) ++ compare_index xs path (suc i) ys

  -- The first loop of `compare_keyed`.
  pub compare_keyed : Items → List Text → Text → Dict Value → List Event
  compare_keyed (cons v xs) (k ∷ ks) path idx =
      (elim (lookup k idx) [
        | none ↦ removed (bracket_path path k) v ∷ []
        | some w ↦ checked (bracket_path path k) v w (compare_same v (bracket_path path k) w)
      ])
      ++ compare_keyed xs ks path (remove_key k idx)
  compare_keyed _ _ path idx = []

unfoldable pub compare : Value → Text → Value → List Event
compare a path b = checked path a b (compare_same a path b)

unfoldable pub walk : Value → Value → List Event
unfolding compare
walk a b = compare a [] b
