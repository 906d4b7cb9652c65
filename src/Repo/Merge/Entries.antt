-- ===== src/Repo/Merge/Entries.antt =====
-- The loops over the keys of three maps: what lands in the output, and what in the conflicts.
use mcagit.Common.{
  List, [], ◌∷◌, ◌++◌, true, false, Option, none, some, ◌≡◌, refl, sym, append_assoc, append-nil,
  arith, if◌then◌else◌,
}
use mcagit.Common.Text.{Text, text_eq, text_eq_iff, text_eq_refl}
use mcagit.Common.Members.{contains}
use mcagit.Common.Dict.{
  Dict, lookup, keys, lookup-insert, contains-keys, contains-collect, contains-append,
}
use mcagit.Repo.Merge.{Outcome, ok, three_way, merge_key, merge_keys, union_keys, id_eq}
use mcagit.Repo.Merge.ThreeWay.{kept, is_conflict, three_way-none}

abbrev or_else {ℓ} : {A : Type ℓ} → Option A → Option A → Option A
or_else (some a) d = some a
or_else none d = d

-- What the three maps decide for one key.
abbrev pub decision : Dict Text → Dict Text → Dict Text → Text → Outcome
decision b o t k = three_way (lookup k b) (lookup k o) (lookup k t)

module _ (label : Text → Text) (b o t : Dict Text) where
  lookup-merge_key :
      (acc : Dict Text × List Text) (k j : Text)
      → lookup j (merge_key label b o t acc k).0 ≡ (
          if text_eq k j
          then or_else (kept (decision b o t j)) (lookup j acc.0)
          else lookup j acc.0)
  unfolding merge_key
  lookup-merge_key acc k j = grind (arith, text_eq_iff k j, lookup-insert)

  lookup-merge_keys :
      (acc : Dict Text × List Text) (ks : List Text) (j : Text)
      → lookup j (merge_keys label b o t acc ks).0 ≡ (
          if contains ks j
          then or_else (kept (decision b o t j)) (lookup j acc.0)
          else lookup j acc.0)
  unfolding merge_keys contains
  lookup-merge_keys acc [] j = refl
  lookup-merge_keys acc (k ∷ ks) j =
      ground (arith, lookup-merge_key acc k j, lookup-merge_keys (merge_key label b o t acc k) ks j)

  -- The labels of the keys in conflict, in the order of the keys.
  pub conflicts_of : List Text → List Text
  conflicts_of [] = []
  conflicts_of (k ∷ ks) =
      let rest = conflicts_of ks in if is_conflict (decision b o t k) then label k ∷ rest else rest

  pub merge_keys-conflicts :
      (acc : Dict Text × List Text) (ks : List Text)
      → (merge_keys label b o t acc ks).1 ≡ acc.1 ++ conflicts_of ks
  unfolding merge_keys merge_key conflicts_of
  merge_keys-conflicts acc [] = sym (append-nil acc.1)
  merge_keys-conflicts acc (k ∷ ks) = ground (
    arith,
    merge_keys-conflicts (merge_key label b o t acc k) ks,
    append_assoc acc.1 (label k ∷ []) (conflicts_of ks),
  )

  conflicts_of-contains :
      (ks : List Text) (k : Text)
      → contains ks k ≡ true
      → is_conflict (decision b o t k) ≡ true
      → contains (conflicts_of ks) (label k) ≡ true
  unfolding conflicts_of contains
  conflicts_of-contains [] k h e = cc
  conflicts_of-contains (j ∷ ks) k h e =
      ground (arith, text_eq_iff j k, text_eq_refl (label k), conflicts_of-contains ks k)

  pub conflicts_of-nil :
      (ks : List Text)
      → ((k : Text) → is_conflict (decision b o t k) ≡ false)
      → conflicts_of ks ≡ []
  unfolding conflicts_of
  conflicts_of-nil [] h = refl
  conflicts_of-nil (k ∷ ks) h = rw (h k) (conflicts_of-nil ks h)

-- A key of none of the three maps is left out of everything.
decision-absent :
    (b o t : Dict Text) (k : Text)
    → contains (union_keys b o t) k ≡ false
    → decision b o t k ≡ ok none
unfolding union_keys id_eq
decision-absent b o t k h = ground (
  arith,
  three_way-none,
  contains-collect k (keys b ++ (keys o ++ keys t)),
  contains-append (keys b) (keys o ++ keys t) k,
  contains-append (keys o) (keys t) k,
  contains-keys k b,
  contains-keys k o,
  contains-keys k t,
)

-- In `merge_map`, and in the loop over positions: into an empty output every key gets its decision.
pub lookup-merge_union :
    (label : Text → Text) (b o t : Dict Text) (cs : List Text) (k : Text)
    → lookup k (merge_keys label b o t ([], cs) (union_keys b o t)).0 ≡ kept (decision b o t k)
unfolding lookup
lookup-merge_union label b o t cs k =
    ground
      (arith, decision-absent b o t k, lookup-merge_keys label b o t ([], cs) (union_keys b o t) k)

-- A conflict is listed under its label.
pub conflict_listed :
    (label : Text → Text) (b o t : Dict Text) (k : Text)
    → is_conflict (decision b o t k) ≡ true
    → contains (conflicts_of label b o t (union_keys b o t)) (label k) ≡ true
conflict_listed label b o t k e =
    ground (arith, decision-absent b o t k, conflicts_of-contains label b o t (union_keys b o t) k)
