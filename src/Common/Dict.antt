-- ===== src/Common/Dict.antt =====
-- `BTreeMap<String, V>` and `BTreeSet<String>`: lists kept in the order of their keys, searched from
-- the front. The laws of lookup hold on every list; the order is what iteration sees.
use Prim.Native.Nat.{Ordering}
use mathlib.Core.Path.{◌≡◌, refl}
use mathlib.Core.Bool.{Bool, true, false, ◌||◌}
use mathlib.Core.Option.{Option, none, some}
use mathlib.Core.List.{List, [], ◌∷◌, ◌++◌, foldr}
use native.Mathlib.Omega.{arith}
use mcagit.Common.Tests.{if◌then◌else◌}
use mcagit.Common.Text.{Text, text_eq, text_eq_iff, compare_text, compare_text-eq_iff}
use mcagit.Common.Members.{contains}

abbrev pub is_some {ℓ} : {A : Type ℓ} → Option A → Bool
is_some none = false
is_some (some a) = true

abbrev pub Dict {ℓ} : Type ℓ → Type ℓ
Dict V = List (Text × V)

module _ {ℓ} {V : Type ℓ} where
  unfoldable pub lookup : Text → Dict V → Option V
  lookup k [] = none
  lookup k ((j, v) ∷ m) = if text_eq j k then some v else lookup k m

  unfoldable pub insert : Text → V → Dict V → Dict V
  insert k v [] = (k, v) ∷ []
  insert k v ((j, w) ∷ m) =
      let rest = insert k v m in
      elim (compare_text k j) [
        | Ordering.lt ↦ (k, v) ∷ (j, w) ∷ m
        | Ordering.eq ↦ (k, v) ∷ m
        | Ordering.gt ↦ (j, w) ∷ rest
      ]

  unfoldable pub keys : Dict V → List Text
  keys [] = []
  keys ((k, v) ∷ m) = k ∷ keys m

  pub lookup-insert :
      (k j : Text) (v : V) (m : Dict V)
      → lookup j (insert k v m) ≡ (if text_eq k j then some v else lookup j m)
  unfolding lookup insert
  lookup-insert k j v [] = refl
  lookup-insert k j v ((i, w) ∷ m) =
      ground
        (arith, text_eq_iff k j, text_eq_iff i j, compare_text-eq_iff k i, lookup-insert k j v m)

  pub contains-keys : (k : Text) (m : Dict V) → contains (keys m) k ≡ is_some (lookup k m)
  unfolding lookup keys contains
  contains-keys k [] = refl
  contains-keys k ((j, v) ∷ m) = ground (arith, contains-keys k m)

-- `BTreeSet`'s insert.
unfoldable pub set_insert : Text → List Text → List Text
set_insert k [] = k ∷ []
set_insert k (j ∷ js) =
    let rest = set_insert k js in
    elim (compare_text k j) [
      | Ordering.lt ↦ k ∷ j ∷ js
      | Ordering.eq ↦ j ∷ js
      | Ordering.gt ↦ j ∷ rest
    ]

-- `collect` into a `BTreeSet`.
unfoldable pub collect : List Text → List Text
collect = foldr set_insert []

pub contains-set_insert :
    (k j : Text) (s : List Text) → contains (set_insert k s) j ≡ (text_eq k j || contains s j)
unfolding set_insert contains
contains-set_insert k j [] = refl
contains-set_insert k j (i ∷ s) =
    ground
      (arith, text_eq_iff k j, text_eq_iff i j, compare_text-eq_iff k i, contains-set_insert k j s)

pub contains-collect : (j : Text) (s : List Text) → contains (collect s) j ≡ contains s j
unfolding collect contains
contains-collect j [] = refl
contains-collect j (k ∷ s) =
    ground (arith, contains-set_insert k j (collect s), contains-collect j s)

pub contains-append :
    (s t : List Text) (j : Text) → contains (s ++ t) j ≡ (contains s j || contains t j)
unfolding contains
contains-append [] t j = refl
contains-append (k ∷ s) t j = ground (arith, contains-append s t j)
