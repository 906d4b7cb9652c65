-- ===== src/Common/Sorted.antt =====
-- Maps in the strict order of their keys, which `insert` keeps: each key stands once.
use Prim.Native.Nat.{Ordering}
use mathlib.Core.Path.{◌≡◌, refl, sym, subst}
use mathlib.Core.Option.{none}
use mathlib.Core.List.{[], ◌∷◌}
use native.Mathlib.Omega.{arith}
use mcagit.Common.Text.{Text, compare_text, compare_text-eq_iff, text_eq_iff}
use mcagit.Common.Dict.{Dict, lookup, insert}

pub compare_text_trans :
    (a b c : Text)
    → compare_text a b ≡ Ordering.lt
    → compare_text b c ≡ Ordering.lt
    → compare_text a c ≡ Ordering.lt
unfolding compare_text
compare_text_trans [] [] c h k = ground arith
compare_text_trans [] (y ∷ b) [] h k = ground arith
compare_text_trans [] (y ∷ b) (z ∷ c) h k = refl
compare_text_trans (x ∷ a) [] c h k = ground arith
compare_text_trans (x ∷ a) (y ∷ b) [] h k = ground arith
compare_text_trans (x ∷ a) (y ∷ b) (z ∷ c) h k = ground (arith, compare_text_trans a b c)

pub compare_text_flip :
    (a b : Text) → compare_text a b ≡ Ordering.gt → compare_text b a ≡ Ordering.lt
unfolding compare_text
compare_text_flip [] [] h = ground arith
compare_text_flip [] (y ∷ b) h = ground arith
compare_text_flip (x ∷ a) [] h = refl
compare_text_flip (x ∷ a) (y ∷ b) h = ground (arith, compare_text_flip a b)

module _ {ℓ} {V : Type ℓ} where
  -- Every key of the map is above this one.
  abbrev pub Above : Text → Dict V → Type 0
  Above k [] = Unit {0}
  Above k ((j, v) ∷ m) = (compare_text k j ≡ Ordering.lt) × Above k m

  abbrev pub IsSorted : Dict V → Type 0
  IsSorted [] = Unit {0}
  IsSorted ((k, v) ∷ m) = Above k m × IsSorted m

  pub Above-trans :
      (k j : Text) (m : Dict V) → compare_text k j ≡ Ordering.lt → Above j m → Above k m
  Above-trans k j [] h a = tt
  Above-trans k j ((i, v) ∷ m) h a = (compare_text_trans k j i h a.0, Above-trans k j m h a.1)

  Above-insert :
      (i k : Text) (v : V) (m : Dict V)
      → compare_text i k ≡ Ordering.lt
      → Above i m
      → Above i (insert k v m)
  unfolding insert
  Above-insert i k v [] h a = (h, tt)
  Above-insert i k v ((j, w) ∷ m) h a =
      elim (compare_text k j)
        as (λ o. Above i (elim o [
          | Ordering.lt ↦ (k, v) ∷ (j, w) ∷ m
          | Ordering.eq ↦ (k, v) ∷ m
          | Ordering.gt ↦ (j, w) ∷ insert k v m
        ])) [
          | Ordering.lt ↦ (h, (a.0, a.1))
          | Ordering.eq ↦ (h, a.1)
          | Ordering.gt ↦ (a.0, Above-insert i k v m h a.1)
        ]

  insert_step :
      (k j : Text) (v w : V) (m : Dict V) (o : Ordering)
      → compare_text k j ≡ o
      → Above j m
      → IsSorted m
      → IsSorted (insert k v m)
      → IsSorted (elim o [
        | Ordering.lt ↦ (k, v) ∷ (j, w) ∷ m
        | Ordering.eq ↦ (k, v) ∷ m
        | Ordering.gt ↦ (j, w) ∷ insert k v m
      ])
  insert_step k j v w m Ordering.lt e a s ih = ((e, Above-trans k j m e a), (a, s))
  insert_step k j v w m Ordering.eq e a s ih =
      (subst (λ (t : Text). Above t m) (sym ((compare_text-eq_iff k j).0 e)) a, s)
  insert_step k j v w m Ordering.gt e a s ih =
      (Above-insert j k v m (compare_text_flip k j e) a, ih)

  pub insert-IsSorted : (k : Text) (v : V) (m : Dict V) → IsSorted m → IsSorted (insert k v m)
  unfolding insert
  insert-IsSorted k v [] s = (tt, tt)
  insert-IsSorted k v ((j, w) ∷ m) s =
      insert_step k j v w m (compare_text k j) refl s.0 s.1 (insert-IsSorted k v m s.1)

  pub lookup-Above : (k : Text) (m : Dict V) → Above k m → lookup k m ≡ none
  unfolding lookup
  lookup-Above k [] a = refl
  lookup-Above k ((j, v) ∷ m) a =
      ground (arith, a.0, text_eq_iff j k, compare_text-eq_iff k j, lookup-Above k m a.1)
