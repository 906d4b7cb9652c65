-- ===== src/Common/Text.antt =====
-- Rust's `String` and `&str` as the list of their UTF-8 bytes, with the byte-wise equality and order
-- that `String`'s `PartialEq` and `Ord` use.
use Prim.Native.Nat.{ℕ, compare, Ordering}
use Prim.Native.Char.{code}
use Prim.Native.String.{String}
use mathlib.Core.Path.{◌≡◌, refl}
use mathlib.Core.Logic.{◌↔◌}
use mathlib.Core.Bool.{Bool, true, false, ◌&&◌}
use mathlib.Core.List.{List, [], ◌∷◌, ◌++◌}
use native.Mathlib.Omega.{arith}
use mcagit.Common.Tests.{◌==◌}

abbrev pub Text : Type 0
Text = List ℕ

-- The bytes of an ASCII literal.
abbrev pub codes : String → Text
codes String.[] = []
codes (String.◌∷◌ c s) = code c ∷ codes s

unfoldable pub text_eq : Text → Text → Bool
text_eq [] [] = true
text_eq (a ∷ s) (b ∷ t) = a == b && text_eq s t
text_eq _ _ = false

-- Lexicographic, as `Ord` for `str`.
unfoldable pub compare_text : Text → Text → Ordering
compare_text [] [] = Ordering.eq
compare_text [] (b ∷ t) = Ordering.lt
compare_text (a ∷ s) [] = Ordering.gt
compare_text (a ∷ s) (b ∷ t) =
    let rest = compare_text s t in
    elim (compare a b) [
      | Ordering.lt ↦ Ordering.lt
      | Ordering.gt ↦ Ordering.gt
      | Ordering.eq ↦ rest
    ]

pub text_eq_iff : (s t : Text) → (text_eq s t ≡ true) ↔ (s ≡ t)
unfolding text_eq
text_eq_iff [] t = ground arith
text_eq_iff (a ∷ s) [] = ground arith
text_eq_iff (a ∷ s) (b ∷ t) = ground (arith, text_eq_iff s t)

pub text_eq_refl : (s : Text) → text_eq s s ≡ true
text_eq_refl s = (text_eq_iff s s).1 refl

pub compare_text-eq_iff : (s t : Text) → (compare_text s t ≡ Ordering.eq) ↔ (s ≡ t)
unfolding compare_text
compare_text-eq_iff [] t = ground arith
compare_text-eq_iff (a ∷ s) [] = ground arith
compare_text-eq_iff (a ∷ s) (b ∷ t) = ground (arith, compare_text-eq_iff s t)

-- Every byte of the text satisfies the test.
abbrev pub Every : (ℕ → Bool) → Text → Type 0
Every p [] = Unit {0}
Every p (c ∷ s) = (p c ≡ true) × Every p s

pub Every-append : (p : ℕ → Bool) (s t : Text) → Every p s → Every p t → Every p (s ++ t)
Every-append p [] t hs ht = ht
Every-append p (c ∷ s) t hs ht = (hs.0, Every-append p s t hs.1 ht)

pub Every-weaken :
    (p q : ℕ → Bool) → ((c : ℕ) → p c ≡ true → q c ≡ true) → (s : Text) → Every p s → Every q s
Every-weaken p q h [] e = tt
Every-weaken p q h (c ∷ s) e = (h c e.0, Every-weaken p q h s e.1)
