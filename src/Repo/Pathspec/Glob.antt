-- ===== src/Repo/Pathspec/Glob.antt =====
-- `seg_match` of crates/repo/src/pathspec.rs against a direct reading of patterns.
use mcagit.Common.{
  ℕ, [], ◌∷◌, ◌++◌, Bool, true, false, not, ◌&&◌, ◌||◌, ◌==◌, ◌≡◌, inl, inr, refl, sym, ap, ◌∙◌,
  arith, if◌then◌else◌, Bool-cases, length,
}
use mcagit.Common.Text.{Text, Every}
use mcagit.Repo.Pathspec.{only_stars, tail}

-- A test on some end of the text.
unfoldable pub anywhere : (Text → Bool) → Text → Bool
anywhere f [] = f []
anywhere f (c ∷ s) = f (c ∷ s) || anywhere f s

unfoldable pub one : ℕ → (Text → Bool) → Text → Bool
one q f [] = false
one q f (c ∷ s) = (q == b'?' || q == c) && f s

abbrev pub is_nil : Text → Bool
is_nil [] = true
is_nil (_ ∷ _) = false

-- A star stands for any run of bytes and a question mark for any one byte.
unfoldable pub glob : Text → Text → Bool
glob [] s = is_nil s
glob (q ∷ p) s =
    let rest = glob p in
    let star = anywhere rest s in let byte = one q rest s in if q == b'*' then star else byte

abbrev pub NoStar : Text → Type 0
NoStar s = Every (λ c. not (c == b'*')) s

drop_by : Text → Text → Text
drop_by [] t = t
drop_by (a ∷ u) t = drop_by u (tail t)

drop_by-tail : (u t : Text) → drop_by u (tail t) ≡ tail (drop_by u t)
unfolding drop_by
drop_by-tail [] t = refl
drop_by-tail (a ∷ u) t = drop_by-tail u (tail t)

drop_by-append : (u v s : Text) → length u ≡ length v → drop_by u (v ++ s) ≡ s
unfolding drop_by
drop_by-append [] [] s h = refl
drop_by-append [] (b ∷ v) s h = cc
drop_by-append (a ∷ u) [] s h = cc
drop_by-append (a ∷ u) (b ∷ v) s h = drop_by-append u v s (omega arith)

anywhere-here : (f : Text → Bool) (t : Text) → f t ≡ true → anywhere f t ≡ true
unfolding anywhere
anywhere-here f [] h = h
anywhere-here f (c ∷ t) h = ground (arith, h)

anywhere-tail : (f : Text → Bool) (t : Text) → anywhere f (tail t) ≡ true → anywhere f t ≡ true
unfolding anywhere
anywhere-tail f [] h = h
anywhere-tail f (c ∷ t) h = ground (arith, h)

pub anywhere-anywhere :
    (f : Text → Bool) (t : Text) → anywhere (anywhere f) t ≡ true → anywhere f t ≡ true
unfolding anywhere
anywhere-anywhere f [] h = h
anywhere-anywhere f (c ∷ t) h = elim (Bool-cases (f (c ∷ t) || anywhere f t)) [
  | inl now ↦ now
  | inr later ↦ ground (arith, anywhere-anywhere f t)
]

-- A pattern without stars in front takes a byte for each of them.
glob-append : (u p t : Text) → NoStar u → glob (u ++ p) t ≡ true → glob p (drop_by u t) ≡ true
unfolding glob one drop_by
glob-append [] p t n h = h
glob-append (a ∷ u) p [] n h = ground arith
glob-append (a ∷ u) p (c ∷ t) n h = glob-append u p t n.1 (ground (arith, n.0))

anywhere-append :
    (u p t : Text)
    → NoStar u
    → anywhere (glob (u ++ p)) t ≡ true
    → anywhere (glob p) (drop_by u t) ≡ true
unfolding anywhere
anywhere-append u p [] n h = anywhere-here (glob p) (drop_by u []) (glob-append u p [] n h)
anywhere-append u p (c ∷ t) n h = elim (Bool-cases (glob (u ++ p) (c ∷ t))) [
  | inl now ↦ anywhere-here (glob p) (drop_by u (c ∷ t)) (glob-append u p (c ∷ t) n now)
  | inr later ↦ anywhere-tail (glob p) (drop_by u (c ∷ t)) (
      ap (anywhere (glob p)) (sym (drop_by-tail u (c ∷ t)))
      ∙ anywhere-append u p t n (ground (arith, later)))
]

-- What the last star can still reach, the rest of the pattern reaches from here on.
pub reach_here :
    (u p v s : Text)
    → NoStar u
    → length u ≡ length v
    → anywhere (glob (u ++ p)) (tail (v ++ s)) ≡ true
    → anywhere (glob p) s ≡ true
reach_here u p v s n e h = anywhere-tail (glob p) s (
    ap (anywhere (glob p)) (sym (drop_by-tail u (v ++ s) ∙ ap tail (drop_by-append u v s e)))
    ∙ anywhere-append u p (tail (v ++ s)) n h)

pub only_stars-glob : (p : Text) → only_stars p ≡ glob p []
unfolding only_stars glob anywhere one
only_stars-glob [] = refl
only_stars-glob (q ∷ p) = ground (arith, only_stars-glob p)
