-- ===== src/Repo/Pathspec.antt =====
-- crates/repo/src/pathspec.rs: which paths a specification selects.
pub mod Glob
pub mod Match
pub mod Found
use mcagit.Common.{
  ℕ, zero, suc, ◌+◌, List, [], ◌∷◌, Bool, true, false, ◌&&◌, ◌||◌, Option, none, some, ◌==◌,
  if◌then◌else◌, length,
}
use mcagit.Common.Text.{Text, text_eq, codes}

-- `while pi < pat.len() && pat[pi] == b'*'`, and the test after it.
unfoldable pub only_stars : Text → Bool
only_stars [] = true
only_stars (q ∷ p) = q == b'*' && only_stars p

abbrev pub tail : Text → Text
tail [] = []
tail (c ∷ s) = s

-- The loop of `seg_match`. Positions are the texts from there on: `p` and `s` from `pi` and `si`, and
-- `star` the pattern behind the last star with the text from `mark`.
unfoldable pub seg_loop : ℕ → Text → Text → Option (Text × Text) → Bool
seg_loop fuel p [] star = only_stars p
seg_loop zero p (c ∷ s) star = false
seg_loop (suc fuel) [] (c ∷ s) star = elim star [
  | none ↦ false
  | some (q, m) ↦ seg_loop fuel q (tail m) (some (q, tail m))
]
seg_loop (suc fuel) (q ∷ p) (c ∷ s) star =
    let same = seg_loop fuel p s star in
    let star_open = seg_loop fuel p (c ∷ s) (some (p, c ∷ s)) in
    let again : Bool = elim star [
      | none ↦ false
      | some (q', m) ↦ seg_loop fuel q' (tail m) (some (q', tail m))
    ] in
    if q == b'?' || q == c then same else if q == b'*' then star_open else again

-- Rounds enough: each star position is tried at most once for each position of the text.
abbrev pub rounds : ℕ → Text → ℕ
rounds each [] = 0
rounds each (c ∷ s) = each + rounds each s

abbrev pub seg_fuel : Text → Text → ℕ
seg_fuel p s = rounds (length p + length s) s + (length p + length s)

unfoldable pub seg_match : Text → Text → Bool
seg_match p s = seg_loop (seg_fuel p s) p s none

-- `split('/')`
unfoldable pub segments : Text → List Text
segments [] = [] ∷ []
segments (c ∷ s) = elim (segments s) [
  | [] ↦ [] ∷ []
  | seg ∷ segs ↦ if c == b'/' then [] ∷ seg ∷ segs else (c ∷ seg) ∷ segs
]

unfoldable pub all_match : List Text → List Text → Bool
all_match [] [] = true
all_match (p ∷ ps) (x ∷ xs) = seg_match p x && all_match ps xs
all_match _ _ = false

unfoldable pub glob_match : Text → Text → Bool
glob_match pat path = all_match (segments pat) (segments path)

-- `rel.starts_with(spec) && rel.as_bytes().get(spec.len()) == Some(&b'/')`
unfoldable pub below_dir : Text → Text → Bool
below_dir [] [] = false
below_dir [] (c ∷ s) = c == b'/'
below_dir (a ∷ spec) [] = false
below_dir (a ∷ spec) (c ∷ s) = a == c && below_dir spec s

-- `trim_end_matches('/')`
unfoldable pub trim_end : Text → Text
trim_end [] = []
trim_end (c ∷ s) = elim (trim_end s) [ [] ↦ if c == b'/' then [] else c ∷ [] | d ∷ t ↦ c ∷ d ∷ t ]

abbrev is_empty : Text → Bool
is_empty [] = true
is_empty (_ ∷ _) = false

unfoldable pub matches_trimmed : Text → Text → Bool
matches_trimmed spec rel =
    is_empty spec
    || text_eq spec (codes ".")
    || text_eq rel spec
    || below_dir spec rel
    || glob_match spec rel

unfoldable pub matches_one : Text → Text → Bool
matches_one spec rel = matches_trimmed (trim_end spec) rel

unfoldable pub matches_any : List Text → Text → Bool
matches_any [] rel = false
matches_any (spec ∷ specs) rel = matches_one spec rel || matches_any specs rel
