-- ===== src/Repo/Bisect.antt =====
-- crates/repo/src/bisect.rs: the marks of a session and the next commit to test.
pub mod Suspects
pub mod State
pub mod Count
pub mod Answer
use mcagit.Common.{
  ℕ, ◌-◌, List, [], ◌∷◌, ◌++◌, Bool, true, false, not, ◌&&◌, Option, none, some, if◌then◌else◌, ltb,
  length,
}
use mcagit.Common.Text.{Text, text_eq}
use mcagit.Common.Members.{contains}
use mcagit.Common.Dict.{is_some}
use mcagit.Repo.Result.{Result, ok, err, ◌>>=◌}
use mcagit.Repo.Store.{Format, Repository, parents_of}
use mcagit.Repo.History.{walk, walk_fuel, sort, intersection}

-- The files of a session by their lines; a value is one line. `original` is BISECT_START.
pub record Session : Type 0 where
  pub original : Option Text
  pub bad : Option Text
  pub good : List Text
  pub skip : List Text
  pub log : List Text

-- `State`
pub data Progress : Type 0 where
  need_marks : Progress
  done : Text → Progress
  test : Text → ℕ → Progress

unfoldable pub append_unique : List Text → Text → List Text
append_unique lines value = if contains lines value then lines else lines ++ (value ∷ [])

abbrev pub clear : Session
clear = record { original = none; bad = none; good = []; skip = []; log = [] }

abbrev pub start : Text → Session
start original = record clear { original = some original }

abbrev pub set_bad : Session → Text → Session
set_bad s commit = record s { bad = some commit }

abbrev pub add_good : Session → Text → Session
add_good s commit = record s { good = append_unique s.good commit }

abbrev pub add_skip : Session → Text → Session
add_skip s commit = record s { skip = append_unique s.skip commit }

abbrev pub append_log : Session → Text → Session
append_log s line = record s { log = s.log ++ (line ∷ []) }

abbrev pub in_bisect : Session → Bool
in_bisect s = is_some s.original

-- `suspects.remove(&a)` for each `a`
unfoldable pub without : List Text → List Text → List Text
without [] ys = []
without (x ∷ xs) ys = let rest = without xs ys in if contains ys x then rest else x ∷ rest

unfoldable pub candidates_of : Text → List Text → List Text → List Text
candidates_of bad skipped [] = []
candidates_of bad skipped (c ∷ cs) =
    let rest = candidates_of bad skipped cs in
    if not (text_eq c bad) && not (contains skipped c) then c ∷ rest else rest

abbrev min : ℕ → ℕ → ℕ
min a b = if ltb a b then a else b

-- `n.min(suspects.len() - n)`
unfoldable pub score_of : List Text → List Text → ℕ
score_of suspects anc = let n = length (intersection anc suspects) in min n (length suspects - n)

-- `best.map(|(_, s)| score > s).unwrap_or(true)`
unfoldable pub better : Option (Text × ℕ) → Text → ℕ → Text × ℕ
better none c score = (c, score)
better (some (b, s)) c score = if ltb s score then (c, score) else (b, s)

module _ (fmt : Format) (repo : Repository) where
  unfoldable pub ancestors_incl : Text → Result (List Text)
  ancestors_incl commit = walk (parents_of fmt repo) (walk_fuel fmt repo) [] (commit ∷ [])

  -- The suspects that no good commit exonerates.
  unfoldable pub exonerate : List Text → List Text → Result (List Text)
  exonerate suspects [] = ok suspects
  exonerate suspects (g ∷ goods) = do anc ← ancestors_incl g; exonerate (without suspects anc) goods

  -- The loop that picks the candidate with the highest score.
  unfoldable pub pick : List Text → Option (Text × ℕ) → List Text → Result (Option (Text × ℕ))
  pick suspects best [] = ok best
  pick suspects best (c ∷ cs) = do
    anc ← ancestors_incl c
    pick suspects (some (better best c (score_of suspects anc))) cs

  -- The answer of `compute` from the candidates; without any, the bad commit is the first one.
  unfoldable pub answer : Text → ℕ → Option (Text × ℕ) → Progress
  answer bad remaining none = done bad
  answer bad remaining (some (next, score)) = test next remaining

  unfoldable pub compute_marked : Text → List Text → List Text → Result Progress
  compute_marked bad goods skipped = do
    all ← ancestors_incl bad
    suspects ← exonerate all goods
    let candidates = candidates_of bad skipped suspects
    best ← pick suspects none (sort candidates)
    ok (answer bad (length candidates) best)

  unfoldable pub compute_from : Option Text → List Text → List Text → Result Progress
  compute_from none goods skipped = ok need_marks
  compute_from (some bad) [] skipped = ok need_marks
  compute_from (some bad) (g ∷ goods) skipped = compute_marked bad (g ∷ goods) skipped

  unfoldable pub compute : Session → Result Progress
  compute s = compute_from s.bad s.good s.skip
