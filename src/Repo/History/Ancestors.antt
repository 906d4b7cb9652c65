-- ===== src/Repo/History/Ancestors.antt =====
-- `ancestors` returns on every repository, with exactly the commits that can be reached.
use mcagit.Common.{ℕ, zero, suc, List, [], ◌∷◌, true, ◌≡◌, ◌↔◌, inl, inr, sym, ap, ◌∙◌, Bool-cases}
use mcagit.Common.Text.{Text}
use mcagit.Common.Members.{contains}
use mcagit.Repo.Result.{Result, RepoError, ok, err, Result-cases, diverged}
use mcagit.Repo.Store.{Format, Repository}
use mcagit.Repo.History.{push_all, walk, walk_fuel, known_parents, ancestors}
use mcagit.Repo.History.Walk.{Reach, walk_seen, walk_new, walk-Reach_iff}
use mcagit.Repo.History.Fuel.{known_parents_total, ancestors-ne-diverged}

-- A walk whose expansion never fails has no other error than a lack of fuel.
walk-err :
    (expand : Text → Result (List Text))
    → ((c : Text) → (ps : List Text) × (expand c ≡ ok ps))
    → (fuel : ℕ) (set stack : List Text) {e : RepoError} → walk expand fuel set stack ≡ err e
    → e ≡ diverged
unfolding walk
walk-err expand total fuel set [] h = cc
walk-err expand total zero set (s ∷ stack) h = cc
walk-err expand total (suc f) set (s ∷ stack) h = elim (Bool-cases (contains set s)) [
  | inl seen ↦ walk-err expand total f set stack (sym (walk_seen expand f set stack s seen) ∙ h)
  | inr new ↦
      let (ps, ex) = total s in
      walk-err expand total f (s ∷ set) (push_all ps stack)
        (rw ex at (sym (walk_new expand f set stack s new) ∙ h))
]

-- The commits reachable through parents, stopping at the shallow boundary and at what cannot be
-- read as a commit.
abbrev pub IsAncestor : Format → Repository → Text → Text → Type 0
IsAncestor fmt repo start c = Reach (known_parents fmt repo) start c

module _ (fmt : Format) (repo : Repository) (start : Text) where
  pub ancestors-IsAncestor :
      {r : List Text}
      → ancestors fmt repo start ≡ ok r
      → (c : Text) → (contains r c ≡ true) ↔ IsAncestor fmt repo start c
  unfolding ancestors
  ancestors-IsAncestor e = walk-Reach_iff (known_parents fmt repo) (walk_fuel fmt repo) start e

  -- On every repository, a cyclic or damaged one too, ancestors returns, and the set it returns
  -- holds exactly the commits that are reachable from the start over readable commits' parents, the
  -- start included.
  pub ancestors_total :
      (r : List Text) × (ancestors fmt repo start ≡ ok r)
      × ((c : Text) → (contains r c ≡ true) ↔ IsAncestor fmt repo start c)
  ancestors_total = elim (Result-cases (ancestors fmt repo start)) [
    | inl (r, e) ↦ (r, e, ancestors-IsAncestor e)
    | inr (x, e) ↦ absurd (ancestors-ne-diverged fmt repo start (failed e))
  ]
    where
      failed :
          {x : RepoError}
          → ancestors fmt repo start ≡ err x
          → ancestors fmt repo start ≡ err diverged
      failed {x} e =
          e
          ∙ ap err (
              walk-err (known_parents fmt repo) (known_parents_total fmt repo) (walk_fuel fmt repo)
                [] (start ∷ []) (unfold ancestors in e))
