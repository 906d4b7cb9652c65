-- ===== src/Repo/Merge/Commits/Outcomes.antt =====
-- Which outcome `merge` has, and what a merge commit holds.
use mcagit.Common.{ℕ, some, ◌≡◌, ◌≢◌, inl, inr, sym, ap, ◌∙◌, arith, Bool-cases}
use mcagit.Common.Text.{Text, text_eq, text_eq_iff}
use mcagit.Repo.Result.{ok}
use mcagit.Repo.Store.{Format, Repository}
use mcagit.Repo.Merge.ThreeWay.{id_eq_iff}
use mcagit.Repo.History.{merge_base}
use mcagit.Repo.History.Walk.{here}
use mcagit.Repo.History.Ancestors.{IsAncestor}
use mcagit.Repo.History.Base.{IsBest}
use mcagit.Repo.History.Acyclic.{IsAcyclic, merge_base_exists}
use mcagit.Repo.Merge.Commits.{up_to_date, fast_forward, merge}

module _ (fmt : Format) (repo : Repository) (rank : Text → ℕ)
    (acyclic : IsAcyclic fmt repo rank) where
  -- A commit reachable from the other is the only best common ancestor.
  best_below : (a b m : Text) → IsAncestor fmt repo a b → IsBest fmt repo a b m → m ≡ b
  best_below a b m r ((ra, rb), best) = elim (Bool-cases (text_eq b m)) [
    | inl e ↦ sym ((text_eq_iff b m).0 e)
    | inr n ↦ absurd (best b (r, here) (ground (arith, text_eq_iff b m)) rb)
  ]

  IsBest-swap : (a b m : Text) → IsBest fmt repo a b m → IsBest fmt repo b a m
  IsBest-swap a b m ((ra, rb), best) = ((rb, ra), λ o (oa, ob) n. best o (ob, oa) n)

  base_below : (a b : Text) → IsAncestor fmt repo a b → merge_base fmt repo a b ≡ ok (some b)
  base_below a b r =
      let (m, e, best) = merge_base_exists fmt repo rank acyclic a b b r here in
      e ∙ ap (λ x. ok (some x)) (best_below a b m r best)

  base_above : (a b : Text) → IsAncestor fmt repo b a → merge_base fmt repo a b ≡ ok (some a)
  base_above a b r =
      let (m, e, best) = merge_base_exists fmt repo rank acyclic a b a here r in
      e ∙ ap (λ x. ok (some x)) (best_below b a m r (IsBest-swap a b m best))

  -- If some number falls from each readable commit to its parents and theirs is an ancestor of ours
  -- or equal to it, then merge answers up-to-date and leaves the repository as it was.
  pub merge-up_to_date :
      (ours theirs message author time : Text)
      → IsAncestor fmt repo ours theirs
      → merge fmt repo ours theirs message author time ≡ ok (repo, up_to_date)
  unfolding merge
  merge-up_to_date ours theirs message author time r =
      ground (arith, base_below ours theirs r, id_eq_iff (some theirs) (some theirs))

  -- If some number falls from each readable commit to its parents, ours and theirs differ and ours
  -- is an ancestor of theirs, then merge answers fast-forward to theirs and leaves the repository
  -- as it was.
  pub merge-fast_forward :
      (ours theirs message author time : Text)
      → ours ≢ theirs
      → IsAncestor fmt repo theirs ours
      → merge fmt repo ours theirs message author time ≡ ok (repo, fast_forward theirs)
  unfolding merge
  merge-fast_forward ours theirs message author time n r = ground (
    arith,
    base_above ours theirs r,
    text_eq_iff ours theirs,
    id_eq_iff (some ours) (some ours),
    id_eq_iff (some ours) (some theirs),
  )
