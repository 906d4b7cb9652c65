-- ===== src/Repo/History/Acyclic.antt =====
-- Where a history has no cycle, `merge_base` of crates/repo/src/merge.rs finds a base.
use mcagit.Common.{
  ℕ, ◌≤◌, ◌<◌, List, [], ◌∷◌, true, some, ◌≡◌, ◌⊎◌, inl, inr, refl, ap, Bool-cases, leb, arith,
}
use mcagit.Common.Text.{Text, text_eq_iff, text_eq_refl}
use mcagit.Common.Members.{contains}
use mcagit.Repo.Result.{ok}
use mcagit.Repo.Store.{Format, Repository}
use mcagit.Repo.History.{known_parents, merge_base, intersection}
use mcagit.Repo.History.Walk.{here, step, Each-cons}
use mcagit.Repo.History.Ancestors.{IsAncestor}
use mcagit.Repo.History.Base.{IsBest, IsCommon-total, merge_base_total}

-- Histories without a cycle, as content addressing makes them: some number falls from each commit to
-- its parents.
abbrev pub IsAcyclic : Format → Repository → (Text → ℕ) → Type 0
IsAcyclic fmt repo rank =
    (c p : Text) (ps : List Text)
    → known_parents fmt repo c ≡ ok ps
    → contains ps p ≡ true
    → rank p < rank c

module _ (fmt : Format) (repo : Repository) (rank : Text → ℕ)
    (acyclic : IsAcyclic fmt repo rank) where
  Reach-rank : {o c : Text} → IsAncestor fmt repo o c → (o ≡ c) ⊎ (rank c < rank o)
  Reach-rank here = inl refl
  Reach-rank (step {c} {p} {ps} r e m) = elim (Reach-rank r) [
    | inl q ↦ inr (omega (arith, acyclic c p ps e m, ap rank q))
    | inr lt ↦ inr (omega (arith, acyclic c p ps e m))
  ]

  -- Some element of a list ranks highest.
  highest :
      (xs : List Text) (c : Text)
      → contains xs c ≡ true
      → (m : Text) × (contains xs m ≡ true) × ((o : Text) → contains xs o ≡ true → rank o ≤ rank m)
  unfolding contains
  highest [] c h = cc
  highest (x ∷ []) c h = (
    x,
    ground (arith, text_eq_refl x),
    λ o m. omega (arith, ap rank ((text_eq_iff x o).0 (ground arith))),
  )
  highest (x ∷ y ∷ ys) c h =
      let (m, mm, most) = highest (y ∷ ys) y (ground (arith, text_eq_refl y)) in
      elim (Bool-cases (leb (rank x) (rank m))) [
        | inl below ↦
            (m, ground arith, Each-cons (λ o. rank o ≤ rank m) x (y ∷ ys) (ground arith) most)
        | inr above ↦ (
          x,
          ground (arith, text_eq_refl x),
          Each-cons (λ o. rank o ≤ rank x) x (y ∷ ys) (omega arith)
              (λ o mo. ground (arith, most o mo)),
        )
      ]

  -- If some number falls from each readable commit to its parents and the two commits have a common
  -- ancestor, then merge_base returns a common ancestor that is an ancestor of no other one.
  pub merge_base_exists :
      (a b c : Text)
      → IsAncestor fmt repo a c
      → IsAncestor fmt repo b c
      → (m : Text) × (merge_base fmt repo a b ≡ ok (some m)) × IsBest fmt repo a b m
  merge_base_exists a b c ra rb =
      let (aa, ab, ea, eb, common) = IsCommon-total fmt repo a b in
      let (m, mm, most) = highest (intersection aa ab) c ((common c).1 (ra, rb)) in
      let best : IsBest fmt repo a b m = (
        (common m).0 mm,
        λ o oc n r. elim (Reach-rank r) [
          | inl q ↦ n q
          | inr lt ↦ absurd (omega (arith, most o ((common o).1 oc)))
        ],
      ) in
      elim (merge_base_total fmt repo a b) [
        | inl found ↦ found
        | inr (e, never) ↦ absurd (never m best)
      ]
