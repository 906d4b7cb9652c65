-- ===== src/Repo/Bisect/Suspects.antt =====
-- The set of suspects of crates/repo/src/bisect.rs: reachable from the bad commit and from no good one.
use mcagit.Common.{
  List, [], ◌∷◌, true, not, ◌&&◌, ◌≡◌, ◌↔◌, inl, inr, refl, sym, subst, arith, Bool-cases,
}
use mcagit.Common.Text.{Text, text_eq, text_eq_iff, text_eq_refl}
use mcagit.Common.Members.{contains}
use mcagit.Repo.Result.{ok, >>=-eq-ok}
use mcagit.Repo.Store.{Format, Repository, parents_of}
use mcagit.Repo.History.{walk_fuel}
use mcagit.Repo.History.Walk.{Reach, walk-Reach_iff}
use mcagit.Repo.Bisect.{ancestors_incl, exonerate, without, candidates_of}

pub contains-without :
    (xs ys : List Text) (j : Text)
    → contains (without xs ys) j ≡ (contains xs j && not (contains ys j))
unfolding without contains
contains-without [] ys j = refl
contains-without (x ∷ xs) ys j = ground (arith, text_eq_iff x j, contains-without xs ys j)

pub contains-candidates_of :
    (bad : Text) (skipped xs : List Text) (j : Text)
    → contains (candidates_of bad skipped xs) j
      ≡ (contains xs j && (not (text_eq j bad) && not (contains skipped j)))
unfolding candidates_of contains
contains-candidates_of bad skipped [] j = refl
contains-candidates_of bad skipped (x ∷ xs) j =
    ground (arith, text_eq_iff x j, contains-candidates_of bad skipped xs j)

module _ (fmt : Format) (repo : Repository) where
  -- Reachable over the parents of commits, the commit itself included.
  abbrev pub Includes : Text → Text → Type 0
  Includes commit c = Reach (parents_of fmt repo) commit c

  pub ancestors_incl-Includes :
      (commit : Text) {r : List Text}
      → ancestors_incl fmt repo commit ≡ ok r
      → (c : Text) → (contains r c ≡ true) ↔ Includes commit c
  unfolding ancestors_incl
  ancestors_incl-Includes commit e =
      walk-Reach_iff (parents_of fmt repo) (walk_fuel fmt repo) commit e

  -- What `exonerate` keeps: a suspect from before that no good commit includes.
  pub exonerate-Includes :
      (goods suspects : List Text) {r : List Text}
      → exonerate fmt repo suspects goods ≡ ok r
      → (c : Text)
      → (contains r c ≡ true)
        ↔ ((contains suspects c ≡ true) × ((g : Text) → contains goods g ≡ true → ¬ Includes g c))
  unfolding exonerate contains
  exonerate-Includes [] suspects {r} e c =
      (λ m. (ground arith, λ g mg. ground arith), λ (m, _). ground arith)
  exonerate-Includes (g ∷ goods) suspects {r} e c =
      let (anc, ea, er) = >>=-eq-ok (ancestors_incl fmt repo g) _ e in
      let inc = ancestors_incl-Includes g ea c in
      let (keep, back) = exonerate-Includes goods (without suspects anc) er c in
      (
        λ m.
            let (mw, others) = keep m in
            (
              ground (arith, contains-without suspects anc c),
              λ h mh r. elim (Bool-cases (text_eq g h)) [
                | inl q ↦
                    let r' = subst (λ x. Includes x c) (sym ((text_eq_iff g h).0 q)) r in
                    absurd (ground (arith, contains-without suspects anc c, inc.1 r'))
                | inr n ↦ others h (ground arith) r
              ],
            ),
        λ (m, free). back (
          elim (Bool-cases (contains anc c)) [
            | inl there ↦ absurd (free g (ground (arith, text_eq_refl g)) (inc.0 there))
            | inr gone ↦ ground (arith, contains-without suspects anc c)
          ],
          λ h mh. free h (ground arith),
        ),
      )
