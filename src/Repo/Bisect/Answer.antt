-- ===== src/Repo/Bisect/Answer.antt =====
-- What the two answers of `compute` of crates/repo/src/bisect.rs mean for the suspects.
use mcagit.Common.{
  ℕ, ◌≤◌, List, [], ◌∷◌, true, false, Option, none, some, ◌≡◌, ◌≢◌, ◌↔◌, ◌⊎◌, inl, inr, refl, sym,
  subst, ap, ◌∙◌, arith, Bool-cases, length,
}
use mcagit.Common.Text.{Text, text_eq, text_eq_iff}
use mcagit.Common.Members.{contains}
use mcagit.Repo.Result.{ok, >>=-eq-ok}
use mcagit.Repo.Store.{Format, Repository}
use mcagit.Repo.History.{sort}
use mcagit.Repo.History.Base.{contains-sort}
use mcagit.Repo.Bisect.{
  Session, Progress, need_marks, done, test, ancestors_incl, exonerate, pick, answer, candidates_of,
  compute_marked, compute_from, compute,
}
use mcagit.Repo.Bisect.Suspects.{
  Includes, ancestors_incl-Includes, exonerate-Includes, contains-candidates_of,
}
use mcagit.Repo.Bisect.State.{pick-start}
use mcagit.Repo.Bisect.Count.{
  NoRepeats, HasScore, ancestors_incl-NoRepeats, exonerate-NoRepeats, Scores-HasScore,
  candidates_of-NoRepeats, HasScore-unique, pick-scored,
}

module _ (fmt : Format) (repo : Repository) where
  -- A commit that the bad one includes and no good one does.
  abbrev pub IsSuspect : Text → List Text → Text → Type 0
  IsSuspect bad goods c =
      Includes fmt repo bad c × ((g : Text) → contains goods g ≡ true → ¬ Includes fmt repo g c)

  abbrev pub IsCandidate : Text → List Text → List Text → Text → Type 0
  IsCandidate bad goods skipped c = IsSuspect bad goods c × (c ≢ bad) × (contains skipped c ≡ false)

  -- `suspects` lists the suspects, each once, `candidates` those of them that may be
  -- tested, and of these `next` halves the suspects best.
  pub record Halves (bad : Text) (goods skipped suspects : List Text) (next : Text) (remaining : ℕ)
      : Type 0 where
    pub lists : (c : Text) → (contains suspects c ≡ true) ↔ IsSuspect bad goods c
    pub single : NoRepeats suspects
    pub candidate : IsCandidate bad goods skipped next
    pub candidates : List Text
    pub candidates_listed :
        (c : Text) → (contains candidates c ≡ true) ↔ IsCandidate bad goods skipped c
    pub candidates_single : NoRepeats candidates
    pub counted : remaining ≡ length candidates
    pub score : ℕ
    pub scores : HasScore fmt repo suspects next score
    pub most :
        (d : Text) (m : ℕ)
        → IsCandidate bad goods skipped d
        → HasScore fmt repo suspects d m
        → m ≤ score

  module _ (bad : Text) (goods skipped : List Text) where
    Parts : Progress → Type 0
    Parts p =
        (suspects : List Text) × ((c : Text) → (contains suspects c ≡ true) ↔ IsSuspect bad goods c)
        × NoRepeats suspects
        × (best : Option (Text × ℕ)) × (pick fmt repo suspects none
              (sort (candidates_of bad skipped suspects))
            ≡ ok best)
        × (p ≡ answer fmt repo bad (length (candidates_of bad skipped suspects)) best)

    compute_marked-Parts :
        {p : Progress} → compute_marked fmt repo bad goods skipped ≡ ok p → Parts p
    unfolding compute_marked Parts
    compute_marked-Parts e =
        let (all, ea, e1) = >>=-eq-ok (ancestors_incl fmt repo bad) _ e in
        let (suspects, es, e2) = >>=-eq-ok (exonerate fmt repo all goods) _ e1 in
        let (best, eb, e3) =
          >>=-eq-ok (pick fmt repo suspects none (sort (candidates_of bad skipped suspects))) _
            e2 in
        (
          suspects,
          λ c.
              let inc = ancestors_incl-Includes fmt repo bad ea c in
              let (keep, back) = exonerate-Includes fmt repo goods all es c in
              (λ m. let (ma, free) = keep m in (inc.0 ma, free), λ (r, free). back (inc.1 r, free)),
          exonerate-NoRepeats fmt repo goods all es (ancestors_incl-NoRepeats fmt repo bad ea),
          best,
          eb,
          ground arith,
        )

    unsorted-IsCandidate :
        (suspects : List Text)
        → ((c : Text) → (contains suspects c ≡ true) ↔ IsSuspect bad goods c)
        → (c : Text)
        → (contains (candidates_of bad skipped suspects) c ≡ true) ↔ IsCandidate bad goods skipped c
    unsorted-IsCandidate suspects lists c =
        let kept = contains-candidates_of bad skipped suspects c in
        (
          λ m. (
            (lists c).0 (ground (arith, kept)),
            λ q. ground (arith, kept, text_eq_iff c bad),
            ground (arith, kept),
          ),
          λ (s, n, k). let ms = (lists c).1 s in ground (arith, kept, text_eq_iff c bad),
        )

    contains-IsCandidate :
        (suspects : List Text)
        → ((c : Text) → (contains suspects c ≡ true) ↔ IsSuspect bad goods c)
        → (c : Text)
        → (contains (sort (candidates_of bad skipped suspects)) c ≡ true)
          ↔ IsCandidate bad goods skipped c
    contains-IsCandidate suspects lists c =
        let sorted = contains-sort (candidates_of bad skipped suspects) c in
        let (there, back) = unsorted-IsCandidate suspects lists c in
        (λ m. there (sym sorted ∙ m), λ k. sorted ∙ back k)

    compute_marked-Halves :
        {next : Text} {remaining : ℕ}
        → compute_marked fmt repo bad goods skipped ≡ ok (test next remaining)
        → (suspects : List Text) × Halves bad goods skipped suspects next remaining
    unfolding Parts answer
    compute_marked-Halves {next} {remaining} e =
        let (suspects, lists, single, best, eb, ep) = compute_marked-Parts e in
        let cand = contains-IsCandidate suspects lists in
        elim (pick-start fmt repo (sort (candidates_of bad skipped suspects)) suspects eb) [
          | inl (q, empty) ↦ absurd (ground arith)
          | inr (c, n, q, m, best_top) ↦ (
            suspects,
            subst (λ x. Halves bad goods skipped suspects x remaining) (ground arith)
                (record {
                  lists = lists;
                  single = single;
                  candidate = (cand c).0 m;
                  candidates = candidates_of bad skipped suspects;
                  candidates_listed = unsorted-IsCandidate suspects lists;
                  candidates_single = candidates_of-NoRepeats bad skipped suspects single;
                  counted = ground arith;
                  score = n;
                  scores = Scores-HasScore fmt repo suspects c n best_top.scores;
                  most = λ d k cd sd.
                      let here = (cand d).1 cd in
                      let (k', s) =
                        pick-scored fmt repo (sort (candidates_of bad skipped suspects)) suspects
                          none eb d here in
                      let same =
                        HasScore-unique fmt repo suspects d k k' sd
                          (Scores-HasScore fmt repo suspects d k' s) in
                      omega (arith, same, best_top.top d k' here s);
                }),
          )
        ]

    compute_marked-done :
        {c : Text}
        → compute_marked fmt repo bad goods skipped ≡ ok (done c)
        → (c ≡ bad) × ((d : Text) → IsSuspect bad goods d → (d ≡ bad) ⊎ (contains skipped d ≡ true))
    unfolding Parts answer contains
    compute_marked-done e =
        let (suspects, lists, single, best, eb, ep) = compute_marked-Parts e in
        let cand = contains-IsCandidate suspects lists in
        elim (pick-start fmt repo (sort (candidates_of bad skipped suspects)) suspects eb) [
          | inl (q, empty) ↦ (
            ground arith,
            λ d s. elim (Bool-cases (text_eq d bad)) [
              | inl same ↦ inl ((text_eq_iff d bad).0 same)
              | inr other ↦ elim (Bool-cases (contains skipped d)) [
                | inl skip ↦ inr skip
                | inr kept ↦
                    let m = (cand d).1 (s, (λ p. ground (arith, text_eq_iff d bad)), kept) in
                    absurd (ground arith)
              ]
            ],
          )
          | inr (c, n, q, m, best_top) ↦ absurd (ground arith)
        ]

  compute_from-cases :
      (bad : Option Text) (goods skipped : List Text) (p : Progress)
      → compute_from fmt repo bad goods skipped ≡ ok p
      → (p ≡ need_marks)
        ⊎ ((b : Text) × (bad ≡ some b) × (compute_marked fmt repo b goods skipped ≡ ok p))
  unfolding compute_from
  compute_from-cases none goods skipped p e = inl (ground arith)
  compute_from-cases (some bad) [] skipped p e = inl (ground arith)
  compute_from-cases (some bad) (g ∷ goods) skipped p e = inr (bad, refl, e)

  -- If compute answers with a commit to test, then there is a bad mark; the commit is reachable
  -- from the bad one and from no good one, is neither the bad one nor skipped, and no other such
  -- commit has a higher score, where the score of a commit is the smaller of the number of suspects
  -- (those reachable from the bad commit and from no good one, each counted once) that are
  -- reachable from it and the number of the other suspects; and the number that the answer shows is
  -- that of the commits which may be tested so.
  pub compute-Halves :
      (s : Session) (next : Text) (remaining : ℕ)
      → compute fmt repo s ≡ ok (test next remaining)
      → (bad : Text) × (s.bad ≡ some bad)
        × (suspects : List Text) × Halves bad s.good s.skip suspects next remaining
  unfolding compute
  compute-Halves s next remaining e =
      elim (compute_from-cases s.bad s.good s.skip (test next remaining) e) [
        | inl q ↦ absurd (ground arith)
        | inr (bad, eb, em) ↦
            let (suspects, halves) = compute_marked-Halves bad s.good s.skip em in
            (bad, eb, suspects, halves)
      ]

  -- If compute answers that a commit is the first bad one, then this commit is the bad mark, and
  -- every other commit that is reachable from it and from no good one is skipped.
  pub compute-done :
      (s : Session) (c : Text)
      → compute fmt repo s ≡ ok (done c)
      → (s.bad ≡ some c)
        × ((d : Text) → IsSuspect c s.good d → (d ≡ c) ⊎ (contains s.skip d ≡ true))
  unfolding compute
  compute-done s c e = elim (compute_from-cases s.bad s.good s.skip (done c) e) [
    | inl q ↦ absurd (ground arith)
    | inr (bad, eb, em) ↦
        let (same, all) = compute_marked-done bad s.good s.skip em in
        (
          eb ∙ ap some (sym same),
          subst (λ b. (d : Text) → IsSuspect b s.good d → (d ≡ b) ⊎ (contains s.skip d ≡ true))
              (sym same) all,
        )
  ]
