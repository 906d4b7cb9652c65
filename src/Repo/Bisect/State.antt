-- ===== src/Repo/Bisect/State.antt =====
-- What `compute` of crates/repo/src/bisect.rs answers.
use mcagit.Common.{
  ℕ, ◌≤◌, List, [], ◌∷◌, true, Option, none, some, ◌≡◌, ◌≢◌, ◌⊎◌, inl, inr, refl, sym, ap, ◌∙◌,
  subst, arith, Bool-cases, ltb,
}
use mcagit.Common.Text.{Text, text_eq, text_eq_iff}
use mcagit.Common.Members.{contains}
use mcagit.Repo.Result.{ok, err, >>=-eq-ok, >>=-ne-diverged, diverged}
use mcagit.Repo.Store.{Format, Repository, parents_of}
use mcagit.Repo.History.{sort}
use mcagit.Repo.History.Fuel.{
  walk-ne-diverged, parents_of-Pays, parents_of-ne-diverged, left_to_visit,
}
use mcagit.Repo.Bisect.{
  Session, better, score_of, ancestors_incl, exonerate, pick, candidates_of, compute_marked,
  compute_from, compute,
}

module _ (fmt : Format) (repo : Repository) where
  ancestors_incl-ne-diverged : (commit : Text) → ancestors_incl fmt repo commit ≢ err diverged
  unfolding ancestors_incl
  ancestors_incl-ne-diverged commit =
      walk-ne-diverged (parents_of fmt repo) (left_to_visit fmt repo) (parents_of-Pays fmt repo)
        (parents_of-ne-diverged fmt repo) _ [] (commit ∷ []) (omega arith)

  exonerate-ne-diverged :
      (goods suspects : List Text) → exonerate fmt repo suspects goods ≢ err diverged
  unfolding exonerate
  exonerate-ne-diverged [] suspects = λ e. cc
  exonerate-ne-diverged (g ∷ goods) suspects =
      >>=-ne-diverged (ancestors_incl fmt repo g) _ (ancestors_incl-ne-diverged g)
        (λ anc _. exonerate-ne-diverged goods _)

  pick-ne-diverged :
      (cs suspects : List Text) (best : Option (Text × ℕ))
      → pick fmt repo suspects best cs ≢ err diverged
  unfolding pick
  pick-ne-diverged [] suspects best = λ e. cc
  pick-ne-diverged (c ∷ cs) suspects best =
      >>=-ne-diverged (ancestors_incl fmt repo c) _ (ancestors_incl-ne-diverged c)
        (λ anc _. pick-ne-diverged cs suspects _)

  compute_marked-ne-diverged :
      (bad : Text) (goods skipped : List Text)
      → compute_marked fmt repo bad goods skipped ≢ err diverged
  unfolding compute_marked
  compute_marked-ne-diverged bad goods skipped =
      >>=-ne-diverged (ancestors_incl fmt repo bad) _ (ancestors_incl-ne-diverged bad) λ all _.
        >>=-ne-diverged (exonerate fmt repo all goods) _ (exonerate-ne-diverged goods all) λ sus _.
          >>=-ne-diverged (pick fmt repo sus none (sort (candidates_of bad skipped sus))) _
            (pick-ne-diverged (sort (candidates_of bad skipped sus)) sus none) λ best _ e. cc

  compute_from-ne-diverged :
      (bad : Option Text) (goods skipped : List Text)
      → compute_from fmt repo bad goods skipped ≢ err diverged
  unfolding compute_from
  compute_from-ne-diverged none goods skipped = λ e. cc
  compute_from-ne-diverged (some bad) [] skipped = λ e. cc
  compute_from-ne-diverged (some bad) (g ∷ goods) skipped =
      compute_marked-ne-diverged bad (g ∷ goods) skipped

  -- On every repository and session compute never runs out of rounds: it returns an answer or an
  -- error of the program.
  pub compute-ne-diverged : (s : Session) → compute fmt repo s ≢ err diverged
  unfolding compute
  compute-ne-diverged s = compute_from-ne-diverged s.bad s.good s.skip

  -- The score of a commit.
  abbrev pub Scores : List Text → Text → ℕ → Type 0
  Scores suspects c n =
      (anc : List Text) × (ancestors_incl fmt repo c ≡ ok anc) × (n ≡ score_of suspects anc)

  -- A pick that no commit of the list beats.
  pub record IsTop (suspects : List Text) (cs : List Text) (c : Text) (n : ℕ) : Type 0 where
    pub scores : Scores suspects c n
    pub top : (d : Text) (m : ℕ) → contains cs d ≡ true → Scores suspects d m → m ≤ n

  Scores-unique :
      (suspects : List Text) (c : Text) (m n : ℕ)
      → Scores suspects c m
      → Scores suspects c n
      → m ≡ n
  Scores-unique suspects c m n (a, ea, em) (b, eb, en) =
      let q : a ≡ b = ok_inj (sym ea ∙ eb) in em ∙ ap (score_of suspects) q ∙ sym en
    where
      ok_inj : {x y : List Text} → ok x ≡ ok y → x ≡ y
      ok_inj h = cc

  IsTop-cons :
      (suspects cs : List Text) (x c : Text) (k n : ℕ)
      → Scores suspects x k
      → k ≤ n
      → IsTop suspects cs c n
      → IsTop suspects (x ∷ cs) c n
  unfolding contains
  IsTop-cons suspects cs x c k n sx le best = record {
    scores = best.scores;
    top = λ d m h sd. elim (Bool-cases (text_eq x d)) [
      | inl q ↦
          let sd' = subst (λ y. Scores suspects y m) (sym ((text_eq_iff x d).0 q)) sd in
          omega (arith, Scores-unique suspects x m k sd' sx)
      | inr other ↦ best.top d m (ground arith) sd
    ];
  }

  pick-IsTop :
      (cs suspects : List Text) (b : Text) (s : ℕ) {r : Option (Text × ℕ)}
      → pick fmt repo suspects (some (b, s)) cs ≡ ok r
      → Scores suspects b s
      → (c : Text) × (n : ℕ) × (r ≡ some (c, n))
        × ((contains cs c ≡ true) ⊎ (c ≡ b))
        × (s ≤ n)
        × IsTop suspects cs c n
  unfolding pick contains better
  pick-IsTop [] suspects b s e sb =
      (b, s, ground arith, inr refl, omega arith, record { scores = sb; top = λ d m h _. cc })
  pick-IsTop (x ∷ cs) suspects b s e sb =
      let (anc, ea, er) = >>=-eq-ok (ancestors_incl fmt repo x) _ e in
      let sx : Scores suspects x (score_of suspects anc) = (anc, ea, refl) in
      elim (Bool-cases (ltb s (score_of suspects anc))) [
        | inl higher ↦
            let better_x : better (some (b, s)) x (score_of suspects anc)
                ≡ (x, score_of suspects anc) =
              ground arith in
            let (c, n, er', from, le, best) =
              pick-IsTop cs suspects x (score_of suspects anc)
                (ap (λ p. pick fmt repo suspects (some p) cs) (sym better_x) ∙ er) sx in
            (
              c,
              n,
              er',
              inl (ground (arith, from, text_eq_iff x c)),
              ground (arith, le),
              IsTop-cons suspects cs x c (score_of suspects anc) n sx le best,
            )
        | inr lower ↦
            let better_b : better (some (b, s)) x (score_of suspects anc) ≡ (b, s) = ground arith in
            let (c, n, er', from, le, best) =
              pick-IsTop cs suspects b s
                (ap (λ p. pick fmt repo suspects (some p) cs) (sym better_b) ∙ er) sb in
            (
              c,
              n,
              er',
              ground (arith, from),
              le,
              IsTop-cons suspects cs x c (score_of suspects anc) n sx (ground (arith, le)) best,
            )
      ]

  -- The first candidate is always picked up.
  pub pick-start :
      (cs suspects : List Text) {r : Option (Text × ℕ)}
      → pick fmt repo suspects none cs ≡ ok r
      → ((r ≡ none) × (cs ≡ []))
        ⊎ ((c : Text) × (n : ℕ) × (r ≡ some (c, n))
            × (contains cs c ≡ true)
            × IsTop suspects cs c n)
  unfolding pick contains better
  pick-start [] suspects e = inl (ground arith, refl)
  pick-start (x ∷ cs) suspects e =
      let (anc, ea, er) = >>=-eq-ok (ancestors_incl fmt repo x) _ e in
      let sx : Scores suspects x (score_of suspects anc) = (anc, ea, refl) in
      let (c, n, er', from, le, best) = pick-IsTop cs suspects x (score_of suspects anc) er sx in
      inr (
        c,
        n,
        er',
        ground (arith, from, text_eq_iff x c),
        IsTop-cons suspects cs x c (score_of suspects anc) n sx le best,
      )
