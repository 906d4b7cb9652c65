-- ===== src/Repo/Bisect/Count.antt =====
-- The score of a commit in crates/repo/src/bisect.rs against numbers of commits, counted in lists
-- without repetitions.
use mcagit.Common.{
  ℕ, zero, suc, ◌-◌, ◌≤◌, List, [], ◌∷◌, true, false, Option, not, ◌&&◌, ◌≡◌, ◌↔◌, ◌⊎◌, inl, inr,
  refl, sym, subst, ◌∙◌, arith, Bool-cases, length, if◌then◌else◌,
}
use mcagit.Common.Text.{Text, text_eq, text_eq_iff}
use mcagit.Common.Members.{contains}
use mcagit.Repo.Result.{Result, ok, >>=-eq-ok}
use mcagit.Repo.Store.{Format, Repository, parents_of}
use mcagit.Repo.History.{push_all, walk, intersection}
use mcagit.Repo.History.Walk.{walk_seen, walk_new}
use mcagit.Repo.History.Base.{contains-intersection}
use mcagit.Repo.Bisect.{ancestors_incl, without, exonerate, candidates_of, score_of, pick}
use mcagit.Repo.Bisect.Suspects.{Includes, ancestors_incl-Includes}
use mcagit.Repo.Bisect.State.{Scores}

abbrev pub NoRepeats : List Text → Type 0
NoRepeats [] = Unit {0}
NoRepeats (x ∷ xs) = (contains xs x ≡ false) × NoRepeats xs

-- A list without its first occurrence of a text.
unfoldable drop_one : Text → List Text → List Text
drop_one x [] = []
drop_one x (y ∷ ys) = let rest = drop_one x ys in if text_eq y x then ys else y ∷ rest

length-drop_one :
    (x : Text) (ys : List Text) → contains ys x ≡ true → length ys ≡ suc (length (drop_one x ys))
unfolding drop_one contains
length-drop_one x [] h = cc
length-drop_one x (y ∷ ys) h = ground (arith, length-drop_one x ys)

contains-drop_one :
    (x c : Text) (ys : List Text)
    → text_eq x c ≡ false
    → contains ys c ≡ true
    → contains (drop_one x ys) c ≡ true
unfolding drop_one contains
contains-drop_one x c [] n h = h
contains-drop_one x c (y ∷ ys) n h =
    ground (arith, contains-drop_one x c ys n, text_eq_iff y x, text_eq_iff y c, text_eq_iff x c)

-- A list without repetitions is no longer than one that has its elements.
length-NoRepeats :
    (xs ys : List Text)
    → NoRepeats xs
    → ((c : Text) → contains xs c ≡ true → contains ys c ≡ true)
    → length xs ≤ length ys
unfolding contains
length-NoRepeats [] ys single sub = omega arith
length-NoRepeats (x ∷ xs) ys (new, single) sub =
    let there : contains ys x ≡ true = sub x (ground (arith, text_eq_iff x x)) in
    let rest = length-NoRepeats xs (drop_one x ys) single (λ c h.
      contains-drop_one x c ys (ground (arith, new, h, text_eq_iff x c))
        (sub c (ground (arith, h)))) in
    omega (arith, length-drop_one x ys there, rest)

walk-NoRepeats :
    (expand : Text → Result (List Text)) (fuel : ℕ) (set stack : List Text) {r : List Text}
    → walk expand fuel set stack ≡ ok r
    → NoRepeats set
    → NoRepeats r
unfolding walk
walk-NoRepeats expand fuel set [] {r} e single =
    let same : set ≡ r = cc in subst NoRepeats same single
walk-NoRepeats expand zero set (c ∷ stack) e single = cc
walk-NoRepeats expand (suc fuel) set (c ∷ stack) e single = elim (Bool-cases (contains set c)) [
  | inl seen ↦
      walk-NoRepeats expand fuel set stack (sym (walk_seen expand fuel set stack c seen) ∙ e) single
  | inr new ↦
      let (ps, ep, e1) = >>=-eq-ok (expand c) _ (sym (walk_new expand fuel set stack c new) ∙ e) in
      walk-NoRepeats expand fuel (c ∷ set) (push_all ps stack) e1 (new, single)
]

intersection-NoRepeats : (xs ys : List Text) → NoRepeats xs → NoRepeats (intersection xs ys)
unfolding intersection contains
intersection-NoRepeats [] ys single = tt
intersection-NoRepeats (x ∷ xs) ys (new, single) =
    let rest = intersection-NoRepeats xs ys single in
    let absent : contains (intersection xs ys) x ≡ false =
      ground (arith, contains-intersection xs ys x, new) in
    elim (Bool-cases (contains ys x)) [ inl h ↦ rw h (absent, rest) | inr h ↦ rw h rest ]

without-absent :
    (xs ys : List Text) (c : Text) → contains xs c ≡ false → contains (without xs ys) c ≡ false
unfolding without contains
without-absent [] ys c h = refl
without-absent (x ∷ xs) ys c h = ground (arith, without-absent xs ys c)

without-NoRepeats : (xs ys : List Text) → NoRepeats xs → NoRepeats (without xs ys)
unfolding without
without-NoRepeats [] ys single = tt
without-NoRepeats (x ∷ xs) ys (new, single) =
    let rest = without-NoRepeats xs ys single in
    elim (Bool-cases (contains ys x)) [
      | inl h ↦ rw h rest
      | inr h ↦ rw h (without-absent xs ys x new, rest)
    ]

candidates_of-absent :
    (bad : Text) (skipped xs : List Text) (c : Text)
    → contains xs c ≡ false
    → contains (candidates_of bad skipped xs) c ≡ false
unfolding candidates_of contains
candidates_of-absent bad skipped [] c h = refl
candidates_of-absent bad skipped (x ∷ xs) c h =
    ground (arith, candidates_of-absent bad skipped xs c)

pub candidates_of-NoRepeats :
    (bad : Text) (skipped xs : List Text) → NoRepeats xs → NoRepeats (candidates_of bad skipped xs)
unfolding candidates_of
candidates_of-NoRepeats bad skipped [] single = tt
candidates_of-NoRepeats bad skipped (x ∷ xs) (new, single) =
    let rest = candidates_of-NoRepeats bad skipped xs single in
    elim (Bool-cases (not (text_eq x bad) && not (contains skipped x))) [
      | inl h ↦ rw h (candidates_of-absent bad skipped xs x new, rest)
      | inr h ↦ rw h rest
    ]

-- The smaller of two numbers.
abbrev pub IsMin : ℕ → ℕ → ℕ → Type 0
IsMin n a b = (n ≤ a) × (n ≤ b) × ((n ≡ a) ⊎ (n ≡ b))

module _ (fmt : Format) (repo : Repository) where
  pub ancestors_incl-NoRepeats :
      (c : Text) {anc : List Text} → ancestors_incl fmt repo c ≡ ok anc → NoRepeats anc
  unfolding ancestors_incl
  ancestors_incl-NoRepeats c e = walk-NoRepeats (parents_of fmt repo) _ [] (c ∷ []) e tt

  pub exonerate-NoRepeats :
      (goods suspects : List Text) {r : List Text}
      → exonerate fmt repo suspects goods ≡ ok r
      → NoRepeats suspects
      → NoRepeats r
  unfolding exonerate
  exonerate-NoRepeats [] suspects {r} e single =
      let same : suspects ≡ r = cc in subst NoRepeats same single
  exonerate-NoRepeats (g ∷ goods) suspects e single =
      let (anc, ea, e1) = >>=-eq-ok (ancestors_incl fmt repo g) _ e in
      exonerate-NoRepeats goods (without suspects anc) e1 (without-NoRepeats suspects anc single)

  -- The smaller of the number of suspects that a commit includes and the number of the others.
  pub record HasScore (suspects : List Text) (c : Text) (n : ℕ) : Type 0 where
    pub included : List Text
    pub single : NoRepeats included
    pub lists :
        (d : Text)
        → (contains included d ≡ true) ↔ ((contains suspects d ≡ true) × Includes fmt repo c d)
    pub smaller : IsMin n (length included) (length suspects - length included)

  pub Scores-HasScore :
      (suspects : List Text) (c : Text) (n : ℕ)
      → Scores fmt repo suspects c n
      → HasScore suspects c n
  unfolding score_of
  Scores-HasScore suspects c n (anc, e, en) = record {
    included = intersection anc suspects;
    single = intersection-NoRepeats anc suspects (ancestors_incl-NoRepeats c e);
    lists = λ d.
        let both = contains-intersection anc suspects d in
        let reach = ancestors_incl-Includes fmt repo c e d in
        (
          λ h. (ground (arith, both, h), reach.0 (ground (arith, both, h))),
          λ (s, r). let a = reach.1 r in ground (arith, both, a, s),
        );
    smaller = ground (arith, en);
  }

  pub HasScore-unique :
      (suspects : List Text) (c : Text) (m n : ℕ)
      → HasScore suspects c m
      → HasScore suspects c n
      → m ≡ n
  HasScore-unique suspects c m n a b =
      let below =
        length-NoRepeats a.included b.included a.single (λ d h. (b.lists d).1 ((a.lists d).0 h)) in
      let above =
        length-NoRepeats b.included a.included b.single (λ d h. (a.lists d).1 ((b.lists d).0 h)) in
      omega (arith, below, above, a.smaller, b.smaller)

  -- Where the loop returns, each candidate has its score.
  pub pick-scored :
      (cs suspects : List Text) (best : Option (Text × ℕ)) {r : Option (Text × ℕ)}
      → pick fmt repo suspects best cs ≡ ok r
      → (d : Text) → contains cs d ≡ true
      → (n : ℕ) × Scores fmt repo suspects d n
  unfolding pick contains
  pick-scored [] suspects best e d h = cc
  pick-scored (x ∷ cs) suspects best e d h =
      let (anc, ea, er) = >>=-eq-ok (ancestors_incl fmt repo x) _ e in
      elim (Bool-cases (text_eq x d)) [
        | inl same ↦
            subst (λ y. (n : ℕ) × Scores fmt repo suspects y n) ((text_eq_iff x d).0 same)
              (score_of suspects anc, (anc, ea, refl))
        | inr other ↦ pick-scored cs suspects _ er d (ground (arith, other, h))
      ]
