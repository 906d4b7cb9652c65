-- ===== src/Repo/History/Fuel.antt =====
-- The walks end: the fuel covers every parent that a stored commit names.
use mcagit.Common.{
  ℕ, zero, suc, ◌+◌, ◌≤◌, List, [], ◌∷◌, false, some, ◌≡◌, ◌≢◌, ◌⊎◌, inl, inr, ap, arith,
  if◌then◌else◌, length, Bool-cases,
}
use mcagit.Common.Text.{Text, text_eq_iff}
use mcagit.Common.Members.{contains}
use mcagit.Common.Dict.{Dict, lookup}
use mcagit.Repo.Result.{Result, ok, err, >>=-ne-diverged, Result-cases, diverged}
use mcagit.Repo.Store.{Format, Repository, read, read_commit, parents_of, at_boundary}
use mcagit.Repo.History.{push_all, walk, parent_count, unvisited, known_parents, ancestors}
use mcagit.Repo.History.Walk.{walk_seen, walk_new, length-push_all}

-- Any measure that pays for what is pushed bounds the rounds.
module _ (expand : Text → Result (List Text)) (measure : List Text → ℕ) where
  abbrev Pays : Type 0
  Pays =
      (set : List Text) (c : Text) (ps : List Text)
      → contains set c ≡ false
      → expand c ≡ ok ps
      → length ps + measure (c ∷ set) ≤ measure set

  pub walk-ne-diverged :
      Pays
      → ((c : Text) → expand c ≢ err diverged)
      → (fuel : ℕ) (set stack : List Text) → length stack + measure set ≤ fuel
      → walk expand fuel set stack ≢ err diverged
  unfolding walk
  walk-ne-diverged pays fine fuel set [] h = λ e. cc
  walk-ne-diverged pays fine zero set (s ∷ stack) h = absurd (omega arith)
  walk-ne-diverged pays fine (suc f) set (s ∷ stack) h = elim (Bool-cases (contains set s)) [
    | inl seen ↦
        rw (walk_seen expand f set stack s seen)
          (walk-ne-diverged pays fine f set stack (omega arith))
    | inr new ↦ rw (walk_new expand f set stack s new) (
        >>=-ne-diverged (expand s) (λ ps. walk expand f (s ∷ set) (push_all ps stack)) (fine s)
          λ ps ex.
            walk-ne-diverged pays fine f (s ∷ set) (push_all ps stack)
              (omega (arith, length-push_all ps stack, pays set s ps new ex)))
  ]

module _ (fmt : Format) where
  -- Visiting one more node never adds to what is left to pay.
  unvisited_mono :
      (set : List Text) (c : Text) (m : Dict Text) → unvisited fmt (c ∷ set) m ≤ unvisited fmt set m
  unfolding unvisited contains
  unvisited_mono set c [] = omega arith
  unvisited_mono set c ((id, content) ∷ m) = ground (arith, unvisited_mono set c m)

  unvisited-pays :
      (set : List Text) (c : Text) (m : Dict Text) (content : Text)
      → contains set c ≡ false
      → lookup c m ≡ some content
      → parent_count fmt content + unvisited fmt (c ∷ set) m ≤ unvisited fmt set m
  unfolding unvisited contains lookup
  unvisited-pays set c [] content n h = cc
  unvisited-pays set c ((id, x) ∷ m) content n h = ground (
    arith,
    text_eq_iff id c,
    text_eq_iff c id,
    unvisited_mono set c m,
    unvisited-pays set c m content,
  )

  -- The content of an object, wherever it is stored.
  read-stored :
      (repo : Repository) (c content : Text)
      → read repo c ≡ ok content
      → (lookup c repo.packed ≡ some content) ⊎ (lookup c repo.loose ≡ some content)
  unfolding read
  read-stored repo c content e = ground arith

  pub parents_of_count :
      (repo : Repository) (c : Text) (ps : List Text)
      → parents_of fmt repo c ≡ ok ps
      → (ps ≡ [])
        ⊎ ((content : Text) × (read repo c ≡ ok content) × (length ps ≡ parent_count fmt content))
  unfolding parents_of read_commit
  parents_of_count repo c ps e = elim (Result-cases (read repo c)) [
    | inl (content, rd) ↦ elim (Bool-cases (at_boundary fmt repo c)) [
      | inl b ↦ inl (ground arith)
      | inr b ↦ inr (content, rd, ground arith)
    ]
    | inr (x, rd) ↦ inl (ground arith)
  ]

  abbrev pub left_to_visit : Repository → List Text → ℕ
  left_to_visit repo set = unvisited fmt set repo.packed + unvisited fmt set repo.loose

  pub parents_of-Pays : (repo : Repository) → Pays (parents_of fmt repo) (left_to_visit repo)
  parents_of-Pays repo set c ps n e = elim (parents_of_count repo c ps e) [
    | inl empty ↦
        omega (
          arith,
          ap length empty,
          unvisited_mono set c repo.packed,
          unvisited_mono set c repo.loose,
        )
    | inr (content, rd, count) ↦ elim (read-stored repo c content rd) [
      | inl at ↦ omega (
        arith,
        count,
        unvisited-pays set c repo.packed content n at,
        unvisited_mono set c repo.loose,
      )
      | inr at ↦ omega (
        arith,
        count,
        unvisited-pays set c repo.loose content n at,
        unvisited_mono set c repo.packed,
      )
    ]
  ]

  known_parents-Pays : (repo : Repository) → Pays (known_parents fmt repo) (left_to_visit repo)
  unfolding known_parents
  known_parents-Pays repo set c ps n e = elim (Result-cases (read_commit fmt repo c)) [
    | inl (x, rd) ↦ parents_of-Pays repo set c ps n (ground arith)
    | inr (x, rd) ↦ omega (
      arith,
      ap length (let q : ps ≡ [] = ground arith in q),
      unvisited_mono set c repo.packed,
      unvisited_mono set c repo.loose,
    )
  ]

  pub read-ne-diverged : (repo : Repository) (c : Text) → read repo c ≢ err diverged
  unfolding read
  read-ne-diverged repo c e = ground arith

  pub parents_of-ne-diverged : (repo : Repository) (c : Text) → parents_of fmt repo c ≢ err diverged
  unfolding parents_of read_commit
  parents_of-ne-diverged repo c e = ground (arith, read-ne-diverged repo c)

  -- A commit that can be read has its parents, so `ancestors` never fails.
  pub known_parents_total :
      (repo : Repository) (c : Text) → (ps : List Text) × (known_parents fmt repo c ≡ ok ps)
  unfolding known_parents parents_of
  known_parents_total repo c = elim (Result-cases (read_commit fmt repo c)) [
    | inl (x, rd) ↦ (if at_boundary fmt repo c then [] else x.parents, ground arith)
    | inr (x, rd) ↦ ([], ground arith)
  ]

  -- `ancestors` and `ancestors_incl` never run out of rounds.
  pub ancestors-ne-diverged :
      (repo : Repository) (start : Text) → ancestors fmt repo start ≢ err diverged
  unfolding ancestors
  ancestors-ne-diverged repo start =
      walk-ne-diverged (known_parents fmt repo) (left_to_visit repo) (known_parents-Pays repo)
        (λ c e. ground (arith, (known_parents_total repo c).1)) _ [] (start ∷ []) (omega arith)
