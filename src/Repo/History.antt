-- ===== src/Repo/History.antt =====
-- The walks over history: `ancestors` and `merge_base` of crates/repo/src/merge.rs.
pub mod Walk
pub mod Fuel
pub mod Ancestors
pub mod Base
pub mod Acyclic
use mcagit.Common.{
  ℕ, zero, suc, ◌+◌, List, [], ◌∷◌, ◌++◌, Bool, true, false, not, ◌&&◌, ◌||◌, Option, none, some,
  if◌then◌else◌, length,
}
use mcagit.Common.Text.{Text, text_eq, compare_text}
use mcagit.Common.Members.{contains}
use mcagit.Common.Dict.{Dict}
use mcagit.Repo.Manifest.{CommitObject}
use mcagit.Repo.Result.{Result, ok, err, ◌>>=◌, diverged}
use mcagit.Repo.Store.{Format, Repository, read_commit, parents_of}
use Prim.Native.Nat.{Ordering}
use mathlib.Core.List.{head?}

-- `for p in parents { stack.push(p) }`; the head of the list is the top of the stack.
unfoldable pub push_all : List Text → List Text → List Text
push_all [] stack = stack
push_all (p ∷ ps) stack = push_all ps (p ∷ stack)

-- The worklist loop of `ancestors` and of `ancestors_incl`: `expand` is what they push for a commit.
unfoldable pub walk : (Text → Result (List Text)) → ℕ → List Text → List Text → Result (List Text)
walk expand fuel set [] = ok set
walk expand zero set (c ∷ stack) = err diverged
walk expand (suc fuel) set (c ∷ stack) = elim (contains set c) [
  | true ↦ walk expand fuel set stack
  | false ↦ do ps ← expand c; walk expand fuel (c ∷ set) (push_all ps stack)
]

-- The elements of `xs` that are in `ys` too.
unfoldable pub intersection : List Text → List Text → List Text
intersection [] ys = []
intersection (x ∷ xs) ys = let rest = intersection xs ys in if contains ys x then x ∷ rest else rest

-- `Vec<String>::sort`
unfoldable pub insert_sorted : Text → List Text → List Text
insert_sorted x [] = x ∷ []
insert_sorted x (y ∷ ys) =
    let rest = insert_sorted x ys in
    elim (compare_text x y) [ Ordering.gt ↦ y ∷ rest | _ ↦ x ∷ y ∷ ys ]

unfoldable pub sort : List Text → List Text
sort [] = []
sort (x ∷ xs) = insert_sorted x (sort xs)

abbrev pub is_nil {ℓ} : {A : Type ℓ} → List A → Bool
is_nil [] = true
is_nil (_ ∷ _) = false

module _ (fmt : Format) where
  -- The number of parents that an object names, if it is a commit.
  abbrev pub parent_count : Text → ℕ
  parent_count content = elim (fmt.commit_from_json content) [
    | none ↦ 0
    | some c ↦ length c.parents
  ]

  -- The parents named by the objects whose id is not in the set.
  unfoldable pub unvisited : List Text → Dict Text → ℕ
  unvisited set [] = 0
  unvisited set ((id, content) ∷ m) =
      (if contains set id then 0 else parent_count content) + unvisited set m

  -- Enough rounds for any walk from one commit.
  abbrev pub walk_fuel : Repository → ℕ
  walk_fuel repo = suc (unvisited [] repo.packed + unvisited [] repo.loose)

  -- What `ancestors` pushes: nothing for an object that is not a readable commit.
  unfoldable pub known_parents : Repository → Text → Result (List Text)
  known_parents repo c = elim (read_commit fmt repo c) [
    | ok _ ↦ parents_of fmt repo c
    | err _ ↦ ok []
  ]

  unfoldable pub ancestors : Repository → Text → Result (List Text)
  ancestors repo start = walk (known_parents repo) (walk_fuel repo) [] (start ∷ [])

  -- The inner loop of `merge_base`: is some other common ancestor a descendant of `c`?
  unfoldable pub dominated : Repository → Text → List Text → Result Bool
  dominated repo c [] = ok false
  dominated repo c (o ∷ os) =
      let rest = dominated repo c os in
      if text_eq o c
      then rest
      else (ancestors repo o >>= λ anc. if contains anc c then ok true else rest)

  unfoldable pub undominated : Repository → List Text → List Text → Result (List Text)
  undominated repo common [] = ok []
  undominated repo common (c ∷ cs) =
      let rest = undominated repo common cs in
      do d ← dominated repo c common; bases ← rest; ok (if d then bases else c ∷ bases)

  unfoldable pub merge_base : Repository → Text → Text → Result (Option Text)
  merge_base repo a b = do
    aa ← ancestors repo a
    ab ← ancestors repo b
    let common = intersection aa ab
    if is_nil common
        then ok none
        else (undominated repo common common >>= λ bases. ok (head? (sort bases)))
