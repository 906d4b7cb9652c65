-- ===== src/Repo/Status/At.antt =====
-- What a list of changes says of a path.
use mcagit.Common.{
  ◌≡◌, refl, ◌∙◌, ap, arith, List, [], ◌∷◌, ◌++◌, Option, none, some, if◌then◌else◌,
}
use mcagit.Common.Text.{Text, text_eq, text_eq_iff}
use mcagit.Common.Dict.{Dict, lookup, keys}
use mcagit.Common.Sorted.{IsSorted, lookup-Above}
use mcagit.Repo.Status.{
  ChangeKind, added, modified, removed, Change, fresh, gone, insert_change, sort_changes,
}

-- What the list says of a path.
unfoldable pub change_at : Text → List Change → Option ChangeKind
change_at p [] = none
change_at p (c ∷ cs) = let rest = change_at p cs in if text_eq c.path p then some c.kind else rest

-- What two signatures of one path, or their absence, mean.
abbrev pub classify : Option Text → Option Text → Option ChangeKind
classify none none = none
classify none (some new) = some added
classify (some old) none = some removed
classify (some old) (some new) = if text_eq old new then none else some modified

-- No path stands twice.
abbrev pub Distinct : List Change → Type 0
Distinct [] = Unit {0}
Distinct (c ∷ cs) = (change_at c.path cs ≡ none) × Distinct cs

pub change_at-insert_change :
    (p : Text) (c : Change) (cs : List Change)
    → change_at c.path cs ≡ none
    → change_at p (insert_change c cs) ≡ change_at p (c ∷ cs)
unfolding change_at insert_change
change_at-insert_change p c [] h = refl
change_at-insert_change p c (d ∷ cs) h = ground (
  arith,
  text_eq_iff c.path p,
  text_eq_iff d.path p,
  text_eq_iff d.path c.path,
  change_at-insert_change p c cs,
)

pub change_at-sort_changes :
    (p : Text) (cs : List Change) → Distinct cs → change_at p (sort_changes cs) ≡ change_at p cs
unfolding change_at sort_changes
change_at-sort_changes p [] h = refl
change_at-sort_changes p (c ∷ cs) h =
    change_at-insert_change p c (sort_changes cs) (change_at-sort_changes c.path cs h.1 ∙ h.0)
    ∙ ap (λ (rest : Option ChangeKind). if text_eq c.path p then some c.kind else rest)
        (change_at-sort_changes p cs h.1)

pub change_at-append :
    (p : Text) (cs ds : List Change)
    → change_at p (cs ++ ds) ≡ (elim (change_at p cs) [ none ↦ change_at p ds | some k ↦ some k ])
unfolding change_at
change_at-append p [] ds = refl
change_at-append p (c ∷ cs) ds = ground (arith, change_at-append p cs ds)

pub change_at-fresh :
    (p : Text) (before now : Dict Text)
    → IsSorted now
    → change_at p (fresh before now)
      ≡ (elim (lookup p now) [ none ↦ none | some sig ↦ classify (lookup p before) (some sig) ])
unfolding change_at fresh lookup
change_at-fresh p before [] s = refl
change_at-fresh p before ((q, sig) ∷ now) s =
    ground (arith, text_eq_iff q p, lookup-Above q now s.0, change_at-fresh p before now s.1)

pub change_at-gone :
    (p : Text) (before now : Dict Text)
    → change_at p (gone (keys before) now)
      ≡ (elim (lookup p now) [ some sig ↦ none | none ↦ classify (lookup p before) none ])
unfolding change_at gone lookup keys
change_at-gone p [] now = ground arith
change_at-gone p ((q, sig) ∷ before) now =
    ground (arith, text_eq_iff q p, change_at-gone p before now)
