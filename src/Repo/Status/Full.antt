-- ===== src/Repo/Status/Full.antt =====
-- What the three-way status says of each path.
use mcagit.Common.{
  ◌≡◌, refl, ◌∙◌, ap, arith, List, [], ◌∷◌, Bool, true, false, ◌||◌, Option, none, some,
}
use mcagit.Common.Text.{Text, text_eq, text_eq_iff}
use mcagit.Common.Members.{contains}
use mcagit.Common.Dict.{lookup}
use mcagit.Repo.Manifest.{Manifest}
use mcagit.Repo.Store.{Format}
use mcagit.Repo.Status.{
  ChangeKind, added, Change, untracked_of, unstaged_of, insert_text, sort_texts, flatten, diff,
  or_head, status_full,
}
use mcagit.Repo.Status.At.{change_at, classify, Distinct}
use mcagit.Repo.Status.Exact.{diff_flat-Distinct, flatten-IsSorted, diff_exact}

abbrev pub is_added : Option ChangeKind → Bool
is_added (some added) = true
is_added _ = false

abbrev pub not_added : Option ChangeKind → Option ChangeKind
not_added (some added) = none
not_added other = other

contains-insert_text :
    (t p : Text) (ts : List Text) → contains (insert_text t ts) p ≡ (text_eq t p || contains ts p)
unfolding contains insert_text
contains-insert_text t p [] = refl
contains-insert_text t p (u ∷ ts) = ground (arith, contains-insert_text t p ts)

contains-sort_texts : (p : Text) (ts : List Text) → contains (sort_texts ts) p ≡ contains ts p
unfolding contains sort_texts
contains-sort_texts p [] = refl
contains-sort_texts p (t ∷ ts) =
    contains-insert_text t p (sort_texts ts) ∙ ap (text_eq t p ||◌) (contains-sort_texts p ts)

contains-untracked_of :
    (p : Text) (cs : List Change)
    → Distinct cs
    → contains (untracked_of cs) p ≡ is_added (change_at p cs)
unfolding contains untracked_of change_at
contains-untracked_of p [] d = refl
contains-untracked_of p (c ∷ cs) d =
    ground (arith, text_eq_iff c.path p, d.0, contains-untracked_of p cs d.1)

change_at-unstaged_of :
    (p : Text) (cs : List Change)
    → Distinct cs
    → change_at p (unstaged_of cs) ≡ not_added (change_at p cs)
unfolding unstaged_of change_at
change_at-unstaged_of p [] d = refl
change_at-unstaged_of p (c ∷ cs) d =
    ground (arith, text_eq_iff c.path p, d.0, change_at-unstaged_of p cs d.1)

module _ (fmt : Format) where
  diff-Distinct : (head cur : Manifest) → Distinct (diff fmt head cur)
  unfolding diff
  diff-Distinct head cur =
      diff_flat-Distinct _ _ (flatten-IsSorted fmt head) (flatten-IsSorted fmt cur)

  -- On every head, index and world, status_full lists a path as staged exactly as the signatures of
  -- the head and the index differ there: added, modified or removed; lists it as untracked exactly
  -- if the index lacks it and the world has it; and lists it as unstaged, modified or removed, in
  -- exactly the other cases in which the signatures of the index and the world differ. Without an
  -- index the head stands for it.
  pub status_full_exact :
      (head : Manifest) (index : Option Manifest) (cur : Manifest) (p : Text)
      → (change_at p (status_full fmt head index cur).staged
          ≡ classify (lookup p (flatten fmt head)) (lookup p (flatten fmt (or_head index head))))
        × (change_at p (status_full fmt head index cur).unstaged
            ≡ not_added (
                classify
                  (lookup p (flatten fmt (or_head index head)))
                  (lookup p (flatten fmt cur))))
        × (contains (status_full fmt head index cur).untracked p
            ≡ is_added (
                classify
                  (lookup p (flatten fmt (or_head index head)))
                  (lookup p (flatten fmt cur))))
  unfolding status_full
  status_full_exact head index cur p =
      let staging = or_head index head in
      let changes = diff fmt staging cur in
      let distinct = diff-Distinct staging cur in
      (
        diff_exact fmt head staging p,
        change_at-unstaged_of p changes distinct ∙ ap not_added (diff_exact fmt staging cur p),
        contains-sort_texts p (untracked_of changes)
            ∙ contains-untracked_of p changes distinct
            ∙ ap is_added (diff_exact fmt staging cur p),
      )
