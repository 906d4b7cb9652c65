-- ===== src/Repo/Status/Exact.antt =====
-- The changes are exactly the paths whose signatures differ.
use Prim.Native.Nat.{Ordering}
use mcagit.Common.{
  ◌≡◌, ◌⊎◌, ◌∙◌, arith, List, [], ◌∷◌, ◌++◌, true, false, Option, none, some, if◌then◌else◌,
}
use mcagit.Common.Text.{Text, text_eq, text_eq_iff, text_eq_refl, compare_text, codes}
use mcagit.Common.Dict.{Dict, lookup, insert, keys}
use mcagit.Common.Sorted.{IsSorted, insert-IsSorted, lookup-Above}
use mcagit.Repo.Manifest.{Manifest}
use mcagit.Repo.Store.{Format}
use mcagit.Repo.Status.{
  added, modified, removed, Change, put_ids, put_dirs, fresh, gone, insert_change, sort_changes,
  diff_flat, put_regions, flatten, diff,
}
use mcagit.Repo.Status.At.{
  change_at, classify, Distinct, change_at-insert_change, change_at-sort_changes, change_at-append,
  change_at-fresh, change_at-gone,
}

fresh_step :
    (q sig : Text) (o : Option Text) (rest : List Change)
    → change_at q rest ≡ none
    → Distinct rest
    → Distinct (elim o [
      | none ↦ record { path = q; kind = added } ∷ rest
      | some old ↦ if text_eq old sig then rest else record { path = q; kind = modified } ∷ rest
    ])
fresh_step q sig none rest h d = (h, d)
fresh_step q sig (some old) rest h d =
    elim (text_eq old sig)
      as (λ b. Distinct (if b then rest else record { path = q; kind = modified } ∷ rest)) [
        | true ↦ d
        | false ↦ (h, d)
      ]

gone_step :
    (q : Text) (o : Option Text) (rest : List Change)
    → change_at q rest ≡ none
    → Distinct rest
    → Distinct (elim o [ none ↦ record { path = q; kind = removed } ∷ rest | some sig ↦ rest ])
gone_step q none rest h d = (h, d)
gone_step q (some sig) rest h d = d

fresh-Distinct : (before now : Dict Text) → IsSorted now → Distinct (fresh before now)
unfolding fresh
fresh-Distinct before [] s = tt
fresh-Distinct before ((q, sig) ∷ now) s =
    let absent : change_at q (fresh before now) ≡ none =
      ground (arith, change_at-fresh q before now s.1, lookup-Above q now s.0) in
    fresh_step q sig (lookup q before) _ absent (fresh-Distinct before now s.1)

gone-Distinct : (before now : Dict Text) → IsSorted before → Distinct (gone (keys before) now)
unfolding gone keys
gone-Distinct [] now s = tt
gone-Distinct ((q, sig) ∷ before) now s =
    let absent : change_at q (gone (keys before) now) ≡ none =
      ground (arith, change_at-gone q before now, lookup-Above q before s.0) in
    gone_step q (lookup q now) _ absent (gone-Distinct before now s.1)

apart_tail :
    (p : Text) (c : Change) (cs ds : List Change)
    → (change_at p (c ∷ cs) ≡ none) ⊎ (change_at p ds ≡ none)
    → (change_at p cs ≡ none) ⊎ (change_at p ds ≡ none)
unfolding change_at
apart_tail p c cs ds apart = ground arith

-- A path of `now` is not among those that `now` lacks.
fresh_apart :
    (before now : Dict Text) (p : Text)
    → IsSorted now
    → (change_at p (fresh before now) ≡ none) ⊎ (change_at p (gone (keys before) now) ≡ none)
fresh_apart before now p s =
    ground (arith, change_at-fresh p before now s, change_at-gone p before now)

append-Distinct :
    (cs ds : List Change)
    → Distinct cs
    → Distinct ds
    → ((p : Text) → (change_at p cs ≡ none) ⊎ (change_at p ds ≡ none))
    → Distinct (cs ++ ds)
unfolding change_at
append-Distinct [] ds hc hd apart = hd
append-Distinct (c ∷ cs) ds hc hd apart =
    let first : change_at c.path (cs ++ ds) ≡ none =
      ground (arith, hc.0, apart c.path, text_eq_refl c.path, change_at-append c.path cs ds) in
    let apart' = λ (p : Text). apart_tail p c cs ds (apart p) in
    (first, append-Distinct cs ds hc.1 hd apart')

pub diff_flat_exact :
    (before now : Dict Text) (p : Text)
    → IsSorted before
    → IsSorted now
    → change_at p (diff_flat before now) ≡ classify (lookup p before) (lookup p now)
unfolding diff_flat
diff_flat_exact before now p hb hn =
    let added_first = fresh before now in
    let removed_then = gone (keys before) now in
    change_at-sort_changes p (added_first ++ removed_then) (
      append-Distinct added_first removed_then (fresh-Distinct before now hn)
        (gone-Distinct before now hb) (λ q. fresh_apart before now q hn))
    ∙ change_at-append p added_first removed_then
    ∙ ground (arith, change_at-fresh p before now hn, change_at-gone p before now)

tail_absent :
    (p : Text) (e : Change) (cs : List Change)
    → change_at p (e ∷ cs) ≡ none
    → (text_eq e.path p ≡ false) × (change_at p cs ≡ none)
unfolding change_at
tail_absent p e cs h = ground arith

other_absent :
    (p : Text) (c : Change) (cs : List Change)
    → text_eq p c.path ≡ false
    → change_at p cs ≡ none
    → change_at p (c ∷ cs) ≡ none
unfolding change_at
other_absent p c cs h k = ground (arith, text_eq_iff p c.path, text_eq_iff c.path p)

insert-Distinct :
    (c : Change) (cs : List Change)
    → change_at c.path cs ≡ none
    → Distinct cs
    → Distinct (insert_change c cs)
unfolding insert_change
insert-Distinct c [] h d = (h, d)
insert-Distinct c (e ∷ cs) h d =
    elim (compare_text c.path e.path)
      as (λ o. Distinct (elim o [ Ordering.gt ↦ e ∷ insert_change c cs | other ↦ c ∷ e ∷ cs ])) [
        | Ordering.gt ↦ (
          change_at-insert_change e.path c cs (tail_absent c.path e cs h).1
              ∙ other_absent e.path c cs (tail_absent c.path e cs h).0 d.0,
          insert-Distinct c cs (tail_absent c.path e cs h).1 d.1,
        )
        | other ↦ (h, d)
      ]

sort-Distinct : (cs : List Change) → Distinct cs → Distinct (sort_changes cs)
unfolding sort_changes
sort-Distinct [] d = d
sort-Distinct (c ∷ cs) d =
    insert-Distinct c (sort_changes cs) (change_at-sort_changes c.path cs d.1 ∙ d.0)
      (sort-Distinct cs d.1)

pub diff_flat-Distinct :
    (before now : Dict Text) → IsSorted before → IsSorted now → Distinct (diff_flat before now)
unfolding diff_flat
diff_flat-Distinct before now hb hn = sort-Distinct (fresh before now ++ gone (keys before) now) (
    append-Distinct (fresh before now) (gone (keys before) now) (fresh-Distinct before now hn)
      (gone-Distinct before now hb) (λ q. fresh_apart before now q hn))

put_ids-IsSorted : (tag : Text) (m out : Dict Text) → IsSorted out → IsSorted (put_ids tag m out)
unfolding put_ids
put_ids-IsSorted tag [] out s = s
put_ids-IsSorted tag ((rel, h) ∷ m) out s =
    put_ids-IsSorted tag m (insert rel (tag ++ h) out) (insert-IsSorted rel (tag ++ h) out s)

put_dirs-IsSorted :
    (dirs : List Text) (out : Dict Text) → IsSorted out → IsSorted (put_dirs dirs out)
unfolding put_dirs
put_dirs-IsSorted [] out s = s
put_dirs-IsSorted (rel ∷ dirs) out s =
    put_dirs-IsSorted dirs (insert rel (codes "d:") out) (insert-IsSorted rel (codes "d:") out s)

module _ (fmt : Format) where
  put_regions-IsSorted :
      (m : Dict (Dict Text)) (out : Dict Text) → IsSorted out → IsSorted (put_regions fmt m out)
  unfolding put_regions
  put_regions-IsSorted [] out s = s
  put_regions-IsSorted ((rel, chunks) ∷ m) out s =
      put_regions-IsSorted m _ (insert-IsSorted rel _ out s)

  pub flatten-IsSorted : (m : Manifest) → IsSorted (flatten fmt m)
  unfolding flatten
  flatten-IsSorted m = put_dirs-IsSorted m.empty_dirs _ (
      put_ids-IsSorted _ m.blobs _
        (put_ids-IsSorted _ m.nbt _ (put_regions-IsSorted m.regions [] tt)))

  pub diff_exact :
      (head cur : Manifest) (p : Text)
      → change_at p (diff fmt head cur)
        ≡ classify (lookup p (flatten fmt head)) (lookup p (flatten fmt cur))
  unfolding diff
  diff_exact head cur p = diff_flat_exact _ _ p (flatten-IsSorted head) (flatten-IsSorted cur)
