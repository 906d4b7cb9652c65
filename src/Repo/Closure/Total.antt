-- ===== src/Repo/Closure/Total.antt =====
-- The walk of `gc` and `reachable` ends: the fuel covers what every stored object can push.
use mcagit.Common.{
  ℕ, zero, suc, ◌+◌, ◌-◌, ◌≤◌, ◌≡◌, ◌⊎◌, inl, inr, refl, ap, arith, List, [], ◌∷◌, true, false,
  none, some, Option, length, Bool-cases, Option-cases, ◌∙◌,
}
use mcagit.Common.Text.{Text, codes, text_eq_iff}
use mcagit.Common.Members.{contains}
use mcagit.Common.Dict.{Dict, lookup}
use mcagit.Repo.Manifest.{Manifest}
use mcagit.Repo.Result.{ok, err, Result-cases, bad_json}
use mcagit.Repo.Store.{Format, Repository, read, read_commit, parents_of}
use mcagit.Repo.Directory.{Directory}
use mcagit.Repo.Revision.{TagFormat, exists, read_tag_object}
use mcagit.Repo.History.{push_all, parent_count}
use mcagit.Repo.History.Walk.{length-push_all}
use mcagit.Repo.History.Fuel.{parents_of_count}
use mcagit.Repo.Closure.{
  Marks, no_marks, close, close_fuel, links, gc, reachable, read_index, tips, mark_staged,
  staged_ids, all_ids, pack_of,
}
use mcagit.Repo.Closure.Closed.{
  next_of, leaves_of, visited, close_seen, close_absent, close_new, seen-mark_all,
}

-- One set of seen ids holds another.
abbrev Within : List Text → List Text → Type 0
Within set seen = (j : Text) → contains set j ≡ true → contains seen j ≡ true

module _ (fmt : Format) (tag_format : TagFormat) where
  links_mono :
      (set seen : List Text) (m : Dict Text)
      → Within set seen
      → links fmt tag_format seen m ≤ links fmt tag_format set m
  unfolding links
  links_mono set seen [] w = omega arith
  links_mono set seen ((id, content) ∷ m) w =
      let rest = links_mono set seen m w in
      elim (Bool-cases (contains set id)) [
        | inl e ↦ rw (e, w id e) (omega (arith, rest))
        | inr e ↦ ground (arith, e, rest)
      ]

  links-pays :
      (set seen : List Text) (c : Text) (m : Dict Text) (content : Text)
      → contains set c ≡ false
      → contains seen c ≡ true
      → Within set seen
      → lookup c m ≡ some content
      → suc (parent_count fmt content) + links fmt tag_format seen m ≤ links fmt tag_format set m
  unfolding links lookup
  links-pays set seen c [] content n s w h = cc
  links-pays set seen c ((id, x) ∷ m) content n s w h = ground (
    arith,
    n,
    s,
    text_eq_iff id c,
    text_eq_iff c id,
    w id,
    links_mono set seen m w,
    links-pays set seen c m content,
  )

  module _ (repo : Repository) where
    abbrev left : List Text → ℕ
    left seen = links fmt tag_format seen repo.packed + links fmt tag_format seen repo.loose

    left_mono : (set seen : List Text) → Within set seen → left seen ≤ left set
    left_mono set seen w =
        omega (arith, links_mono set seen repo.packed w, links_mono set seen repo.loose w)

    -- A stored object that becomes seen pays for its links.
    left-pays :
        (set seen : List Text) (c : Text)
        → contains set c ≡ false
        → contains seen c ≡ true
        → Within set seen
        → exists repo c ≡ true
        → (content : Text) × ((x : Text) → read repo c ≡ ok x → x ≡ content)
          × (suc (parent_count fmt content) + left seen ≤ left set)
    unfolding exists read
    left-pays set seen c n s w e = elim (Option-cases (lookup c repo.packed)) [
      | inr (content, p) ↦ (
        content,
        λ x r. ground (arith, p, r),
        omega (
          arith,
          links-pays set seen c repo.packed content n s w p,
          links_mono set seen repo.loose w,
        ),
      )
      | inl p ↦ elim (Option-cases (lookup c repo.loose)) [
        | inr (content, q) ↦ (
          content,
          λ x r. ground (arith, p, q, r),
          omega (
            arith,
            links-pays set seen c repo.loose content n s w q,
            links_mono set seen repo.packed w,
          ),
        )
        | inl q ↦ absurd (ground (arith, p, q, e))
      ]
    ]

    -- An object pushes no more than its parents, or the target of a tag.
    next_of_few :
        (c content : Text)
        → ((x : Text) → read repo c ≡ ok x → x ≡ content)
        → length (next_of fmt tag_format repo c) ≤ suc (parent_count fmt content)
    unfolding next_of
    next_of_few c content r = elim (Option-cases (read_tag_object fmt tag_format repo c)) [
      | inr (tag, t) ↦ rw (t, next_of) (omega arith)
      | inl t ↦ elim (Result-cases (read_commit fmt repo c)) [
        | inr (x, e) ↦ rw (t, e, next_of) (omega arith)
        | inl (commit, e) ↦ elim (Result-cases (parents_of fmt repo c)) [
          | inr (x, p) ↦ rw (t, e, p, next_of) (omega arith)
          | inl (ps, p) ↦
              rw (t, e, p, next_of)
                (elim (parents_of_count fmt repo c ps p) [
                  | inl empty ↦ omega (arith, ap length empty)
                  | inr (other, r', count) ↦
                      let same : other ≡ content = r other r' in
                      omega (arith, count, ap (parent_count fmt) same)
                ])
        ]
      ]
    ]

    visited-Within :
        (c : Text) (m : Marks)
        → Within m.seen (visited fmt tag_format repo c m).seen
          × (contains (visited fmt tag_format repo c m).seen c ≡ true)
    unfolding contains
    visited-Within c m = (
      λ j h. ground (
        arith,
        h,
        seen-mark_all (leaves_of fmt tag_format repo c) j
            (record { keep = c ∷ m.keep; seen = c ∷ m.seen }),
      ),
      ground (
        arith,
        text_eq_iff c c,
        seen-mark_all (leaves_of fmt tag_format repo c) c
            (record { keep = c ∷ m.keep; seen = c ∷ m.seen }),
      ),
    )

    close_total :
        (fuel : ℕ) (stack : List Text) (m : Marks)
        → length stack + left m.seen ≤ fuel
        → (m' : Marks) × (close fmt tag_format fuel repo stack m ≡ ok m')
    unfolding close contains
    close_total fuel [] m h = (m, refl)
    close_total zero (c ∷ stack) m h = absurd (omega arith)
    close_total (suc fuel) (c ∷ stack) m h = elim (Bool-cases (contains m.seen c)) [
      | inl s ↦
          let (m', e) = close_total fuel stack m (omega arith) in
          (m', close_seen fmt tag_format repo fuel c stack m s ∙ e)
      | inr n ↦ elim (Bool-cases (exists repo c)) [
        | inr a ↦
            let (m', e) =
              close_total fuel stack (record m { seen = c ∷ m.seen })
                (omega (arith, left_mono m.seen (c ∷ m.seen) λ j h. ground (arith, h))) in
            (m', close_absent fmt tag_format repo fuel c stack m n a ∙ e)
        | inl x ↦
            let (w, s) = visited-Within c m in
            let next = visited fmt tag_format repo c m in
            let (content, r, pays) = left-pays m.seen next.seen c n s w x in
            let ps = next_of fmt tag_format repo c in
            let (m', e) =
              close_total fuel (push_all ps stack) next
                (omega (arith, length-push_all ps stack, next_of_few c content r, pays)) in
            (m', close_new fmt tag_format repo fuel c stack m n x ∙ e)
      ]
    ]

    index_cases :
        (dir : Directory)
        → ((staged : Option Manifest) × (read_index fmt tag_format dir ≡ ok staged))
          ⊎ (read_index fmt tag_format dir ≡ err bad_json)
    unfolding read_index
    index_cases dir = elim (Option-cases (lookup (codes "index") dir.files)) [
      | inl n ↦ inl (none, rw (n, read_index) refl)
      | inr (text, s) ↦ elim (Option-cases (fmt.manifest_from_json text)) [
        | inl n ↦ inr (rw (s, n, read_index) refl)
        | inr (x, f) ↦ inl (some x, rw (s, f, read_index) refl)
      ]
    ]

    -- gc returns on every repository, a cyclic or damaged one too, unless the file of the staging
    -- index is not the JSON of a manifest, and then with that error.
    pub gc_total :
        (dir : Directory)
        → ((r : Repository × (ℕ × ℕ)) × (gc fmt tag_format repo dir ≡ ok r))
          ⊎ ((read_index fmt tag_format dir ≡ err bad_json)
              × (gc fmt tag_format repo dir ≡ err bad_json))
    unfolding gc
    gc_total dir =
        let stack = push_all (tips dir) [] in
        let (m, e) =
          close_total (close_fuel fmt tag_format repo stack) stack no_marks (omega arith) in
        elim (index_cases dir) [
          | inl (staged, i) ↦
              let kept = (mark_staged repo (staged_ids staged) m).keep in
              let counts : ℕ × ℕ = (length kept, length (all_ids repo) - length kept) in
              inl (
                (
                  record repo { packed = pack_of repo kept; loose = []; damaged = λ id. false },
                  counts,
                ),
                rw (e, i, gc) refl,
              )
          | inr i ↦ inr (i, rw (e, i, gc) refl)
        ]

    -- `reachable` returns on every repository and from every object.
    pub reachable_total :
        (tip : Text) → (ids : List Text) × (reachable fmt tag_format repo tip ≡ ok ids)
    unfolding reachable
    reachable_total tip =
        let (m, e) =
          close_total (close_fuel fmt tag_format repo (tip ∷ [])) (tip ∷ []) no_marks
            (omega arith) in
        (m.keep, rw (e, reachable) refl)
