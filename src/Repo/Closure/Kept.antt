-- ===== src/Repo/Closure/Kept.antt =====
-- Garbage collection keeps every object that is needed.
use mcagit.Common.{
  ℕ, zero, suc, ◌≡◌, ◌⊎◌, refl, sym, subst, ◌∙◌, arith, List, [], ◌∷◌, Bool, true, false, ◌||◌,
  if◌then◌else◌, Option, none, some, Bool-cases, Option-cases, inl, inr,
}
use mcagit.Common.Text.{Text, text_eq, text_eq_iff}
use mcagit.Common.Members.{contains}
use mcagit.Common.Dict.{Dict, lookup, lookup-insert}
use mcagit.Repo.Result.{Result, ok, err, >>=-eq-ok, Result-cases}
use mcagit.Repo.Store.{Format, Repository, read, is_object_id}
use mcagit.Repo.Directory.{Directory}
use mcagit.Repo.Revision.{TagFormat, exists}
use mcagit.Repo.History.{push_all}
use mcagit.Repo.History.Walk.{contains-push_all}
use mcagit.Repo.Closure.{
  Marks, mark, no_marks, tips, close, close_fuel, mark_staged, staged_ids, read_index, add_object,
  pack_of, gc,
}
use mcagit.Repo.Closure.Closed.{
  seen-mark_all, keep_old_one, next_of, leaves_of, visited, close_seen, close_absent, close_new,
  Separate, Closed, Closed-seen, Closed-absent, Closed-new,
}

fits :
    (b : Bool) (v : Option Text) {o : Option Text}
    → o ≡ (if b then v else none)
    → (o ≡ none) ⊎ (o ≡ v)
fits true v e = inr e
fits false v e = inl e

lookup_nil : (j : Text) → lookup {V = Text} j [] ≡ none
unfolding lookup
lookup_nil j = refl

module _ (fmt : Format) (tag_format : TagFormat) (repo : Repository) where
  -- What can be reached from the tips, trees and contents included.
  pub data Needed (roots : List Text) : Text → Type 0 where
    root : {c : Text} → contains roots c ≡ true → Needed roots c
    linked :
        {c p : Text}
        → Needed roots c
        → exists repo c ≡ true
        → contains (next_of fmt tag_format repo c) p ≡ true
        → Needed roots p
    named :
        {c l : Text}
        → Needed roots c
        → exists repo c ≡ true
        → contains (leaves_of fmt tag_format repo c) l ≡ true
        → Needed roots l

  -- The roots are seen or wait.
  abbrev Rooted : List Text → Marks → List Text → Type 0
  Rooted roots m stack =
      (c : Text) → contains roots c ≡ true → (contains m.seen c || contains stack c) ≡ true

  seen_visited :
      (c j : Text) (m : Marks)
      → contains (visited fmt tag_format repo c m).seen j
        ≡ (contains (leaves_of fmt tag_format repo c) j || (text_eq c j || contains m.seen j))
  unfolding contains
  seen_visited c j m =
      seen-mark_all (leaves_of fmt tag_format repo c) j
        (record { keep = c ∷ m.keep; seen = c ∷ m.seen })

  close-Closed :
      (roots : List Text) (fuel : ℕ) (stack : List Text) (m out : Marks)
      → Separate fmt tag_format repo
      → close fmt tag_format fuel repo stack m ≡ ok out
      → Closed fmt tag_format repo m stack
      → Rooted roots m stack
      → Closed fmt tag_format repo out [] × Rooted roots out []
  unfolding close contains
  close-Closed roots fuel [] m out apart e k r =
      let same : out ≡ m = cc in
      subst (λ (n : Marks). Closed fmt tag_format repo n [] × Rooted roots n []) (sym same) (k, r)
  close-Closed roots zero (c ∷ stack) m out apart e k r = cc
  close-Closed roots (suc fuel) (c ∷ stack) m out apart e k r =
      elim (Bool-cases (contains m.seen c)) [
        | inl seen ↦
            close-Closed roots fuel stack m out apart
              (sym (close_seen fmt tag_format repo fuel c stack m seen) ∙ e)
              (Closed-seen fmt tag_format repo m c stack seen k)
              (λ d h. ground (arith, r d h, text_eq_iff c d, seen))
        | inr new ↦ elim (Bool-cases (exists repo c)) [
          | inr gone ↦
              close-Closed roots fuel stack (record m { seen = c ∷ m.seen }) out apart
                (sym (close_absent fmt tag_format repo fuel c stack m new gone) ∙ e)
                (Closed-absent fmt tag_format repo m c stack gone k) (λ d h. ground (arith, r d h))
          | inl stored ↦
              close-Closed roots fuel (push_all (next_of fmt tag_format repo c) stack)
                (visited fmt tag_format repo c m) out apart
                (sym (close_new fmt tag_format repo fuel c stack m new stored) ∙ e)
                (Closed-new fmt tag_format repo m c stack apart new k)
                (λ d h. ground (
                  arith,
                  r d h,
                  seen_visited c d m,
                  contains-push_all (next_of fmt tag_format repo c) stack d,
                ))
        ]
      ]

  Needed-kept :
      (roots : List Text) (out : Marks) (id : Text)
      → Closed fmt tag_format repo out []
      → Rooted roots out []
      → Needed roots id
      → contains out.seen id ≡ true
  unfolding contains
  Needed-kept roots out id k r (root h) = ground (arith, r id h)
  Needed-kept roots out id k r (linked {c} n e h) =
      ground (arith, k.linked c id (Needed-kept roots out c k r n) e h)
  Needed-kept roots out id k r (named {c} n e h) = k.named c id (Needed-kept roots out c k r n) e h

  abbrev ok_value : Result Text → Option Text
  ok_value (ok content) = some content
  ok_value (err e) = none

  lookup-add_object :
      (id j : Text) (pack : Dict Text)
      → (lookup id pack ≡ none) ⊎ (lookup id pack ≡ ok_value (read repo id))
      → lookup j (add_object repo id pack)
        ≡ (if text_eq id j then ok_value (read repo id) else lookup j pack)
  unfolding add_object
  lookup-add_object id j pack h = elim (Option-cases (lookup id pack)) [
    | inr (old, e) ↦ rw (e, add_object) (ground (arith, h, e, text_eq_iff id j))
    | inl e ↦ elim (Result-cases (read repo id)) [
      | inl (content, g) ↦ rw (e, g, add_object) (lookup-insert id j content pack)
      | inr (x, g) ↦ rw (e, g, add_object) (ground (arith, e, text_eq_iff id j))
    ]
  ]

  lookup-pack_of :
      (ids : List Text) (j : Text)
      → lookup j (pack_of repo ids) ≡ (if contains ids j then ok_value (read repo j) else none)
  unfolding pack_of contains
  lookup-pack_of [] j = lookup_nil j
  lookup-pack_of (id ∷ ids) j =
      let ready = fits (contains ids id) (ok_value (read repo id)) (lookup-pack_of ids id) in
      lookup-add_object id j (pack_of repo ids) ready
      ∙ ground (arith, text_eq_iff id j, lookup-pack_of ids j)

  -- What can be read is stored under a well-formed id.
  read_stored :
      (id content : Text)
      → read repo id ≡ ok content
      → (exists repo id ≡ true) × (is_object_id id ≡ true)
  unfolding read exists
  read_stored id content g = elim (Option-cases (lookup id repo.packed)) [
    | inr (x, p) ↦ (ground (arith, p, g), ground (arith, g))
    | inl p ↦ elim (Option-cases (lookup id repo.loose)) [
      | inr (x, q) ↦ (ground (arith, p, q, g), ground (arith, g))
      | inl q ↦ absurd (ground (arith, p, q, g))
    ]
  ]

  -- The repository that `gc` leaves.
  abbrev repacked : List Text → Repository
  repacked kept = record repo { packed = pack_of repo kept; loose = []; damaged = λ id. false }

  -- A pack of kept objects reads as the repository did.
  read_packed :
      (kept : List Text) (id content : Text)
      → contains kept id ≡ true
      → read repo id ≡ ok content
      → read (repacked kept) id ≡ ok content
  unfolding read
  read_packed kept id content h g =
      let (stored, well) = read_stored id content g in
      let found : lookup id (pack_of repo kept) ≡ some content =
        lookup-pack_of kept id ∙ rw (h, g) refl in
      rw (well, found, read) refl

  mark_staged_keeps :
      (ids : List Text) (m : Marks) (id : Text)
      → contains m.keep id ≡ true
      → contains (mark_staged repo ids m).keep id ≡ true
  unfolding mark_staged
  mark_staged_keeps [] m id h = h
  mark_staged_keeps (j ∷ ids) m id h =
      mark_staged_keeps ids (if exists repo j then mark j m else m) id
        (elim (Bool-cases (exists repo j)) [
          | inl e ↦ rw e (keep_old_one j id m h)
          | inr e ↦ rw e h
        ])

  start-Closed : (stack : List Text) → Closed fmt tag_format repo no_marks stack
  unfolding contains
  start-Closed stack = record {
    held = λ id h e. cc;
    linked = λ c p h e g. cc;
    named = λ c l h e g. cc;
  }

  -- Suppose that no tree and no content that a commit names can itself be read as a commit or a
  -- tag. If gc returns, then every object that can be read and can be reached from the tips, over
  -- tags, parents, trees and the contents of manifests, reads after it as it did before.
  pub gc_keeps :
      (dir : Directory) (repo' : Repository) (counts : ℕ × ℕ) (id content : Text)
      → Separate fmt tag_format repo
      → gc fmt tag_format repo dir ≡ ok (repo', counts)
      → Needed (tips dir) id
      → read repo id ≡ ok content
      → read repo' id ≡ ok content
  unfolding gc contains
  gc_keeps dir repo' counts id content apart e n g =
      let stack = push_all (tips dir) [] in
      let (m, e1, f1) =
        >>=-eq-ok (close fmt tag_format (close_fuel fmt tag_format repo stack) repo stack no_marks)
          _ e in
      let (staged, e2, f2) = >>=-eq-ok (read_index fmt tag_format dir) _ f1 in
      let (closed, rooted) =
        close-Closed (tips dir) _ stack no_marks m apart e1 (start-Closed stack)
          (λ c h. ground (arith, contains-push_all (tips dir) [] c, h)) in
      let kept =
        closed.held id (Needed-kept (tips dir) m id closed rooted n) (read_stored id content g).0 in
      let marks = mark_staged repo (staged_ids staged) m in
      let same : repo' ≡ repacked marks.keep = cc in
      rw same
        (read_packed marks.keep id content (mark_staged_keeps (staged_ids staged) m id kept) g)
