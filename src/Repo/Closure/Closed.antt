-- ===== src/Repo/Closure/Closed.antt =====
-- The walk of `gc` and `reachable`: what is marked is closed under the links between objects.
use mcagit.Common.{
  ℕ, suc, ◌≡◌, refl, arith, List, [], ◌∷◌, true, false, ◌||◌, if◌then◌else◌, none, some, Bool-cases,
  Option-cases, inl, inr,
}
use mcagit.Common.Text.{Text, text_eq, text_eq_iff, text_eq_refl}
use mcagit.Common.Members.{contains}
use mcagit.Repo.Manifest.{CommitObject}
use mcagit.Repo.Result.{Result, ok, err, Result-cases}
use mcagit.Repo.Store.{Format, Repository, read_commit, read_manifest, parents_of, at_boundary}
use mcagit.Repo.Revision.{TagFormat, exists, read_tag_object}
use mcagit.Repo.History.{push_all}
use mcagit.Repo.History.Walk.{contains-push_all}
use mcagit.Repo.Closure.{Marks, mark, mark_all, manifest_ids, mark_tree, expand, close}

pub seen-mark :
    (id j : Text) (m : Marks) → contains (mark id m).seen j ≡ (text_eq id j || contains m.seen j)
unfolding mark contains
seen-mark id j m = ground (arith, text_eq_iff id j)

pub seen-mark_all :
    (ids : List Text) (j : Text) (m : Marks)
    → contains (mark_all ids m).seen j ≡ (contains ids j || contains m.seen j)
unfolding mark_all contains
seen-mark_all [] j m = refl
seen-mark_all (id ∷ ids) j m = ground (arith, seen-mark_all ids j (mark id m), seen-mark id j m)

pub keep_old_one :
    (id j : Text) (m : Marks) → contains m.keep j ≡ true → contains (mark id m).keep j ≡ true
unfolding mark contains
keep_old_one id j m h = ground arith

pub keep_old :
    (ids : List Text) (j : Text) (m : Marks)
    → contains m.keep j ≡ true
    → contains (mark_all ids m).keep j ≡ true
unfolding mark_all
keep_old [] j m h = h
keep_old (id ∷ ids) j m h = keep_old ids j (mark id m) (keep_old_one id j m h)

pub keep-mark :
    (id : Text) (m : Marks) → contains m.seen id ≡ false → contains (mark id m).keep id ≡ true
unfolding mark contains
keep-mark id m h = ground (arith, text_eq_refl id)

keep-mark_all :
    (ids : List Text) (j : Text) (m : Marks)
    → contains ids j ≡ true
    → contains m.seen j ≡ false
    → contains (mark_all ids m).keep j ≡ true
unfolding mark_all contains
keep-mark_all [] j m h n = ground arith
keep-mark_all (id ∷ ids) j m h n = elim (Bool-cases (text_eq id j)) [
  | inl e ↦
      let same = (text_eq_iff id j).0 e in
      keep_old ids j (mark id m) (ground (arith, same, keep-mark id m))
  | inr e ↦ keep-mark_all ids j (mark id m) (ground arith) (ground (arith, seen-mark id j m))
]

module _ (fmt : Format) (tag_format : TagFormat) (repo : Repository) where
  abbrev pub parents_or_nil : Result (List Text) → List Text
  parents_or_nil (ok ps) = ps
  parents_or_nil (err e) = []

  -- The objects that the walk goes to from an object.
  unfoldable pub next_of : Text → List Text
  next_of c = elim (read_tag_object fmt tag_format repo c) [
    | some tag ↦ tag.object ∷ []
    | none ↦ elim (read_commit fmt repo c) [
      | err e ↦ []
      | ok commit ↦ parents_or_nil (parents_of fmt repo c)
    ]
  ]

  -- The tree and the contents that an object names.
  unfoldable pub tree_ids : CommitObject → List Text
  tree_ids commit = elim (read_manifest fmt repo commit.tree) [
    | ok files ↦ commit.tree ∷ manifest_ids files
    | err e ↦ commit.tree ∷ []
  ]

  unfoldable pub leaves_of : Text → List Text
  leaves_of c = elim (read_tag_object fmt tag_format repo c) [
    | some tag ↦ []
    | none ↦ elim (read_commit fmt repo c) [ err e ↦ [] | ok commit ↦ tree_ids commit ]
  ]

  mark_tree_lem :
      (commit : CommitObject) (m : Marks)
      → mark_tree fmt tag_format repo commit m ≡ mark_all (tree_ids commit) m
  unfolding mark_tree mark_all tree_ids
  mark_tree_lem commit m = elim (Result-cases (read_manifest fmt repo commit.tree)) [
    | inl (files, e) ↦ rw (e, mark_tree, tree_ids) refl
    | inr (x, e) ↦ rw (e, mark_tree, tree_ids) refl
  ]

  parents_known :
      (c : Text) (commit : CommitObject)
      → read_commit fmt repo c ≡ ok commit
      → (ps : List Text) × (parents_of fmt repo c ≡ ok ps)
  unfolding parents_of
  parents_known c commit e =
      (if at_boundary fmt repo c then [] else commit.parents, ground (arith, e))

  pub expand_lem :
      (c : Text) (m : Marks)
      → expand fmt tag_format repo c m ≡ ok (mark_all (leaves_of c) m, next_of c)
  unfolding expand next_of leaves_of mark_all
  expand_lem c m = elim (Option-cases (read_tag_object fmt tag_format repo c)) [
    | inr (tag, t) ↦ rw (t, expand, next_of, leaves_of) refl
    | inl t ↦ elim (Result-cases (read_commit fmt repo c)) [
      | inr (x, e) ↦ rw (t, e, expand, next_of, leaves_of) refl
      | inl (commit, e) ↦
          let (ps, known) = parents_known c commit e in
          rw (t, e, known, mark_tree_lem commit m, expand, next_of, leaves_of) refl
    ]
  ]

  -- The marks of a new object that is stored.
  abbrev pub visited : Text → Marks → Marks
  visited c m = mark_all (leaves_of c) (record { keep = c ∷ m.keep; seen = c ∷ m.seen })

  pub close_seen :
      (fuel : ℕ) (c : Text) (stack : List Text) (m : Marks)
      → contains m.seen c ≡ true
      → close fmt tag_format (suc fuel) repo (c ∷ stack) m ≡ close fmt tag_format fuel repo stack m
  unfolding close
  close_seen fuel c stack m h = rw (h, close) refl

  pub close_absent :
      (fuel : ℕ) (c : Text) (stack : List Text) (m : Marks)
      → contains m.seen c ≡ false
      → exists repo c ≡ false
      → close fmt tag_format (suc fuel) repo (c ∷ stack) m
        ≡ close fmt tag_format fuel repo stack (record m { seen = c ∷ m.seen })
  unfolding close
  close_absent fuel c stack m h k = rw (h, k, close) refl

  pub close_new :
      (fuel : ℕ) (c : Text) (stack : List Text) (m : Marks)
      → contains m.seen c ≡ false
      → exists repo c ≡ true
      → close fmt tag_format (suc fuel) repo (c ∷ stack) m
        ≡ close fmt tag_format fuel repo (push_all (next_of c) stack) (visited c m)
  unfolding close
  close_new fuel c stack m h k = rw (h, k, expand_lem c _, close) refl

  -- No id of a tree or a content that an object names is a commit or a tag itself.
  abbrev pub Separate : Type 0
  Separate =
      (c id : Text) → contains (leaves_of c) id ≡ true → (next_of id ≡ []) × (leaves_of id ≡ [])

  -- What is seen and stored is kept; what it names is seen, or waits.
  pub record Closed (m : Marks) (stack : List Text) : Type 0 where
    pub held :
        (id : Text) → contains m.seen id ≡ true → exists repo id ≡ true → contains m.keep id ≡ true
    pub linked :
        (c p : Text)
        → contains m.seen c ≡ true
        → exists repo c ≡ true
        → contains (next_of c) p ≡ true
        → (contains m.seen p || contains stack p) ≡ true
    pub named :
        (c l : Text)
        → contains m.seen c ≡ true
        → exists repo c ≡ true
        → contains (leaves_of c) l ≡ true
        → contains m.seen l ≡ true

  nothing_next :
      (c d p : Text) → Separate → contains (leaves_of c) d ≡ true → contains (next_of d) p ≡ false
  unfolding contains
  nothing_next c d p apart h = rw ((apart c d h).0) refl

  nothing_named :
      (c d l : Text) → Separate → contains (leaves_of c) d ≡ true → contains (leaves_of d) l ≡ false
  unfolding contains
  nothing_named c d l apart h = rw ((apart c d h).1) refl

  pub Closed-seen :
      (m : Marks) (c : Text) (stack : List Text)
      → contains m.seen c ≡ true
      → Closed m (c ∷ stack)
      → Closed m stack
  unfolding contains
  Closed-seen m c stack h k = record {
    held = k.held;
    linked = λ d p hd he hp. ground (arith, k.linked d p hd he hp, text_eq_iff c p, h);
    named = k.named;
  }

  pub Closed-absent :
      (m : Marks) (c : Text) (stack : List Text)
      → exists repo c ≡ false
      → Closed m (c ∷ stack)
      → Closed (record m { seen = c ∷ m.seen }) stack
  unfolding contains
  Closed-absent m c stack h k = record {
    held = λ id hs he. ground (arith, k.held id, text_eq_iff c id, h, hs, he);
    linked = λ d p hd he hp.
        ground (arith, k.linked d p, text_eq_iff c p, text_eq_iff c d, h, hd, he, hp);
    named = λ d l hd he hl. ground (arith, k.named d l, text_eq_iff c d, h, hd, he, hl);
  }

  pub Closed-new :
      (m : Marks) (c : Text) (stack : List Text)
      → Separate
      → contains m.seen c ≡ false
      → Closed m (c ∷ stack)
      → Closed (visited c m) (push_all (next_of c) stack)
  unfolding contains
  Closed-new m c stack apart h k =
      let begun : Marks = record { keep = c ∷ m.keep; seen = c ∷ m.seen } in
      let seen = λ (j : Text). seen-mark_all (leaves_of c) j begun in
      record {
        held = λ id hs he. ground (
          arith,
          seen id,
          k.held id,
          hs,
          he,
          text_eq_iff c id,
          keep-mark_all (leaves_of c) id begun,
          keep_old (leaves_of c) id begun,
        );
        linked = λ d p hd he hp. ground (
          arith,
          seen d,
          seen p,
          hd,
          he,
          hp,
          k.linked d p,
          text_eq_iff c d,
          text_eq_iff c p,
          nothing_next c d p apart,
          contains-push_all (next_of c) stack p,
        );
        named = λ d l hd he hl. ground (
          arith,
          seen d,
          seen l,
          hd,
          he,
          hl,
          k.named d l,
          text_eq_iff c d,
          nothing_named c d l apart,
        );
      }
