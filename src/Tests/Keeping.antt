-- ===== src/Tests/Keeping.antt =====
-- References, revisions and garbage collection at concrete inputs.
use mcagit.Common.{
  ℕ, ◌≡◌, ◌≢◌, refl, sym, subst, arith, [], ◌∷◌, Bool, true, false, none, some, ◌||◌, if◌then◌else◌,
  replicate, Option-cases, Bool-cases, ◌∙◌, inl, inr, ◌⊎◌, ◌++◌, ◌↔◌,
}
use mcagit.Common.Text.{Text, codes, text_eq, text_eq_iff, compare_text}
use mcagit.Common.Members.{contains}
use mcagit.Common.Dict.{collect, keys, set_insert, lookup, insert}
use mcagit.Common.Split.{
  split, strip_last, split_once, strip_prefix, trim, trim_start, trim_from, space_at, latin_space,
  wide_space, trim_end,
}
use mcagit.Repo.Manifest.{CommitObject}
use mcagit.Repo.Result.{Result, ok, err, >>=-eq-ok, diverged, Result-cases, bad_json}
use mcagit.Repo.Store.{
  Format, Repository, read, read_commit, read_manifest, parents_of, is_object_id, at_boundary,
  from_json,
}
use mcagit.Repo.Directory.{
  Directory, entries_in, read_dir, create_parents, write_file, parents_from, any_file, read_file,
  canonical, solid, slashed, ends_blank, file_key,
}
use mcagit.Repo.History.{push_all}
use mcagit.Repo.Refs.{
  safe_ref_name, read_branch, read_trimmed, write_ref, append_reflog, write_branch, branches, tags,
  read_tag, head_commit,
}
use mcagit.Repo.Refs.Laws.{read_branch-write_branch}
use mcagit.Repo.Revision.{
  TagFormat, resolve_ref, resolve_base, exists, read_tag_object, try_from_json,
}
use mcagit.Repo.Revision.Operators.{up, parent, print, Leads, resolve_ref-Leads}
use mcagit.Repo.Revision.Total.{resolve_ref-ne-diverged}
use mcagit.Repo.Closure.{
  read_each, add_object, all_ids, chunk_ids, expand, links, manifest_ids, mark, mark_all,
  mark_staged, mark_tree, read_index, values_of, gc, tips, close, pack_of,
}
use mcagit.Repo.Closure.Closed.{next_of, leaves_of, tree_ids, Separate}
use mcagit.Repo.Closure.Kept.{Needed, root, named, gc_keeps}
use mcagit.Repo.Closure.Total.{gc_total}

abbrev id_of : ℕ → Text
id_of c = replicate 64 c

abbrev first_commit : CommitObject
first_commit = record {
  tree = id_of b'2';
  parents = [];
  message = [];
  author = [];
  time = [];
  committer = none;
  commit_time = none;
  signature = none;
}

-- One text is a commit, none is a manifest or a tag.
abbrev small_format : Format
small_format = record {
  digest = λ t. id_of b'9';
  commit_to_json = λ c. codes "c";
  commit_from_json = λ t. if text_eq t (codes "c") then some first_commit else none;
  manifest_to_json = λ m. codes "m";
  manifest_from_json = λ t. none;
}

abbrev no_tags : TagFormat
no_tags = record { tag_to_json = λ t. codes "t"; tag_from_json = λ t. none }

abbrev small_repo : Repository
small_repo = record {
  packed = (id_of b'1', codes "c") ∷ [];
  loose = (id_of b'2', codes "m") ∷ (id_of b'3', codes "junk") ∷ [];
  damaged = λ id. false;
  shallow = none;
}

abbrev small_dir : Directory
small_dir = record {
  files = (codes "HEAD", codes "ref: refs/heads/main") ∷ (codes "refs/heads/main", id_of b'1') ∷ [];
  dirs = codes "refs/heads" ∷ [];
}

resolve_ref-ne-diverged_example :
    resolve_ref small_format no_tags small_repo small_dir (codes "HEAD~1^2") ≢ err diverged
resolve_ref-ne-diverged_example =
    resolve_ref-ne-diverged small_format no_tags small_repo small_dir (codes "HEAD~1^2")

resolve_ref-Leads_example :
    (resolve_ref small_format no_tags small_repo small_dir
        (codes "HEAD" ++ print (up (some 0) ∷ parent none ∷ []))
      ≡ ok (id_of b'1'))
    ↔ ((h : Text) × (resolve_base small_format no_tags small_repo small_dir (codes "HEAD") ≡ ok h)
        × Leads small_format no_tags small_repo h (up (some 0) ∷ parent none ∷ []) (id_of b'1'))
resolve_ref-Leads_example =
    resolve_ref-Leads small_format no_tags small_repo small_dir (codes "HEAD")
      (up (some 0) ∷ parent none ∷ []) (id_of b'1') (refl, (refl, (refl, (refl, tt))))
      (omega arith, (omega arith, tt))

abbrev dir_or : Result Directory → Directory
dir_or (ok d) = d
dir_or (err e) = small_dir

moved_dir : Directory
moved_dir = dir_or (write_branch small_dir (codes "f/o") (codes "abc"))

small_dir-moved : write_branch small_dir (codes "f/o") (codes "abc") ≡ ok moved_dir
unfolding moved_dir write_branch safe_ref_name strip_last split_once strip_prefix write_ref
    create_parents any_file parents_from lookup text_eq write_file contains append_reflog insert
    compare_text split canonical solid slashed ends_blank file_key
small_dir-moved = refl

read_branch-write_branch_example :
    (read_branch moved_dir (codes "f/.//o") ≡ some (codes "abc"))
    × (read_tag moved_dir (codes "f/.//o") ≡ read_tag small_dir (codes "f/.//o"))
unfolding text_eq file_key canonical split solid slashed ends_blank safe_ref_name strip_last
    split_once strip_prefix
read_branch-write_branch_example =
    read_branch-write_branch small_dir moved_dir (codes "f/o") (codes "abc") (codes "f/.//o")
      small_dir-moved (refl, (refl, refl))

only_commit :
    (content : Text) (x : CommitObject)
    → from_json (small_format.commit_from_json content) ≡ ok x
    → x ≡ first_commit
unfolding from_json
only_commit content x e = elim (Bool-cases (text_eq content (codes "c"))) [
  | inl t ↦ let f : from_json (some first_commit) ≡ ok x = sym (rw t refl) ∙ e in cc
  | inr t ↦ let f : from_json {A = CommitObject} none ≡ ok x = sym (rw t refl) ∙ e in cc
]

read_only :
    (c : Text) (x : CommitObject) → read_commit small_format small_repo c ≡ ok x → x ≡ first_commit
unfolding read_commit
read_only c x e = let (content, g, f) = >>=-eq-ok (read small_repo c) _ e in only_commit content x f

one_leaf : tree_ids small_format no_tags small_repo first_commit ≡ id_of b'2' ∷ []
unfolding tree_ids read_manifest read is_object_id lookup text_eq from_json
one_leaf = refl

or_false : (b : Bool) → (b || false) ≡ true → b ≡ true
or_false b h = ground arith

small_leaves :
    (c id : Text)
    → contains (leaves_of small_format no_tags small_repo c) id ≡ true
    → id_of b'2' ≡ id
unfolding contains leaves_of
small_leaves c id h = elim (Option-cases (read_tag_object small_format no_tags small_repo c)) [
  | inr (tag, t) ↦ let none_left : contains [] id ≡ true = rw (t, leaves_of) at h in cc
  | inl t ↦ elim (Result-cases (read_commit small_format small_repo c)) [
    | inr (x, e) ↦ let none_left : contains [] id ≡ true = rw (t, e, leaves_of) at h in cc
    | inl (x, e) ↦
        let one : contains (id_of b'2' ∷ []) id ≡ true =
          rw (t, e, read_only c x e, one_leaf, leaves_of) at h in
        (text_eq_iff (id_of b'2') id).0 (or_false _ one)
  ]
]

leaf_ends :
    (next_of small_format no_tags small_repo (id_of b'2') ≡ [])
    × (leaves_of small_format no_tags small_repo (id_of b'2') ≡ [])
unfolding next_of leaves_of read_tag_object read_commit read is_object_id lookup text_eq from_json
    try_from_json
leaf_ends = (refl, refl)

small_repo-Separate : Separate small_format no_tags small_repo
small_repo-Separate c id h =
    subst
      (λ (i : Text).
        (next_of small_format no_tags small_repo i ≡ [])
        × (leaves_of small_format no_tags small_repo i ≡ []))
      (small_leaves c id h) leaf_ends

abbrev repo_or : Result (Repository × (ℕ × ℕ)) → Repository × (ℕ × ℕ)
repo_or (ok r) = r
repo_or (err e) = (small_repo, (0, 0))

collected : Repository × (ℕ × ℕ)
collected = repo_or (gc small_format no_tags small_repo small_dir)

small_repo-collected : gc small_format no_tags small_repo small_dir ≡ ok (collected.0, collected.1)
unfolding collected read_file canonical solid slashed ends_blank file_key gc close push_all tips
    head_commit lookup text_eq strip_prefix trim trim_start trim_from space_at latin_space
    wide_space trim_end read_branch safe_ref_name strip_last split_once read_trimmed read_each
    branches collect insert keys set_insert contains split compare_text add_object all_ids chunk_ids
    expand links manifest_ids mark mark_all mark_staged mark_tree pack_of read_index values_of
    entries_in read_dir read_tag tags exists read_tag_object try_from_json at_boundary from_json
    is_object_id parents_of read read_commit read_manifest
small_repo-collected = refl

tip_stored : exists small_repo (id_of b'1') ≡ true
unfolding exists is_object_id lookup text_eq
tip_stored = refl

tip_is_root : contains (tips small_dir) (id_of b'1') ≡ true
unfolding contains tips head_commit lookup text_eq strip_prefix trim trim_start trim_from space_at
    latin_space wide_space trim_end read_branch safe_ref_name strip_last split_once read_trimmed
    read_file canonical solid slashed ends_blank file_key split
tip_is_root = refl

tree_is_leaf : contains (leaves_of small_format no_tags small_repo (id_of b'1')) (id_of b'2') ≡ true
unfolding contains leaves_of read_tag_object read is_object_id lookup text_eq try_from_json
    read_commit tree_ids read_manifest
tree_is_leaf = refl

tree-Needed : Needed small_format no_tags small_repo (tips small_dir) (id_of b'2')
tree-Needed = named {c = id_of b'1'} (root tip_is_root) tip_stored tree_is_leaf

tree_readable : read small_repo (id_of b'2') ≡ ok (codes "m")
unfolding read is_object_id lookup text_eq
tree_readable = refl

gc_keeps_example : read collected.0 (id_of b'2') ≡ ok (codes "m")
gc_keeps_example =
    gc_keeps small_format no_tags small_repo small_dir collected.0 collected.1 (id_of b'2')
      (codes "m") small_repo-Separate small_repo-collected tree-Needed tree_readable

gc_total_example :
    ((r : Repository × (ℕ × ℕ)) × (gc small_format no_tags small_repo small_dir ≡ ok r))
    ⊎ ((read_index small_format no_tags small_dir ≡ err bad_json)
        × (gc small_format no_tags small_repo small_dir ≡ err bad_json))
gc_total_example = gc_total small_format no_tags small_repo small_dir
