-- ===== src/Tests/Merging.antt =====
-- The merge of crates/repo/src/merge.rs on the sample repository.
use mcagit.Common.{
  List, [], ◌∷◌, true, false, some, ◌≡◌, ◌≢◌, ◌⊎◌, inl, inr, refl, ap, sym, arith, Bool-cases,
  subst, Option,
}
use mcagit.Common.Text.{Text, text_eq, text_eq_iff, codes, compare_text}
use mcagit.Common.Members.{contains}
use mcagit.Common.Dict.{lookup, insert, keys, collect, set_insert}
use mcagit.Repo.Result.{ok}
use mcagit.Repo.Store.{
  Repository, read, read_commit, is_object_id, parents_of, read_manifest, write, at_boundary,
}
use mcagit.Repo.Merge.{
  three_way_manifest, three_way, union_keys, merge_key, merge_keys, merge_map, chunks_of,
  merge_region, merge_regions, id_eq,
}
use mcagit.Repo.Manifest.{Manifest}
use mcagit.Repo.Merge.Snapshot.{chunk, entry, three_way_manifest-changes, Clash, Place, path_of}
use mcagit.Repo.History.{
  known_parents, merge_base, ancestors, walk, unvisited, push_all, intersection, undominated,
  dominated, sort, insert_sorted,
}
use mcagit.Repo.History.Walk.{here, step}
use mcagit.Repo.History.Ancestors.{IsAncestor}
use mcagit.Repo.History.Base.{IsBest}
use mcagit.Repo.History.Acyclic.{IsAcyclic, merge_base_exists}
use mcagit.Repo.Merge.Commits.{
  base_snapshot, snapshot_of, snapshots, up_to_date, fast_forward, merged, conflicts, merge,
  store_merge,
}
use mcagit.Repo.Merge.Commits.Outcomes.{merge-up_to_date, merge-fast_forward}
use mcagit.Repo.Merge.Commits.Stored.{Diverged, IsMerged, merge-IsMerged, merge-conflicts}
use mcagit.Repo.Store.Commits.{Storable, with_tree}
use mcagit.Tests.Sample.{
  clashing, clash_id, clash_files, sample, sample_format, depth, hash, root_id, ours_id, theirs_id,
  root_files, ours_files, theirs_files, merged_files,
}

sample_merged : three_way_manifest root_files ours_files theirs_files ≡ (merged_files, [])
unfolding three_way_manifest merge_regions union_keys merge_map collect keys merge_keys set_insert
    compare_text merge_region merge_key chunks_of three_way lookup id_eq text_eq insert
sample_merged = refl

unstored :
    (c : Text)
    → text_eq ours_id c ≡ false
    → text_eq theirs_id c ≡ false
    → text_eq root_id c ≡ false
    → text_eq (hash b'1') c ≡ false
    → text_eq (hash b'2') c ≡ false
    → text_eq (hash b'3') c ≡ false
    → known_parents sample_format sample c ≡ ok []
unfolding known_parents read_commit read lookup
unstored c n1 n2 n3 n4 n5 n6 = ground arith

abbrev Rooted : Text → Type 0
Rooted x =
    (known_parents sample_format sample x ≡ ok [])
    ⊎ ((depth x ≡ 1) × (known_parents sample_format sample x ≡ ok (root_id ∷ [])))

apart : {a b : Text} → text_eq a b ≡ false → a ≢ b
apart {a} {b} h e = ground (arith, text_eq_iff a b)

by_id : (id c : Text) (P : Text → Type 0) → P id → (text_eq id c ≡ false → P c) → P c
by_id id c P same other = elim (Bool-cases (text_eq id c)) [
  | inl e ↦ subst P ((text_eq_iff id c).0 e) same
  | inr n ↦ other n
]

sample_parents : (c : Text) → Rooted c
unfolding known_parents read_commit read parents_of text_eq lookup is_object_id at_boundary
sample_parents c = by_id ours_id c Rooted (inr (refl, refl)) λ n1.
    by_id theirs_id c Rooted (inr (refl, refl)) λ n2. by_id root_id c Rooted (inl refl) λ n3.
      by_id (hash b'1') c Rooted (inl refl) λ n4.
        by_id (hash b'2') c Rooted (inl refl)
          λ n5. by_id (hash b'3') c Rooted (inl refl) λ n6. inl (unstored c n1 n2 n3 n4 n5 n6)

in_root : (p : Text) (ps : List Text) → ps ≡ root_id ∷ [] → contains ps p ≡ true → p ≡ root_id
unfolding contains
in_root p ps e m = ground (arith, text_eq_iff root_id p)

sample-IsAcyclic : IsAcyclic sample_format sample depth
unfolding contains text_eq
sample-IsAcyclic c p ps e m = elim (sample_parents c) [
  | inl no_parents ↦ absurd (ground arith)
  | inr (d, one) ↦
      let q = in_root p ps (ground arith) m in
      let z : depth p ≡ 0 = subst (λ x. depth x ≡ 0) (sym q) refl in rw z (rw d (omega arith))
]

below_ours : IsAncestor sample_format sample ours_id root_id
unfolding known_parents read_commit read is_object_id lookup text_eq parents_of at_boundary contains
below_ours = step here refl refl

below_theirs : IsAncestor sample_format sample theirs_id root_id
unfolding known_parents read_commit read is_object_id lookup text_eq parents_of at_boundary contains
below_theirs = step here refl refl

merge_base_exists_example :
    (m : Text) × (merge_base sample_format sample ours_id theirs_id ≡ ok (some m))
    × IsBest sample_format sample ours_id theirs_id m
merge_base_exists_example =
    merge_base_exists sample_format sample depth sample-IsAcyclic ours_id theirs_id root_id
      below_ours below_theirs

merge-up_to_date_example :
    merge sample_format sample ours_id root_id (codes "m") (codes "x") (codes "t")
    ≡ ok (sample, up_to_date)
merge-up_to_date_example =
    merge-up_to_date sample_format sample depth sample-IsAcyclic ours_id root_id (codes "m")
      (codes "x") (codes "t") below_ours

merge-fast_forward_example :
    merge sample_format sample root_id ours_id (codes "m") (codes "x") (codes "t")
    ≡ ok (sample, fast_forward ours_id)
unfolding text_eq
merge-fast_forward_example =
    merge-fast_forward sample_format sample depth sample-IsAcyclic root_id ours_id (codes "m")
      (codes "x") (codes "t") (apart refl) below_ours

three_way_manifest-changes_example :
    let m = (three_way_manifest root_files ours_files theirs_files).0 in
    let p = chunk (codes "r") (codes "0.1") in
    (entry ours_files p ≢ entry root_files p → entry m p ≡ entry ours_files p)
    × (entry theirs_files p ≢ entry root_files p → entry m p ≡ entry theirs_files p)
    × (entry ours_files p ≡ entry root_files p
        → entry theirs_files p ≡ entry root_files p
        → entry m p ≡ entry root_files p)
three_way_manifest-changes_example =
    three_way_manifest-changes root_files ours_files theirs_files (chunk (codes "r") (codes "0.1"))
      (ap (λ r. r.1) sample_merged)

some_apart : {a b : Text} → text_eq a b ≡ false → some a ≢ some b
some_apart {a} {b} h e = ground (arith, text_eq_iff a b)

sample-Diverged :
    Diverged sample_format sample ours_id theirs_id
      (codes "m")
      (codes "x")
      (codes "t")
      (some root_id)
      root_files
      ours_files
      theirs_files
unfolding text_eq merge_base snapshots ancestors walk contains known_parents unvisited parents_of
    read_commit read lookup is_object_id at_boundary push_all intersection undominated dominated
    sort insert_sorted base_snapshot snapshot_of read_manifest
sample-Diverged = record {
  two = apart refl;
  common = refl;
  behind = some_apart refl;
  ahead = some_apart refl;
  readable = refl;
}

sample-Storable : Storable sample_format sample (codes "4")
unfolding is_object_id lookup text_eq
sample-Storable = record {
  valid = refl;
  single = record { packed_only = inl refl; loose_only = inl refl; intact = refl };
}

commit_Storable :
    let m = (three_way_manifest root_files ours_files theirs_files).0 in
    Storable sample_format (with_tree sample_format sample m) (codes "d")
unfolding is_object_id lookup write insert text_eq compare_text
commit_Storable = record {
  valid = refl;
  single = record { packed_only = inl refl; loose_only = inl refl; intact = refl };
}

merge-IsMerged_example :
    let m = (three_way_manifest root_files ours_files theirs_files).0 in
    (repo' : Repository) × (c : Text) × (merge sample_format sample ours_id theirs_id
        (codes "m")
        (codes "x")
        (codes "t")
      ≡ ok (repo', merged c))
    × IsMerged sample_format sample m ours_id theirs_id (codes "m") (codes "x") (codes "t") repo' c
unfolding write lookup text_eq
merge-IsMerged_example =
    merge-IsMerged sample_format sample ours_id theirs_id (codes "m") (codes "x") (codes "t")
      sample-Diverged (ap (λ r. r.1) sample_merged) sample-Storable commit_Storable
      (ap (λ r. some r.0) (sym sample_merged)) refl

sample_clash : (three_way_manifest root_files theirs_files clash_files).1 ≡ codes "level.dat" ∷ []
unfolding three_way_manifest merge_map merge_keys union_keys collect keys set_insert compare_text
    merge_key three_way id_eq lookup text_eq merge_regions merge_region chunks_of
sample_clash = refl

clashing_merged :
    merge sample_format clashing theirs_id clash_id (codes "m") (codes "x") (codes "t")
    ≡ ok (clashing, conflicts (codes "level.dat" ∷ []))
unfolding text_eq merge merge_base snapshots ancestors walk contains known_parents unvisited
    parents_of read_commit read lookup is_object_id at_boundary push_all intersection undominated
    dominated sort insert_sorted base_snapshot snapshot_of read_manifest three_way_manifest
    merge_map merge_keys union_keys collect keys set_insert compare_text merge_key three_way id_eq
    merge_regions merge_region chunks_of store_merge
clashing_merged = refl

merge-conflicts_example :
    (clashing ≡ clashing)
    × (base : Option Text) × (mb : Manifest) × (mo : Manifest) × (mt : Manifest) × Diverged
        sample_format clashing theirs_id clash_id
        (codes "m")
        (codes "x")
        (codes "t")
        base
        mb
        mo
        mt
    × (¬ ((p : Place) → ¬ Clash mb mo mt p))
    × ((p : Place) → Clash mb mo mt p → contains (codes "level.dat" ∷ []) (path_of p) ≡ true)
merge-conflicts_example =
    merge-conflicts sample_format clashing theirs_id clash_id (codes "m") (codes "x") (codes "t")
      clashing (codes "level.dat" ∷ []) clashing_merged
