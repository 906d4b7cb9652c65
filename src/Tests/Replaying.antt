-- ===== src/Tests/Replaying.antt =====
-- crates/repo/src/replay.rs on the sample repository.
use mcagit.Common.{[], ◌∷◌, ◌++◌, take, some, if◌then◌else◌, ◌≡◌, inl, refl}
use mcagit.Common.Text.{Text, text_eq, compare_text, codes}
use mcagit.Common.Dict.{lookup, insert}
use mcagit.Repo.Manifest.{Manifest, CommitObject}
use mcagit.Repo.Result.{ok}
use mcagit.Repo.Store.{
  Format, Repository, read_commit, read_manifest, read, write, is_object_id, at_boundary,
  parents_of,
}
use mcagit.Repo.Store.Commits.{Storable, with_tree, new_commit, IsCommitted}
use mcagit.Repo.Merge.{three_way_manifest}
use mcagit.Repo.Merge.Snapshot.{Place, entry}
use mcagit.Repo.Merge.Commits.{snapshot_of}
use mcagit.Repo.Replay.{parent_manifest, done, cherry_pick, revert}
use mcagit.Repo.Replay.Tip.{revert-restores, cherry_pick-replays}
use mcagit.Tests.Sample.{
  hash, sample_format, sample, root_id, ours_id, root_files, ours_files, second_commit,
}

-- The sample's format with one more snapshot and one more commit.
abbrev replay_format : Manifest → CommitObject → Format
replay_format m c = record sample_format {
  manifest_to_json = λ x. codes "6";
  manifest_from_json =
      λ s. if text_eq s (codes "6") then some m else sample_format.manifest_from_json s;
  commit_to_json = λ x. codes "f";
  commit_from_json =
      λ s. if text_eq s (codes "f") then some c else sample_format.commit_from_json s;
}

abbrev reverted_files : Manifest
reverted_files = (three_way_manifest ours_files ours_files root_files).0

abbrev revert_text : Text
revert_text = codes "Revert commit " ++ take 10 ours_id

abbrev revert_commit : CommitObject
revert_commit = new_commit (hash b'6') (ours_id ∷ []) revert_text (codes "x") (codes "t")

abbrev revert_format : Format
revert_format = replay_format reverted_files revert_commit

abbrev picked_files : Manifest
picked_files = (three_way_manifest root_files root_files ours_files).0

abbrev pick_commit : CommitObject
pick_commit = new_commit (hash b'6') (root_id ∷ []) (codes "m") (codes "x") (codes "t")

abbrev pick_format : Format
pick_format = replay_format picked_files pick_commit

module _ (m : Manifest) (c : CommitObject) where
  ours_snapshot : snapshot_of (replay_format m c) sample ours_id ≡ ok ours_files
  unfolding snapshot_of read_commit read is_object_id lookup text_eq read_manifest
  ours_snapshot = refl

  root_snapshot : snapshot_of (replay_format m c) sample root_id ≡ ok root_files
  unfolding snapshot_of read_commit read is_object_id lookup text_eq read_manifest
  root_snapshot = refl

  ours_parent : parent_manifest (replay_format m c) sample ours_id ≡ ok root_files
  unfolding parent_manifest parents_of at_boundary read_commit read is_object_id lookup text_eq
      snapshot_of read_manifest
  ours_parent = refl

  ours_commit : read_commit (replay_format m c) sample ours_id ≡ ok second_commit
  unfolding read_commit read is_object_id lookup text_eq
  ours_commit = refl

  tree_Storable : Storable (replay_format m c) sample (codes "6")
  unfolding is_object_id lookup text_eq
  tree_Storable = record {
    valid = refl;
    single = record { packed_only = inl refl; loose_only = inl refl; intact = refl };
  }

  commit_Storable :
      (files : Manifest)
      → Storable (replay_format m c) (with_tree (replay_format m c) sample files) (codes "f")
  unfolding is_object_id lookup write insert text_eq compare_text
  commit_Storable files = record {
    valid = refl;
    single = record { packed_only = inl refl; loose_only = inl refl; intact = refl };
  }

  files_back : (replay_format m c).manifest_from_json (codes "6") ≡ some m
  unfolding text_eq
  files_back = refl

  commit_back : (replay_format m c).commit_from_json (codes "f") ≡ some c
  unfolding text_eq
  commit_back = refl

revert-restores_example :
    (repo' : Repository) × (c : Text) × (revert revert_format sample ours_id ours_id
        (codes "x")
        (codes "t")
      ≡ ok (repo', done c))
    × IsCommitted revert_format sample reverted_files
        (ours_id ∷ [])
        revert_text
        (codes "x")
        (codes "t")
        repo'
        c
    × ((p : Place) → entry reverted_files p ≡ entry root_files p)
unfolding write lookup text_eq
revert-restores_example =
    revert-restores revert_format sample ours_id (codes "x") (codes "t") ours_files root_files
      (ours_snapshot reverted_files revert_commit) (ours_parent reverted_files revert_commit)
      (tree_Storable reverted_files revert_commit)
      (commit_Storable reverted_files revert_commit reverted_files)
      (files_back reverted_files revert_commit) (commit_back reverted_files revert_commit)

cherry_pick-replays_example :
    (repo' : Repository) × (c : Text) × (cherry_pick pick_format sample root_id ours_id (codes "t")
      ≡ ok (repo', done c))
    × IsCommitted pick_format sample picked_files
        (root_id ∷ [])
        (codes "m")
        (codes "x")
        (codes "t")
        repo'
        c
    × ((p : Place) → entry picked_files p ≡ entry ours_files p)
unfolding write lookup text_eq
cherry_pick-replays_example =
    cherry_pick-replays pick_format sample root_id ours_id (codes "t") root_files ours_files
      second_commit (ours_parent picked_files pick_commit) (root_snapshot picked_files pick_commit)
      (ours_snapshot picked_files pick_commit) (ours_commit picked_files pick_commit)
      (tree_Storable picked_files pick_commit)
      (commit_Storable picked_files pick_commit picked_files) (files_back picked_files pick_commit)
      (commit_back picked_files pick_commit)
