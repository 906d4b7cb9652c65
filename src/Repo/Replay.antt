-- ===== src/Repo/Replay.antt =====
-- crates/repo/src/replay.rs: cherry_pick and revert, which combine snapshots as a merge does.
pub mod Tip
use mcagit.Common.{List, [], ◌∷◌, ◌++◌, Bool, true, false, if◌then◌else◌, take}
use mcagit.Common.Text.{Text, codes}
use mcagit.Repo.Manifest.{Manifest, CommitObject}
use mcagit.Repo.Result.{Result, ok, err, ◌>>=◌}
use mcagit.Repo.Store.{Format, Repository, read_commit, parents_of, write_manifest, create_commit}
use mcagit.Repo.Merge.{three_way_manifest}
use mcagit.Repo.Merge.Commits.{no_files, snapshot_of}
use mcagit.Repo.History.{is_nil}

pub data ReplayOutcome : Type 0 where
  done : Text → ReplayOutcome
  conflicts : List Text → ReplayOutcome

abbrev pub revert_message : Text → Text
revert_message target = codes "Revert commit " ++ take 10 target

module _ (fmt : Format) where
  unfoldable pub first_manifest : Repository → List Text → Result Manifest
  first_manifest repo [] = ok no_files
  first_manifest repo (p ∷ ps) = snapshot_of fmt repo p

  unfoldable pub parent_manifest : Repository → Text → Result Manifest
  unfolding first_manifest
  parent_manifest repo commit = do ps ← parents_of fmt repo commit; first_manifest repo ps

  -- A snapshot stored in a commit whose only parent is `onto`.
  unfoldable pub store_on :
      Repository → Text → Text → Text → Text → Manifest → Repository × ReplayOutcome
  store_on repo onto message author time m =
      let (repo1, tree) = write_manifest fmt repo m in
      let (repo2, commit) = create_commit fmt repo1 tree (onto ∷ []) message author time in
      (repo2, done commit)

  unfoldable pub cherry_pick : Repository → Text → Text → Text → Result (Repository × ReplayOutcome)
  cherry_pick repo onto pick time = do
    base ← parent_manifest repo pick
    ours ← snapshot_of fmt repo onto
    theirs ← snapshot_of fmt repo pick
    let out = three_way_manifest base ours theirs
    if is_nil out.1
        then (read_commit fmt repo pick >>= λ pc.
            ok (store_on repo onto pc.message pc.author time out.0))
        else ok (repo, conflicts out.1)

  unfoldable pub revert :
      Repository → Text → Text → Text → Text → Result (Repository × ReplayOutcome)
  revert repo onto target author time = do
    base ← snapshot_of fmt repo target
    ours ← snapshot_of fmt repo onto
    theirs ← parent_manifest repo target
    let out = three_way_manifest base ours theirs
    if is_nil out.1
        then ok (store_on repo onto (revert_message target) author time out.0)
        else ok (repo, conflicts out.1)
