-- ===== src/Repo/Merge/Commits.antt =====
-- `merge` of crates/repo/src/merge.rs: two commits into one.
pub mod Outcomes
pub mod Stored
use mcagit.Common.{List, [], ◌∷◌, Bool, true, false, Option, none, some, if◌then◌else◌}
use mcagit.Common.Text.{Text, text_eq}
use mcagit.Repo.Manifest.{Manifest, CommitObject}
use mcagit.Repo.Result.{Result, ok, err, ◌>>=◌}
use mcagit.Repo.Store.{
  Format, Repository, read_commit, read_manifest, write_manifest, create_commit,
}
use mcagit.Repo.Merge.{id_eq, three_way_manifest}
use mcagit.Repo.History.{is_nil, merge_base}

pub data MergeOutcome : Type 0 where
  up_to_date : MergeOutcome
  fast_forward : Text → MergeOutcome
  merged : Text → MergeOutcome
  conflicts : List Text → MergeOutcome

-- `Manifest::default()`
abbrev pub no_files : Manifest
no_files = record { regions = []; nbt = []; blobs = []; empty_dirs = [] }

module _ (fmt : Format) where
  -- `repo.read_manifest(&repo.read_commit(c)?.tree)?`
  unfoldable pub snapshot_of : Repository → Text → Result Manifest
  snapshot_of repo commit = do c ← read_commit fmt repo commit; read_manifest fmt repo c.tree

  unfoldable pub base_snapshot : Repository → Option Text → Result Manifest
  base_snapshot repo none = ok no_files
  base_snapshot repo (some b) = snapshot_of repo b

  -- The three snapshots that are merged.
  unfoldable pub snapshots :
      Repository → Option Text → Text → Text → Result (Manifest × Manifest × Manifest)
  snapshots repo base ours theirs = do
    mb ← base_snapshot repo base
    mo ← snapshot_of repo ours
    mt ← snapshot_of repo theirs
    ok (mb, mo, mt)

  -- A clean merge is stored, with a commit on top.
  unfoldable pub store_merge :
      Repository
      → Text
      → Text
      → Text
      → Text
      → Text
      → Manifest × List Text
      → Repository × MergeOutcome
  store_merge repo ours theirs message author time (m, clashes) =
      let (repo1, tree) = write_manifest fmt repo m in
      let (repo2, commit) = create_commit fmt repo1 tree (ours ∷ theirs ∷ []) message author time in
      if is_nil clashes then (repo2, merged commit) else (repo, conflicts clashes)

  unfoldable pub merge :
      Repository → Text → Text → Text → Text → Text → Result (Repository × MergeOutcome)
  merge repo ours theirs message author time =
      if text_eq ours theirs then ok (repo, up_to_date) else do
        base ← merge_base fmt repo ours theirs
        if id_eq base (some theirs)
            then ok (repo, up_to_date)
            else if id_eq base (some ours)
            then ok (repo, fast_forward theirs)
            else (snapshots repo base ours theirs >>= λ (mb, mo, mt).
                ok (store_merge repo ours theirs message author time (three_way_manifest mb mo mt)))
