-- ===== src/Repo/Replay/Tip.antt =====
-- `revert` and `cherry_pick` of crates/repo/src/replay.rs at the tip of a branch.
use mcagit.Common.{[], ◌∷◌, ◌++◌, take, some, ap, ◌≡◌, refl, ◌∙◌}
use mcagit.Common.Text.{Text, codes}
use mcagit.Repo.Manifest.{Manifest, CommitObject}
use mcagit.Repo.Result.{ok}
use mcagit.Repo.Store.{Format, Repository, read_commit, write_manifest, create_commit, write_commit}
use mcagit.Repo.Store.Commits.{
  Storable, tree_json, with_tree, commit, with_commit, commit_id, IsCommitted, stored-IsCommitted,
}
use mcagit.Repo.Merge.{three_way_manifest}
use mcagit.Repo.Merge.Snapshot.{
  Place, entry, three_way_manifest-clean_iff, three_way_manifest_comm, three_way_manifest-unchanged,
}
use mcagit.Repo.Merge.Commits.{snapshot_of}
use mcagit.Repo.Replay.{parent_manifest, store_on, cherry_pick, revert, done}

-- Where ours is the base, there is no conflict and the result has the entries of theirs.
theirs_only :
    (b t : Manifest)
    → ((three_way_manifest b b t).1 ≡ [])
      × ((p : Place) → entry (three_way_manifest b b t).0 p ≡ entry t p)
theirs_only b t = (
  (three_way_manifest-clean_iff b b t).1 (λ p (o, _, _). o refl),
  λ p. three_way_manifest_comm b b t p ∙ (three_way_manifest-unchanged b t).1 p,
)

module _ (fmt : Format) (repo : Repository) where
  store_on_lem :
      (onto message author time : Text) (m : Manifest)
      → store_on fmt repo onto message author time m ≡ (
        with_commit fmt repo m (onto ∷ []) message author time,
        done (commit_id fmt repo m (onto ∷ []) message author time),
      )
  unfolding store_on write_manifest create_commit write_commit
  store_on_lem onto message author time m = refl

  -- Suppose that the snapshot of a commit and that of its first parent (the empty one without a
  -- parent) can be read, that the two objects to be written have well-formed ids that no other
  -- stored content and no object that fails to decode has, and that serde_json reads back what it
  -- wrote of them. Then reverting the commit on itself reports no conflict and returns a new commit
  -- that reads back with the reverted commit as its only parent, with the given author and time and
  -- with the message `Revert commit` and the first ten bytes of its id, whose tree reads back as a
  -- snapshot with the parent's entry at every chunk, NBT file and blob, and every object that could
  -- be read before still reads the same.
  pub revert-restores :
      (target author time : Text) (mt mp : Manifest)
      → snapshot_of fmt repo target ≡ ok mt
      → parent_manifest fmt repo target ≡ ok mp
      → let m = (three_way_manifest mt mt mp).0 in
        let message = codes "Revert commit " ++ take 10 target in
        Storable fmt repo (tree_json fmt repo m)
        → Storable fmt
            (with_tree fmt repo m)
            (fmt.commit_to_json (commit fmt repo m (target ∷ []) message author time))
        → fmt.manifest_from_json (tree_json fmt repo m) ≡ some m
        → fmt.commit_from_json
            (fmt.commit_to_json (commit fmt repo m (target ∷ []) message author time))
          ≡ some (commit fmt repo m (target ∷ []) message author time)
        → (repo' : Repository) × (c : Text) × (revert fmt repo target target author time
            ≡ ok (repo', done c))
          × IsCommitted fmt repo m (target ∷ []) message author time repo' c
          × ((p : Place) → entry m p ≡ entry mp p)
  unfolding revert
  revert-restores target author time mt mp et ep st sc bt bc =
      let (clean, same) = theirs_only mt mp in
      let m = (three_way_manifest mt mt mp).0 in
      let message = codes "Revert commit " ++ take 10 target in
      (
        with_commit fmt repo m (target ∷ []) message author time,
        commit_id fmt repo m (target ∷ []) message author time,
        rw et (rw ep (rw clean (ap ok (store_on_lem target message author time m)))),
        stored-IsCommitted fmt repo m (target ∷ []) message author time st sc bt bc,
        same,
      )

  -- Suppose that the commit onto which another is picked has the same snapshot as the first parent
  -- of the picked one, that the snapshots and the picked commit can be read, that the two objects
  -- to be written have well-formed ids that no other stored content and no object that fails to
  -- decode has, and that serde_json reads back what it wrote of them. Then cherry_pick reports no
  -- conflict and returns a new commit that reads back with the picked message and author, the given
  -- time and the commit onto which was picked as its only parent, whose tree reads back as a
  -- snapshot with the picked entry at every chunk, NBT file and blob, and every object that could
  -- be read before still reads the same.
  pub cherry_pick-replays :
      (onto pick time : Text) (mb mp : Manifest) (pc : CommitObject)
      → parent_manifest fmt repo pick ≡ ok mb
      → snapshot_of fmt repo onto ≡ ok mb
      → snapshot_of fmt repo pick ≡ ok mp
      → read_commit fmt repo pick ≡ ok pc
      → let m = (three_way_manifest mb mb mp).0 in
        Storable fmt repo (tree_json fmt repo m)
        → Storable fmt
            (with_tree fmt repo m)
            (fmt.commit_to_json (commit fmt repo m (onto ∷ []) pc.message pc.author time))
        → fmt.manifest_from_json (tree_json fmt repo m) ≡ some m
        → fmt.commit_from_json
            (fmt.commit_to_json (commit fmt repo m (onto ∷ []) pc.message pc.author time))
          ≡ some (commit fmt repo m (onto ∷ []) pc.message pc.author time)
        → (repo' : Repository) × (c : Text) × (cherry_pick fmt repo onto pick time
            ≡ ok (repo', done c))
          × IsCommitted fmt repo m (onto ∷ []) pc.message pc.author time repo' c
          × ((p : Place) → entry m p ≡ entry mp p)
  unfolding cherry_pick
  cherry_pick-replays onto pick time mb mp pc eb eo ep ec st sc bt bc =
      let (clean, same) = theirs_only mb mp in
      let m = (three_way_manifest mb mb mp).0 in
      (
        with_commit fmt repo m (onto ∷ []) pc.message pc.author time,
        commit_id fmt repo m (onto ∷ []) pc.message pc.author time,
        rw eb (
            rw eo
              (rw ep (rw clean (rw ec (ap ok (store_on_lem onto pc.message pc.author time m)))))),
        stored-IsCommitted fmt repo m (onto ∷ []) pc.message pc.author time st sc bt bc,
        same,
      )
