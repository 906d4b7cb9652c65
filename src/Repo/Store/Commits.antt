-- ===== src/Repo/Store/Commits.antt =====
-- What storing a snapshot and a commit on it leaves in the repository: `write_manifest` and
-- `create_commit` of crates/repo/src/repository.rs, one after the other.
use mcagit.Common.{List, true, none, some, ◌≡◌}
use mcagit.Common.Text.{Text}
use mcagit.Repo.Manifest.{Manifest, CommitObject}
use mcagit.Repo.Result.{ok}
use mcagit.Repo.Store.{Format, Repository, is_object_id, read, write, read_commit, read_manifest}
use mcagit.Repo.Store.Laws.{NoCollision, read-write, read-write_keeps}

-- A content that a store can take in: its digest is an id, and no other content has it.
pub record Storable (fmt : Format) (repo : Repository) (content : Text) : Type 0 where
  pub valid : is_object_id (fmt.digest content) ≡ true
  pub single : NoCollision fmt repo content

-- The commit that `create_commit` stores.
abbrev pub new_commit : Text → List Text → Text → Text → Text → CommitObject
new_commit tree parents message author time = record {
  tree = tree;
  parents = parents;
  message = message;
  author = author;
  time = time;
  committer = none;
  commit_time = none;
  signature = none;
}

module _ (fmt : Format) (repo : Repository) (m : Manifest) where
  abbrev pub tree_json : Text
  tree_json = fmt.manifest_to_json m

  abbrev pub with_tree : Repository
  with_tree = (write fmt repo tree_json).0

  abbrev pub tree_id : Text
  tree_id = (write fmt repo tree_json).1

  module _ (parents : List Text) (message author time : Text) where
    abbrev pub commit : CommitObject
    commit = new_commit tree_id parents message author time

    abbrev pub with_commit : Repository
    with_commit = (write fmt with_tree (fmt.commit_to_json commit)).0

    abbrev pub commit_id : Text
    commit_id = (write fmt with_tree (fmt.commit_to_json commit)).1

    -- The repository with the snapshot and the commit in it, each read back by its id, and with all
    -- that could be read before.
    pub record IsCommitted (repo' : Repository) (c : Text) : Type 0 where
      pub commit_back : read_commit fmt repo' c ≡ ok commit
      pub tree_back : read_manifest fmt repo' tree_id ≡ ok m
      pub keeps : (id x : Text) → read repo id ≡ ok x → read repo' id ≡ ok x

    pub stored-IsCommitted :
        Storable fmt repo tree_json
        → Storable fmt with_tree (fmt.commit_to_json commit)
        → fmt.manifest_from_json tree_json ≡ some m
        → fmt.commit_from_json (fmt.commit_to_json commit) ≡ some commit
        → IsCommitted with_commit commit_id
    unfolding read_commit read_manifest
    stored-IsCommitted st sc bt bc = record {
      commit_back =
          rw (read-write fmt with_tree (fmt.commit_to_json commit) sc.valid sc.single) (rw bc);
      tree_back =
          rw
            (read-write_keeps fmt with_tree (fmt.commit_to_json commit) tree_id tree_json
              (read-write fmt repo tree_json st.valid st.single))
            (rw bt);
      keeps = λ id x e.
          read-write_keeps fmt with_tree (fmt.commit_to_json commit) id x
            (read-write_keeps fmt repo tree_json id x e);
    }
