-- ===== src/Repo/Store.antt =====
-- crates/repo/src/object_store.rs and the object methods of crates/repo/src/repository.rs.
-- An object file holds its content compressed; the model keeps the content.
pub mod Laws
pub mod Commits
use mcagit.Common.{
  ℕ, List, [], ◌∷◌, Bool, true, false, not, ◌&&◌, ◌||◌, Option, none, some, if◌then◌else◌, leb,
  ◌==◌, length,
}
use mcagit.Common.Text.{Text}
use mcagit.Common.Members.{contains}
use mcagit.Common.Dict.{Dict, lookup, insert}
use mcagit.Repo.Manifest.{Manifest, CommitObject}
use mcagit.Repo.Result.{Result, ok, err, ◌>>=◌, RepoError, invalid_id, missing, io, bad_json}

-- The code of other crates: blake3's digest in hexadecimal, and serde_json on the two object types.
pub record Format : Type 0 where
  pub digest : Text → Text
  pub commit_to_json : CommitObject → Text
  pub commit_from_json : Text → Option CommitObject
  pub manifest_to_json : Manifest → Text
  pub manifest_from_json : Text → Option Manifest

-- `packed` is what the packfiles hold, `loose` the files `objects/<aa>/<rest>`; `damaged` says which
-- objects do not decode where they are read, and `shallow` is the boundary file, if there is one.
pub record Repository : Type 0 where
  pub packed : Dict Text
  pub loose : Dict Text
  pub damaged : Text → Bool
  pub shallow : Option (List Text)

-- `b.is_ascii_hexdigit()`
is_hex : ℕ → Bool
is_hex c = (leb b'0' c && leb c b'9') || (leb b'a' c && leb c b'f') || (leb b'A' c && leb c b'F')

all_hex : Text → Bool
all_hex [] = true
all_hex (c ∷ s) = is_hex c && all_hex s

unfoldable pub is_object_id : Text → Bool
unfolding all_hex is_hex
is_object_id id = length id == 64 && all_hex id

-- `ObjectStore::read`: the packs first, then the loose file. An entry that does not decode is an
-- error, also where another place has the object.
unfoldable pub read : Repository → Text → Result Text
read repo id =
    if is_object_id id
    then if repo.damaged id then err io else elim (lookup id repo.packed) [
      | some content ↦ ok content
      | none ↦ elim (lookup id repo.loose) [ some content ↦ ok content | none ↦ err missing ]
    ]
    else err invalid_id

unfoldable pub from_json {ℓ} : {A : Type ℓ} → Option A → Result A
from_json (some a) = ok a
from_json none = err bad_json

module _ (fmt : Format) where
  -- `ObjectStore::write`: the file is created only if it is not there.
  unfoldable pub write : Repository → Text → Repository × Text
  write repo content =
      let id = fmt.digest content in
      elim (lookup id repo.loose) [
        | some old ↦ (repo, id)
        | none ↦ (record repo { loose = insert id content repo.loose }, id)
      ]

  unfoldable pub read_commit : Repository → Text → Result CommitObject
  unfolding from_json
  read_commit repo hash = do content ← read repo hash; from_json (fmt.commit_from_json content)

  unfoldable pub read_manifest : Repository → Text → Result Manifest
  unfolding from_json
  read_manifest repo tree = do content ← read repo tree; from_json (fmt.manifest_from_json content)

  unfoldable pub write_commit : Repository → CommitObject → Repository × Text
  write_commit repo c = write repo (fmt.commit_to_json c)

  unfoldable pub write_manifest : Repository → Manifest → Repository × Text
  write_manifest repo m = write repo (fmt.manifest_to_json m)

  -- `create_commit`, which signs nothing.
  unfoldable pub create_commit :
      Repository → Text → List Text → Text → Text → Text → Repository × Text
  create_commit repo tree parents message author time = write_commit repo (record {
    tree = tree;
    parents = parents;
    message = message;
    author = author;
    time = time;
    committer = none;
    commit_time = none;
    signature = none;
  })

  -- `is_shallow() && shallow_boundary().contains(commit)`
  unfoldable pub at_boundary : Repository → Text → Bool
  at_boundary repo commit = elim repo.shallow [
    | none ↦ false
    | some boundary ↦ contains boundary commit
  ]

  unfoldable pub parents_of : Repository → Text → Result (List Text)
  parents_of repo commit =
      if at_boundary repo commit then ok [] else do c ← read_commit repo commit; ok c.parents
