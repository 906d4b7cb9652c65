-- ===== src/Tests/Sample.antt =====
-- A small repository: two commits on one base, each changing another part of the world.
use mcagit.Common.{
  ℕ, List, [], ◌∷◌, ◌||◌, false, Option, none, some, if◌then◌else◌, ◌==◌, replicate,
}
use mcagit.Common.Text.{Text, text_eq, codes}
use mcagit.Repo.Manifest.{Manifest, CommitObject}
use mcagit.Repo.Store.{Format, Repository}
use mcagit.Repo.Store.Commits.{new_commit}

-- 64 times the same digit.
abbrev pub hash : ℕ → Text
hash c = replicate 64 c

abbrev pub digest : Text → Text
digest [] = hash b'0'
digest (c ∷ s) = hash c

abbrev pub root_id : Text
root_id = hash b'a'

abbrev pub ours_id : Text
ours_id = hash b'b'

abbrev pub theirs_id : Text
theirs_id = hash b'c'

abbrev plain_commit : ℕ → List Text → CommitObject
plain_commit tree parents = record {
  tree = hash tree;
  parents = parents;
  message = codes "m";
  author = codes "x";
  time = codes "t";
  committer = none;
  commit_time = none;
  signature = none;
}

abbrev pub second_commit : CommitObject
second_commit = plain_commit b'2' (root_id ∷ [])

abbrev pub root_files : Manifest
root_files = record {
  regions = (codes "r", (codes "0.0", codes "x0") ∷ (codes "0.1", codes "x1") ∷ []) ∷ [];
  nbt = (codes "level.dat", codes "l0") ∷ [];
  blobs = [];
  empty_dirs = [];
}

-- One chunk changed.
abbrev pub ours_files : Manifest
ours_files = record {
  regions = (codes "r", (codes "0.0", codes "x2") ∷ (codes "0.1", codes "x1") ∷ []) ∷ [];
  nbt = (codes "level.dat", codes "l0") ∷ [];
  blobs = [];
  empty_dirs = codes "empty" ∷ [];
}

-- The other chunk deleted and a file changed.
abbrev pub theirs_files : Manifest
theirs_files = record {
  regions = (codes "r", (codes "0.0", codes "x0") ∷ []) ∷ [];
  nbt = (codes "level.dat", codes "l1") ∷ [];
  blobs = [];
  empty_dirs = [];
}

-- What the merge of the two should be.
abbrev pub merged_files : Manifest
merged_files = record {
  regions = (codes "r", (codes "0.0", codes "x2") ∷ []) ∷ [];
  nbt = (codes "level.dat", codes "l1") ∷ [];
  blobs = [];
  empty_dirs = codes "empty" ∷ [];
}

-- The file changed in another way.
abbrev pub clash_files : Manifest
clash_files = record ours_files { nbt = (codes "level.dat", codes "l2") ∷ [] }

-- The merge commit of the sample, with its digests.
abbrev pub sample_merge : CommitObject
sample_merge = new_commit (hash b'4') (ours_id ∷ theirs_id ∷ []) (codes "m") (codes "x") (codes "t")

abbrev commit_of : Text → Option CommitObject
commit_of (c ∷ []) =
    if c == b'a'
    then some (plain_commit b'1' [])
    else if c == b'b'
    then some second_commit
    else if c == b'c'
    then some (plain_commit b'3' (root_id ∷ []))
    else if c == b'd'
    then some sample_merge
    else if c == b'e'
    then some (plain_commit b'5' (root_id ∷ []))
    else none
commit_of _ = none

abbrev files_of : Text → Option Manifest
files_of (c ∷ []) =
    if c == b'1'
    then some root_files
    else if c == b'2'
    then some ours_files
    else if c == b'3'
    then some theirs_files
    else if c == b'4'
    then some merged_files
    else if c == b'5'
    then some clash_files
    else none
files_of _ = none

-- Each object of the sample is one letter; a digest repeats it.
abbrev pub sample_format : Format
sample_format = record {
  digest = digest;
  commit_to_json = λ c. codes "d";
  commit_from_json = commit_of;
  manifest_to_json = λ m. codes "4";
  manifest_from_json = files_of;
}

abbrev pub sample : Repository
sample = record {
  packed = (root_id, codes "a") ∷ (hash b'1', codes "1") ∷ (hash b'2', codes "2") ∷ [];
  loose = (ours_id, codes "b") ∷ (theirs_id, codes "c") ∷ (hash b'3', codes "3") ∷ [];
  damaged = λ id. false;
  shallow = none;
}

abbrev pub clash_id : Text
clash_id = hash b'e'

-- The sample with a third commit on the root.
abbrev pub clashing : Repository
clashing = record sample { loose = (clash_id, codes "e") ∷ (hash b'5', codes "5") ∷ sample.loose }

-- The depth of a commit below the root.
abbrev pub depth : Text → ℕ
depth c = if text_eq ours_id c || text_eq theirs_id c then 1 else 0

-- The sample with the merge of its two commits.
abbrev pub with_merge : Repository
with_merge = record sample { loose = (hash b'd', codes "d") ∷ sample.loose }
