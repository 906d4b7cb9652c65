-- ===== src/Repo/Manifest.antt =====
-- crates/repo/src/manifest.rs: the whole-world snapshot and the commit object.
use mcagit.Common.{List, Option}
use mcagit.Common.Text.{Text}
use mcagit.Common.Dict.{Dict}

-- Object ids are texts (hex digests).
pub record Manifest : Type 0 where
  pub regions : Dict (Dict Text)
  pub nbt : Dict Text
  pub blobs : Dict Text
  pub empty_dirs : List Text

pub record CommitObject : Type 0 where
  pub tree : Text
  pub parents : List Text
  pub message : Text
  pub author : Text
  pub time : Text
  pub committer : Option Text
  pub commit_time : Option Text
  pub signature : Option Text

-- An annotated tag: a named, dated pointer to a commit.
pub record TagObject : Type 0 where
  pub object : Text
  pub kind : Text
  pub tag : Text
  pub tagger : Text
  pub tag_time : Text
  pub tag_message : Text
  pub tag_signature : Option Text
