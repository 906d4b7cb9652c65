-- ===== src/Repo/Status.antt =====
-- crates/repo/src/status.rs: the changes between two snapshots, and the three-way status of the
-- head, the staging index and the world.
pub mod At
pub mod Exact
pub mod Full
use Prim.Native.Nat.{Ordering}
use mcagit.Common.{List, [], ◌∷◌, ◌++◌, Bool, true, false, Option, none, some, if◌then◌else◌}
use mcagit.Common.Text.{Text, text_eq, compare_text, codes}
use mcagit.Common.Dict.{Dict, lookup, insert, keys}
use mcagit.Repo.Manifest.{Manifest}
use mcagit.Repo.Store.{Format}

pub data ChangeKind : Type 0 where
  added modified removed : ChangeKind

pub record Change : Type 0 where
  pub path : Text
  pub kind : ChangeKind

pub record StatusReport : Type 0 where
  pub staged : List Change
  pub unstaged : List Change
  pub untracked : List Text

-- `k=v;` for each chunk.
unfoldable pub chunk_lines : Dict Text → Text
chunk_lines [] = []
chunk_lines ((k, v) ∷ chunks) = k ++ (codes "=" ++ (v ++ (codes ";" ++ chunk_lines chunks)))

-- Entries put into a map one after the other.
unfoldable pub put_ids : Text → Dict Text → Dict Text → Dict Text
put_ids tag [] out = out
put_ids tag ((rel, h) ∷ m) out = put_ids tag m (insert rel (tag ++ h) out)

unfoldable pub put_dirs : List Text → Dict Text → Dict Text
put_dirs [] out = out
put_dirs (rel ∷ dirs) out = put_dirs dirs (insert rel (codes "d:") out)

-- The paths of `now` that `before` lacks or has with another signature.
unfoldable pub fresh : Dict Text → Dict Text → List Change
fresh before [] = []
fresh before ((path, sig) ∷ now) =
    let rest = fresh before now in
    elim (lookup path before) [
      | none ↦ record { path = path; kind = added } ∷ rest
      | some old ↦ if text_eq old sig then rest else record { path = path; kind = modified } ∷ rest
    ]

-- The paths that `now` lacks.
unfoldable pub gone : List Text → Dict Text → List Change
gone [] now = []
gone (path ∷ paths) now =
    let rest = gone paths now in
    elim (lookup path now) [
      | none ↦ record { path = path; kind = removed } ∷ rest
      | some sig ↦ rest
    ]

-- `out.sort_by(|a, b| a.path.cmp(&b.path))`
unfoldable pub insert_change : Change → List Change → List Change
insert_change c [] = c ∷ []
insert_change c (d ∷ ds) =
    let rest = insert_change c ds in
    elim (compare_text c.path d.path) [ Ordering.gt ↦ d ∷ rest | other ↦ c ∷ d ∷ ds ]

unfoldable pub sort_changes : List Change → List Change
sort_changes [] = []
sort_changes (c ∷ cs) = insert_change c (sort_changes cs)

unfoldable pub diff_flat : Dict Text → Dict Text → List Change
diff_flat before now = sort_changes (fresh before now ++ gone (keys before) now)

-- The split of the changes of the world: added paths are untracked.
unfoldable pub untracked_of : List Change → List Text
untracked_of [] = []
untracked_of (c ∷ cs) =
    let rest = untracked_of cs in elim c.kind [ added ↦ c.path ∷ rest | other ↦ rest ]

unfoldable pub unstaged_of : List Change → List Change
unstaged_of [] = []
unstaged_of (c ∷ cs) = let rest = unstaged_of cs in elim c.kind [ added ↦ rest | other ↦ c ∷ rest ]

unfoldable pub insert_text : Text → List Text → List Text
insert_text t [] = t ∷ []
insert_text t (u ∷ us) =
    let rest = insert_text t us in
    elim (compare_text t u) [ Ordering.gt ↦ u ∷ rest | other ↦ t ∷ u ∷ us ]

unfoldable pub sort_texts : List Text → List Text
sort_texts [] = []
sort_texts (t ∷ ts) = insert_text t (sort_texts ts)

-- `None => head.clone()`
abbrev pub or_head : Option Manifest → Manifest → Manifest
or_head none head = head
or_head (some m) head = m

module _ (fmt : Format) where
  unfoldable pub put_regions : Dict (Dict Text) → Dict Text → Dict Text
  put_regions [] out = out
  put_regions ((rel, chunks) ∷ m) out =
      put_regions m (insert rel (codes "r:" ++ fmt.digest (chunk_lines chunks)) out)

  unfoldable pub flatten : Manifest → Dict Text
  flatten m =
      put_dirs m.empty_dirs
        (put_ids (codes "b:") m.blobs (put_ids (codes "n:") m.nbt (put_regions m.regions [])))

  unfoldable pub diff : Manifest → Manifest → List Change
  diff head cur = diff_flat (flatten head) (flatten cur)

  -- `status_full` of a head's tree, an index and the world as `hash_only` finds it.
  unfoldable pub status_full : Manifest → Option Manifest → Manifest → StatusReport
  status_full head index cur =
      let staging = or_head index head in
      let changes = diff staging cur in
      record {
        staged = diff head staging;
        unstaged = unstaged_of changes;
        untracked = sort_texts (untracked_of changes);
      }
