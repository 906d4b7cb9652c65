-- ===== src/Repo/Closure.antt =====
-- The closure of a set of tips: `gc` (crates/repo/src/gc.rs), `tips` and `manifest_ids`
-- (fsck.rs) and `reachable` and `copy_objects` (transfer.rs).
pub mod Closed
pub mod Kept
pub mod Total
use mcagit.Common.{
  ℕ, zero, suc, ◌+◌, ◌-◌, List, [], ◌∷◌, ◌++◌, Bool, true, false, not, ◌&&◌, ◌||◌, Option, none,
  some, if◌then◌else◌, length,
}
use mcagit.Common.Text.{Text, codes}
use mcagit.Common.Members.{contains}
use mcagit.Common.Dict.{Dict, lookup, insert, keys, collect}
use mcagit.Repo.Manifest.{Manifest, CommitObject, TagObject}
use mcagit.Repo.Result.{Result, ok, err, ◌>>=◌, bad_json, diverged}
use mcagit.Repo.Store.{Format, Repository, read, write, read_commit, read_manifest, parents_of}
use mcagit.Repo.Directory.{Directory}
use mcagit.Repo.Refs.{branches, tags, read_branch, read_tag, head_commit}
use mcagit.Repo.Revision.{TagFormat, exists, read_tag_object}
use mcagit.Repo.History.{push_all, parent_count}

unfoldable pub values_of : Dict Text → List Text
values_of [] = []
values_of ((k, v) ∷ m) = v ∷ values_of m

unfoldable pub chunk_ids : Dict (Dict Text) → List Text
chunk_ids [] = []
chunk_ids ((rel, chunks) ∷ m) = values_of chunks ++ chunk_ids m

unfoldable pub manifest_ids : Manifest → List Text
manifest_ids m = chunk_ids m.regions ++ (values_of m.nbt ++ values_of m.blobs)

unfoldable pub read_each : (Text → Option Text) → List Text → List Text
read_each f [] = []
read_each f (n ∷ ns) = elim (f n) [ none ↦ read_each f ns | some h ↦ h ∷ read_each f ns ]

abbrev pub option_list : Option Text → List Text
option_list none = []
option_list (some h) = h ∷ []

unfoldable pub tips : Directory → List Text
tips dir =
    option_list (head_commit dir)
    ++ (read_each (read_branch dir) (branches dir) ++ read_each (read_tag dir) (tags dir))

-- The ids that are kept, the last one first, and the ids that were seen.
pub record Marks : Type 0 where
  pub keep : List Text
  pub seen : List Text

-- `if seen.insert(id.clone()) { keep.push(id) }`
unfoldable pub mark : Text → Marks → Marks
mark id m = if contains m.seen id then m else record { keep = id ∷ m.keep; seen = id ∷ m.seen }

unfoldable pub mark_all : List Text → Marks → Marks
mark_all [] m = m
mark_all (id ∷ ids) m = mark_all ids (mark id m)

abbrev pub no_marks : Marks
no_marks = record { keep = []; seen = [] }

-- The staged ids that are stored are kept too.
unfoldable pub mark_staged : Repository → List Text → Marks → Marks
mark_staged repo [] m = m
mark_staged repo (id ∷ ids) m = mark_staged repo ids (if exists repo id then mark id m else m)

-- One pack of all that is kept and can be read; an id that is there already is skipped.
unfoldable pub add_object : Repository → Text → Dict Text → Dict Text
add_object repo id pack = elim (lookup id pack) [
  | some content ↦ pack
  | none ↦ elim (read repo id) [ ok content ↦ insert id content pack | err e ↦ pack ]
]

unfoldable pub pack_of : Repository → List Text → Dict Text
pack_of repo [] = []
pack_of repo (id ∷ older) = add_object repo id (pack_of repo older)

abbrev pub staged_ids : Option Manifest → List Text
staged_ids none = []
staged_ids (some m) = manifest_ids m

unfoldable pub all_ids : Repository → List Text
all_ids repo = collect (keys repo.packed ++ keys repo.loose)

module _ (fmt : Format) (tag_format : TagFormat) where
  -- The marks for the tree of a commit and what its manifest names.
  unfoldable pub mark_tree : Repository → CommitObject → Marks → Marks
  mark_tree repo commit m = elim (read_manifest fmt repo commit.tree) [
    | ok files ↦ mark_all (manifest_ids files) (mark commit.tree m)
    | err e ↦ mark commit.tree m
  ]

  -- What a stored object adds: the marks, and the objects to walk to.
  unfoldable pub expand : Repository → Text → Marks → Result (Marks × List Text)
  expand repo c m = elim (read_tag_object fmt tag_format repo c) [
    | some tag ↦ ok (m, tag.object ∷ [])
    | none ↦ elim (read_commit fmt repo c) [
      | err e ↦ ok (m, [])
      | ok commit ↦ parents_of fmt repo c >>= λ ps. ok (mark_tree repo commit m, ps)
    ]
  ]

  -- The loop of `gc` and of `reachable`; the head of the stack is its top.
  unfoldable pub close : ℕ → Repository → List Text → Marks → Result Marks
  close fuel repo [] m = ok m
  close zero repo (c ∷ stack) m = err diverged
  close (suc fuel) repo (c ∷ stack) m = elim (contains m.seen c) [
    | true ↦ close fuel repo stack m
    | false ↦ elim (exists repo c) [
      | false ↦ close fuel repo stack (record m { seen = c ∷ m.seen })
      | true ↦ do
        next ← expand repo c (record { keep = c ∷ m.keep; seen = c ∷ m.seen })
        close fuel repo (push_all next.1 stack) next.0
    ]
  ]

  -- What an object that was not seen can still push: its parents, or the target of a tag.
  unfoldable pub links : List Text → Dict Text → ℕ
  links seen [] = 0
  links seen ((id, content) ∷ m) =
      (if contains seen id then 0 else suc (parent_count fmt content)) + links seen m

  -- Enough rounds for the walk from a stack.
  abbrev pub close_fuel : Repository → List Text → ℕ
  close_fuel repo stack = length stack + (links [] repo.packed + links [] repo.loose)

  -- `transfer::reachable`, in reverse order.
  unfoldable pub reachable : Repository → Text → Result (List Text)
  reachable repo tip =
      close (close_fuel repo (tip ∷ [])) repo (tip ∷ []) no_marks >>= λ m. ok m.keep

  -- `copy_objects`: the destination and the number of objects copied.
  unfoldable pub copy_objects : Repository → Repository → List Text → Result (Repository × ℕ)
  copy_objects src dst [] = ok (dst, 0)
  copy_objects src dst (id ∷ ids) =
      let present = copy_objects src dst ids in
      let absent : Result (Repository × ℕ) = read src id >>= λ content.
      copy_objects src (write fmt dst content).0 ids >>= λ r. ok (r.0, suc r.1) in
      if exists dst id then present else absent

  -- The staging index, a file with the JSON of a manifest.
  unfoldable pub read_index : Directory → Result (Option Manifest)
  read_index dir = elim (lookup (codes "index") dir.files) [
    | none ↦ ok none
    | some text ↦ elim (fmt.manifest_from_json text) [ none ↦ err bad_json | some m ↦ ok (some m) ]
  ]

  -- `gc`: the repository with one pack and no loose object, and the counts of kept and pruned.
  unfoldable pub gc : Repository → Directory → Result (Repository × (ℕ × ℕ))
  gc repo dir = do
    let stack = push_all (tips dir) []
    m ← close (close_fuel repo stack) repo stack no_marks
    staged ← read_index dir
    let kept = (mark_staged repo (staged_ids staged) m).keep
    ok (
      record repo { packed = pack_of repo kept; loose = []; damaged = λ id. false },
      (length kept, length (all_ids repo) - length kept),
    )
