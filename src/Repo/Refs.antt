-- ===== src/Repo/Refs.antt =====
-- crates/repo/src/repository.rs: branches, tags, HEAD and the reflogs, which are small files.
pub mod Laws
use mcagit.Common.{
  ℕ, zero, suc, List, [], ◌∷◌, ◌++◌, Bool, true, false, not, ◌&&◌, ◌||◌, Option, none, some, ◌==◌,
  leb, if◌then◌else◌, length, get_elem?, replicate,
}
use mcagit.Common.Text.{Text, codes}
use mcagit.Common.Dict.{lookup, is_some}
use mcagit.Common.Split.{split, trim, strip_prefix, strip_last, split_once, lines}
use mcagit.Repo.Result.{Result, ok, err, ◌>>=◌, bad_ref, other}
use mcagit.Repo.Store.{Repository, read, Format, write}
use mcagit.Repo.Directory.{Directory, create_parents, write_file, read_file, remove_file, read_dir}

abbrev pub starts_with : ℕ → Text → Bool
starts_with b [] = false
starts_with b (c ∷ s) = c == b

unfoldable pub safe_ref_name : Text → Bool
safe_ref_name name =
    not (length name == 0)
    && (leb (length name) 255
        && (not (starts_with b'/' name)
            && (not (starts_with b'.' name)
                && (not (is_some (strip_last b'/' name))
                    && (not (is_some (split_once (codes "..") name))
                        && (not (is_some (split_once (92 ∷ []) name))
                            && not (is_some (split_once (0 ∷ []) name))))))))

abbrev pub branch_path : Text → Text
branch_path name = codes "refs/heads/" ++ name

abbrev pub tag_path : Text → Text
tag_path name = codes "refs/tags/" ++ name

abbrev pub branch_log_path : Text → Text
branch_log_path name = codes "logs/refs/heads/" ++ name

abbrev pub remote_ref_path : Text → Text → Text
remote_ref_path name branch = codes "refs/remotes/" ++ (name ++ (codes "/" ++ branch))

abbrev pub nonempty : Text → Option Text
nonempty [] = none
nonempty (c ∷ s) = some (c ∷ s)

-- The trimmed content of a file, if it is not empty.
unfoldable pub read_trimmed : Directory → Text → Option Text
read_trimmed dir path = elim (read_file dir path) [ none ↦ none | some s ↦ nonempty (trim s) ]

unfoldable pub read_branch : Directory → Text → Option Text
read_branch dir name = if safe_ref_name name then read_trimmed dir (branch_path name) else none

unfoldable pub read_tag : Directory → Text → Option Text
read_tag dir name = if safe_ref_name name then read_trimmed dir (tag_path name) else none

unfoldable pub read_remote_ref : Directory → Text → Text → Option Text
read_remote_ref dir name branch = read_trimmed dir (remote_ref_path name branch)

-- `hash` and a line feed in a file whose directory is made first.
unfoldable pub write_ref : Directory → Text → Text → Result Directory
write_ref dir path hash = do
  made ← create_parents dir path
  write_file made path (hash ++ (10 ∷ []))

-- `message.replace('\n', " ")`
unfoldable pub one_line : Text → Text
one_line [] = []
one_line (c ∷ s) = (if c == 10 then 32 else c) ∷ one_line s

abbrev pub or_zeros : Option Text → Text
or_zeros none = replicate 64 b'0'
or_zeros (some from) = from

abbrev pub reflog_line : Option Text → Text → Text → Text
reflog_line from to message = or_zeros from ++ (32 ∷ (to ++ (32 ∷ (one_line message ++ (10 ∷ [])))))

abbrev pub or_empty : Option Text → Text
or_empty none = []
or_empty (some s) = s

unfoldable pub append_reflog : Directory → Text → Option Text → Text → Text → Result Directory
append_reflog dir path from to message = do
  made ← create_parents dir path
  write_file made path (or_empty (read_file made path) ++ reflog_line from to message)

unfoldable pub write_branch : Directory → Text → Text → Result Directory
write_branch dir name hash =
    if safe_ref_name name
    then (do
      written ← write_ref dir (branch_path name) hash
      append_reflog written (branch_log_path name) (read_branch dir name) hash (codes "update"))
    else err bad_ref

unfoldable pub delete_branch : Directory → Text → Result Directory
delete_branch dir name =
    if safe_ref_name name
    then ok (remove_file (remove_file dir (branch_path name)) (branch_log_path name))
    else err bad_ref

unfoldable pub branches : Directory → List Text
branches dir = read_dir dir (codes "refs/heads/")

unfoldable pub tags : Directory → List Text
tags dir = read_dir dir (codes "refs/tags/")

unfoldable pub write_tag : Directory → Text → Text → Result Directory
write_tag dir name commit =
    if safe_ref_name name then write_ref dir (tag_path name) commit else err bad_ref

unfoldable pub delete_tag : Directory → Text → Result Directory
delete_tag dir name =
    if safe_ref_name name then ok (remove_file dir (tag_path name)) else err bad_ref

unfoldable pub write_remote_ref : Directory → Text → Text → Text → Result Directory
write_remote_ref dir name branch hash =
    if not (safe_ref_name name) || not (safe_ref_name branch)
    then err bad_ref
    else write_ref dir (remote_ref_path name branch) hash

abbrev pub head_path : Text
head_path = codes "HEAD"

unfoldable pub current_branch : Directory → Option Text
current_branch dir = elim (read_file dir head_path) [
  | none ↦ none
  | some head ↦ strip_prefix (codes "ref: refs/heads/") (trim head)
]

unfoldable pub set_head_to_branch : Directory → Text → Result Directory
set_head_to_branch dir name =
    write_file dir head_path (codes "ref: refs/heads/" ++ (name ++ (10 ∷ [])))

unfoldable pub set_head_detached : Directory → Text → Result Directory
set_head_detached dir hash = write_file dir head_path (hash ++ (10 ∷ []))

unfoldable pub head_commit : Directory → Option Text
head_commit dir = elim (read_file dir head_path) [
  | none ↦ none
  | some head ↦ elim (strip_prefix (codes "ref: refs/heads/") (trim head)) [
    | some branch ↦ read_branch dir branch
    | none ↦ nonempty (trim head)
  ]
]

-- The lines that are not blank, in reverse order onto `done`.
unfoldable pub reversed_lines : List Text → List Text → List Text
reversed_lines [] done = done
reversed_lines (l ∷ ls) done = elim (trim l) [
  | [] ↦ reversed_lines ls done
  | c ∷ s ↦ reversed_lines ls (l ∷ done)
]

unfoldable pub read_reflog : Directory → Text → List Text
read_reflog dir path = elim (read_file dir path) [
  | none ↦ []
  | some text ↦ reversed_lines (lines text) []
]

abbrev pub or_bad_ref {ℓ} : {A : Type ℓ} → Option A → Result A
or_bad_ref none = err bad_ref
or_bad_ref (some a) = ok a

unfoldable pub reflog_at : List Text → ℕ → Result Text
reflog_at entries n = do
  line ← or_bad_ref (get_elem? entries n)
  field ← or_bad_ref (get_elem? (split 32 line) 1)
  or_bad_ref (nonempty field)

abbrev pub head_log_path : Text
head_log_path = codes "logs/HEAD"

unfoldable pub record_head : Directory → Option Text → Text → Text → Result Directory
record_head dir from to message = append_reflog dir head_log_path from to message

unfoldable pub reflog : Directory → List Text
reflog dir = read_reflog dir head_log_path

unfoldable pub branch_reflog : Directory → Text → List Text
branch_reflog dir name = if safe_ref_name name then read_reflog dir (branch_log_path name) else []

unfoldable pub reflog_commit_at : Directory → ℕ → Result Text
reflog_commit_at dir n = reflog_at (reflog dir) n

unfoldable pub branch_reflog_commit_at : Directory → Text → ℕ → Result Text
branch_reflog_commit_at dir name n = reflog_at (branch_reflog dir name) n
