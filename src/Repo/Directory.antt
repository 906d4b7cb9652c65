-- ===== src/Repo/Directory.antt =====
-- The files of a repository beside its objects, as the standard library's file system shows them on
-- Unix: a path holds a file or is a directory.
use mcagit.Common.{
  List, [], ◌∷◌, ◌++◌, Bool, true, false, ◌||◌, Option, none, some, ◌==◌, if◌then◌else◌,
}
use mcagit.Common.Text.{Text, text_eq}
use mcagit.Common.Members.{contains}
use mcagit.Common.Dict.{Dict, lookup, insert, is_some, collect, keys}
use mcagit.Common.Split.{split, strip_prefix}
use mcagit.Repo.Result.{Result, ok, err, io}

-- Files and directories by their canonical paths, relative to the directory of the repository:
-- parts that are not empty and not `.`, with one `/` between them.
pub record Directory : Type 0 where
  pub files : Dict Text
  pub dirs : List Text

-- A part that stands for the directory it is in.
abbrev pub is_blank : Text → Bool
is_blank [] = true
is_blank (c ∷ []) = c == b'.'
is_blank (c ∷ d ∷ s) = false

unfoldable pub solid : List Text → List Text
solid [] = []
solid (p ∷ ps) = let rest = solid ps in if is_blank p then rest else p ∷ rest

-- Parts with a `/` in front of each.
unfoldable pub slashed : List Text → Text
slashed [] = []
slashed (p ∷ ps) = b'/' ∷ (p ++ slashed ps)

abbrev pub unslashed : Text → Text
unslashed [] = []
unslashed (c ∷ s) = s

unfoldable pub canonical : Text → Text
canonical path = unslashed (slashed (solid (split b'/' path)))

unfoldable pub ends_blank : List Text → Bool
ends_blank [] = true
ends_blank (p ∷ []) = is_blank p
ends_blank (p ∷ q ∷ ps) = ends_blank (q ∷ ps)

-- The canonical path of a file; a path that ends in `/` or `/.` names no file. No path has a part
-- `..`, which the names of references are checked for.
unfoldable pub file_key : Text → Option Text
file_key path = if ends_blank (split b'/' path) then none else some (canonical path)

abbrev pub same_key : Option Text → Option Text → Bool
same_key (some j) (some k) = text_eq j k
same_key _ _ = false

-- Two paths of one file.
abbrev pub same_file : Text → Text → Bool
same_file p q = same_key (file_key p) (file_key q)

abbrev pub file_at : Dict Text → Option Text → Option Text
file_at files none = none
file_at files (some k) = lookup k files

-- `std::fs::read_to_string(..).ok()`
unfoldable pub read_file : Directory → Text → Option Text
read_file dir path = file_at dir.files (file_key path)

-- The proper prefixes of a path that end before a `/`.
unfoldable pub parents_from : Text → Text → List Text
parents_from before [] = []
parents_from before (c ∷ s) =
    let rest = parents_from (before ++ (c ∷ [])) s in if c == b'/' then before ∷ rest else rest

unfoldable pub any_file : Dict Text → List Text → Bool
any_file files [] = false
any_file files (p ∷ ps) = is_some (lookup p files) || any_file files ps

-- `create_dir_all` of the parent of a path: it fails where a file is in the way.
unfoldable pub create_parents : Directory → Text → Result Directory
create_parents dir path =
    let ps = parents_from [] (canonical path) in
    if any_file dir.files ps then err io else ok (record dir { dirs = ps ++ dir.dirs })

abbrev pub write_at : Directory → Option Text → Text → Result Directory
write_at dir none content = err io
write_at dir (some k) content =
    if contains dir.dirs k then err io else ok (record dir { files = insert k content dir.files })

-- `std::fs::write`
unfoldable pub write_file : Directory → Text → Text → Result Directory
write_file dir path content = write_at dir (file_key path) content

unfoldable pub delete_key : Text → Dict Text → Dict Text
delete_key k [] = []
delete_key k ((j, v) ∷ m) = let rest = delete_key k m in if text_eq j k then rest else (j, v) ∷ rest

-- `let _ = std::fs::remove_file(..)`
unfoldable pub remove_file : Directory → Text → Directory
remove_file dir path = elim (file_key path) [
  | none ↦ dir
  | some k ↦ record dir { files = delete_key k dir.files }
]

abbrev pub first_piece : List Text → Text
first_piece [] = []
first_piece (p ∷ ps) = p

-- The first parts of the paths below a directory.
unfoldable pub entries_in : Text → List Text → List Text
entries_in prefix [] = []
entries_in prefix (p ∷ ps) =
    let rest = entries_in prefix ps in
    elim (strip_prefix prefix p) [
      | none ↦ rest
      | some below ↦ first_piece (split b'/' below) ∷ rest
    ]

-- The names that `read_dir` gives, sorted. The directory's path ends with a `/`.
unfoldable pub read_dir : Directory → Text → List Text
read_dir dir prefix = collect (entries_in prefix (keys dir.files ++ dir.dirs))
