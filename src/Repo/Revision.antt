-- ===== src/Repo/Revision.antt =====
-- crates/repo/src/repository.rs: annotated tags and the resolution of revisions.
pub mod Total
pub mod Operators
use mcagit.Common.{
  ℕ, zero, suc, ◌-◌, List, [], ◌∷◌, ◌++◌, Bool, true, false, not, ◌&&◌, ◌||◌, Option, none, some,
  ◌==◌, leb, if◌then◌else◌, length, get_elem?, drop,
}
use mcagit.Common.Text.{Text, text_eq, codes}
use mcagit.Common.Dict.{Dict, lookup, is_some, keys}
use mcagit.Common.Split.{strip_prefix, strip_last, split_once}
use mcagit.Nbt.Decimal.{is_digit, parse_usize}
use mcagit.Repo.Manifest.{CommitObject, TagObject}
use mcagit.Repo.Result.{Result, ok, err, ◌>>=◌, bad_ref, other, diverged}
use mcagit.Repo.Store.{Format, Repository, read, write, read_commit, is_object_id}
use mcagit.Repo.Directory.{Directory}
use mcagit.Repo.Refs.{
  starts_with, read_branch, read_tag, write_tag, head_commit, branch_reflog, reflog_commit_at,
  branch_reflog_commit_at, or_bad_ref,
}

-- serde_json on tag objects.
pub record TagFormat : Type 0 where
  pub tag_to_json : TagObject → Text
  pub tag_from_json : Text → Option TagObject

abbrev pub is_empty : Text → Bool
is_empty [] = true
is_empty (c ∷ s) = false

-- `is_object_id` and a pack or a file that has it.
unfoldable pub exists : Repository → Text → Bool
exists repo id =
    is_object_id id && (is_some (lookup id repo.packed) || is_some (lookup id repo.loose))

-- The end of a revision's base: the first `~` or `^`.
abbrev pub is_op : ℕ → Bool
is_op c = c == b'~' || c == b'^'

unfoldable pub base_of : Text → Text
base_of [] = []
base_of (c ∷ s) = let rest = base_of s in if is_op c then [] else c ∷ rest

unfoldable pub ops_of : Text → Text
ops_of [] = []
ops_of (c ∷ s) = let rest = ops_of s in if is_op c then c ∷ s else rest

-- `take_while(u8::is_ascii_digit)` and what is behind it.
unfoldable pub digits_of : Text → Text
digits_of [] = []
digits_of (c ∷ s) = let rest = digits_of s in if is_digit c then c ∷ rest else []

unfoldable pub after_digits : Text → Text
after_digits [] = []
after_digits (c ∷ s) = let rest = after_digits s in if is_digit c then rest else c ∷ s

-- `rest[..digits].parse().unwrap_or(1)`, and 1 without digits.
unfoldable pub count_of : Text → ℕ
count_of s = elim (parse_usize (digits_of s)) [ none ↦ 1 | some n ↦ n ]

-- The names below `objects/` that begin as the prefix does; temporary files are passed over.
unfoldable pub ends_with : Text → Text → Bool
ends_with suffix [] = is_empty suffix
ends_with suffix (c ∷ s) = text_eq (c ∷ s) suffix || ends_with suffix s

unfoldable pub with_prefix : Text → List Text → List Text
with_prefix prefix [] = []
with_prefix prefix (id ∷ ids) =
    let rest = with_prefix prefix ids in
    if is_some (strip_prefix prefix id) && not (ends_with (codes ".tmp") id)
    then id ∷ rest
    else rest

abbrev pub only_one : List Text → Option Text
only_one (id ∷ []) = some id
only_one _ = none

-- Only the loose objects are searched.
unfoldable pub find_object_by_prefix : Repository → Text → Option Text
find_object_by_prefix repo prefix = only_one (with_prefix prefix (keys repo.loose))

unfoldable pub all_hex : Text → Bool
all_hex [] = true
all_hex (c ∷ s) =
    ((leb b'0' c && leb c b'9') || ((leb b'a' c && leb c b'f') || (leb b'A' c && leb c b'F')))
    && all_hex s

abbrev pub or_else : Option Text → Option Text → Option Text
or_else none b = b
or_else (some a) b = some a

-- `HEAD@{n}` and `@{n}`; `none` where the base has another form.
unfoldable pub head_log_base : Directory → Text → Option (Result Text)
head_log_base dir base =
    elim (or_else (strip_prefix (codes "HEAD@{") base) (strip_prefix (codes "@{") base)) [
      | none ↦ none
      | some rest ↦ elim (strip_last b'}' rest) [
        | none ↦ none
        | some digits ↦ some (or_bad_ref (parse_usize digits) >>= λ n. reflog_commit_at dir n)
      ]
    ]

abbrev pub is_nonempty : List Text → Bool
is_nonempty [] = false
is_nonempty (l ∷ ls) = true

-- `<branch>@{n}`
unfoldable pub branch_log_base : Directory → Text → Option (Result Text)
branch_log_base dir base = elim (split_once (codes "@{") base) [
  | none ↦ none
  | some (name, rest) ↦ elim (strip_last b'}' rest) [
    | none ↦ none
    | some digits ↦
        if is_some (read_branch dir name) || is_nonempty (branch_reflog dir name)
        then some (or_bad_ref (parse_usize digits) >>= λ n. branch_reflog_commit_at dir name n)
        else none
  ]
]

-- An object id, whole or abbreviated to four digits at least.
unfoldable pub hex_base : Repository → Text → Result Text
hex_base repo base =
    if leb 4 (length base) && all_hex base
    then if exists repo base then ok base else or_bad_ref (find_object_by_prefix repo base)
    else err bad_ref

module _ (fmt : Format) (tag_format : TagFormat) where
  -- `TagObject::try_from_json`
  unfoldable pub try_from_json : Text → Option TagObject
  try_from_json text =
      if starts_with b'{' text
      then elim (tag_format.tag_from_json text) [
        | none ↦ none
        | some t ↦
            if not (is_empty t.object) && (not (is_empty t.tag) && not (is_empty t.tagger))
            then some t
            else none
      ]
      else none

  unfoldable pub read_tag_object : Repository → Text → Option TagObject
  read_tag_object repo hash = elim (read repo hash) [
    | err e ↦ none
    | ok content ↦ try_from_json content
  ]

  unfoldable pub write_annotated_tag :
      Repository → Directory → TagObject → Result ((Repository × Directory) × Text)
  write_annotated_tag repo dir tag =
      let (repo', hash) = write fmt repo (tag_format.tag_to_json tag) in
      write_tag dir tag.tag hash >>= λ dir'. ok ((repo', dir'), hash)

  unfoldable pub read_annotated_tag : Repository → Directory → Text → Option TagObject
  read_annotated_tag repo dir name = elim (read_tag dir name) [
    | none ↦ none
    | some target ↦ read_tag_object repo target
  ]

  -- `peel_to_commit`, with the number of rounds that are left.
  unfoldable pub peel_loop : ℕ → Repository → Text → Result Text
  peel_loop zero repo h = err other
  peel_loop (suc rounds) repo h = elim (read_tag_object repo h) [
    | none ↦ ok h
    | some tag ↦ peel_loop rounds repo tag.object
  ]

  unfoldable pub peel_to_commit : Repository → Text → Result Text
  peel_to_commit repo hash = peel_loop 100 repo hash

  unfoldable pub first_parent : Repository → Text → Result Text
  first_parent repo h = do c ← read_commit fmt repo h; or_bad_ref (get_elem? c.parents 0)

  unfoldable pub nth_parent : Repository → Text → ℕ → Result Text
  nth_parent repo h n = do c ← read_commit fmt repo h; or_bad_ref (get_elem? c.parents (n - 1))

  -- `for _ in 0..n { h = self.first_parent(&h)?; }`
  unfoldable pub nth_ancestor : Repository → Text → ℕ → Result Text
  nth_ancestor repo h zero = ok h
  nth_ancestor repo h (suc n) = do p ← first_parent repo h; nth_ancestor repo p n

  -- The `while` loop of `resolve_ref`: each round takes an operator and its digits.
  unfoldable pub apply_ops : ℕ → Repository → Text → Text → Result Text
  apply_ops fuel repo hash [] = ok hash
  apply_ops zero repo hash (op ∷ rest) = err diverged
  apply_ops (suc fuel) repo hash (op ∷ rest) = do
    h ←
        if op == b'~'
        then nth_ancestor repo hash (count_of rest)
        else if op == b'^'
        then nth_parent repo hash (count_of rest)
        else err bad_ref
    apply_ops fuel repo h (after_digits rest)

  unfoldable pub named_base : Repository → Directory → Text → Result Text
  named_base repo dir base =
      if is_empty base || text_eq base (codes "HEAD")
      then or_bad_ref (head_commit dir)
      else elim (read_branch dir base) [
        | some h ↦ ok h
        | none ↦ elim (read_tag dir base) [
          | some h ↦ peel_to_commit repo h
          | none ↦ hex_base repo base
        ]
      ]

  unfoldable pub resolve_base : Repository → Directory → Text → Result Text
  resolve_base repo dir base = elim (head_log_base dir base) [
    | some r ↦ r
    | none ↦ elim (branch_log_base dir base) [ some r ↦ r | none ↦ named_base repo dir base ]
  ]

  unfoldable pub resolve_ref : Repository → Directory → Text → Result Text
  resolve_ref repo dir spec = do
    hash ← resolve_base repo dir (base_of spec)
    apply_ops (length (ops_of spec)) repo hash (ops_of spec)
