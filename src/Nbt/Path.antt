-- ===== src/Nbt/Path.antt =====
-- crates/nbt/src/path.rs: parsing of paths, and reading and writing at a path.
pub mod Parse
pub mod Steps
pub mod Lens
use mcagit.Common.{
  ℕ, zero, suc, ◌+◌, List, [], ◌∷◌, Bool, true, false, ◌||◌, Option, none, some, ◌==◌, leb,
  if◌then◌else◌, length, get_elem?,
}
use mcagit.Common.Text.{Text, text_eq}
use mcagit.Nbt.Error.{Result, ok, err, invalid_path, diverged}
use mcagit.Nbt.Value.{
  Value, Items, Entries, list, compound, end, entry, items_list, items_of, find_entry,
}
use mcagit.Nbt.Identity.{identity_key}
use mcagit.Nbt.Decimal.{parse_usize}

pub data Seg : Type 0 where
  key : Text → Seg
  index : ℕ → Seg
  ident : Text → Seg

-- `s[start..].find(']')`: the text before the bracket and the text behind it.
unfoldable pub split_bracket : Text → Option (Text × Text)
split_bracket [] = none
split_bracket (c ∷ s) =
    let rest = split_bracket s in
    if c == b']' then some ([], s) else elim rest [ none ↦ none | some (a, b) ↦ some (c ∷ a, b) ]

abbrev pub ends_key : ℕ → Bool
ends_key c = c == b'.' || c == b'['

-- A key up to the next '.' or '[', and the rest.
unfoldable pub key_text : Text → Text
key_text [] = []
key_text (c ∷ s) = let rest = key_text s in if ends_key c then [] else c ∷ rest

unfoldable pub after_key : Text → Text
after_key [] = []
after_key (c ∷ s) = let rest = after_key s in if ends_key c then c ∷ s else rest

unfoldable pub bracket_seg : Text → Seg
bracket_seg inner = elim (parse_usize inner) [ some n ↦ index n | none ↦ ident inner ]

abbrev pub is_nil : Text → Bool
is_nil [] = true
is_nil (_ ∷ _) = false

abbrev pub push : Seg → Result (List Seg) → Result (List Seg)
push seg (ok segs) = ok (seg ∷ segs)
push seg (err e) = err e

-- The `while` loop of `NbtPath::parse`, from the byte that is next.
unfoldable pub parse_loop : ℕ → Text → Result (List Seg)
parse_loop fuel [] = ok []
parse_loop zero (c ∷ s) = err diverged
parse_loop (suc fuel) (c ∷ s) =
    let skip = parse_loop fuel s in
    let bracket : Result (List Seg) = elim (split_bracket s) [
      | none ↦ err invalid_path
      | some (inner, rest) ↦
          let segs = push (bracket_seg inner) (parse_loop fuel rest) in
          if is_nil inner then err invalid_path else segs
    ] in
    let name = push (key (key_text (c ∷ s))) (parse_loop fuel (after_key (c ∷ s))) in
    if c == b'.' then skip else if c == b'[' then bracket else name

abbrev pub reject_empty : Result (List Seg) → Result (List Seg)
reject_empty (ok []) = err invalid_path
reject_empty (ok (seg ∷ segs)) = ok (seg ∷ segs)
reject_empty (err e) = err e

-- `NbtPath::parse`. Each round takes a byte at least.
unfoldable pub parse : Text → Result (List Seg)
unfolding parse_loop split_bracket key_text after_key bracket_seg
parse s = reject_empty (parse_loop (length s) s)

-- `identity_key(e).as_deref() == Some(id)`
unfoldable pub has_ident : Text → Value → Bool
has_ident id v = elim (identity_key v) [ none ↦ false | some k ↦ text_eq k id ]

unfoldable pub find_ident : Text → List Value → Option Value
find_ident id [] = none
find_ident id (v ∷ vs) = let rest = find_ident id vs in if has_ident id v then some v else rest

-- `step` and `step_mut`.
unfoldable pub step : Value → Seg → Option Value
step (compound m) (key k) = find_entry k m
step (list xs) (index i) = get_elem? (items_list xs) i
step (list xs) (ident id) = find_ident id (items_list xs)
step _ _ = none

-- `NbtPath::get`
unfoldable pub get : List Seg → Value → Option Value
get [] cur = some cur
get (seg ∷ segs) cur = elim (step cur seg) [ none ↦ none | some next ↦ get segs next ]

-- Writes through a mutable reference into a list or a map.
unfoldable pub set_index : ℕ → Value → List Value → List Value
set_index i w [] = []
set_index zero w (v ∷ vs) = w ∷ vs
set_index (suc i) w (v ∷ vs) = v ∷ set_index i w vs

unfoldable pub set_ident : Text → Value → List Value → List Value
set_ident id w [] = []
set_ident id w (v ∷ vs) =
    let rest = set_ident id w vs in if has_ident id v then w ∷ vs else v ∷ rest

-- `IndexMap::insert`: in place, or at the end.
unfoldable pub insert_entry : Text → Value → Entries → Entries
insert_entry k w end = entry k w end
insert_entry k w (entry j v m) =
    let rest = insert_entry k w m in if text_eq j k then entry j w m else entry j v rest

-- The node under `cur` that `step` finds, replaced.
unfoldable pub put : Value → Seg → Value → Value
put (compound m) (key k) w = compound (insert_entry k w m)
put (list xs) (index i) w = list (items_of (set_index i w (items_list xs)))
put (list xs) (ident id) w = list (items_of (set_ident id w (items_list xs)))
put cur _ w = cur

unfoldable pub append_value : List Value → Value → List Value
append_value [] w = w ∷ []
append_value (v ∷ vs) w = v ∷ append_value vs w

-- The last step of `NbtPath::set`.
unfoldable pub set_last : Seg → Value → Value → Value × Bool
set_last (key k) (compound m) w = (compound (insert_entry k w m), true)
set_last (index i) (list xs) w =
    let vs = items_list xs in
    if leb i (length vs)
    then if i == length vs
      then (list (items_of (append_value vs w)), true)
      else (list (items_of (set_index i w vs)), true)
    else (list xs, false)
set_last (ident id) (list xs) w = elim (find_ident id (items_list xs)) [
  | some _ ↦ (list (items_of (set_ident id w (items_list xs))), true)
  | none ↦ (list xs, false)
]
set_last _ cur w = (cur, false)

-- `NbtPath::set`: the new root, and whether the value was set.
unfoldable pub set : List Seg → Value → Value → Value × Bool
set [] cur w = (cur, false)
set (seg ∷ []) cur w = set_last seg cur w
set (seg ∷ next ∷ segs) cur w = elim (step cur seg) [
  | none ↦ (cur, false)
  | some child ↦ let (child', done) = set (next ∷ segs) child w in (put cur seg child', done)
]

unfoldable pub remove_index : ℕ → List Value → List Value
remove_index i [] = []
remove_index zero (v ∷ vs) = vs
remove_index (suc i) (v ∷ vs) = v ∷ remove_index i vs

unfoldable pub remove_ident : Text → List Value → List Value
remove_ident id [] = []
remove_ident id (v ∷ vs) = let rest = remove_ident id vs in if has_ident id v then vs else v ∷ rest

-- `IndexMap::shift_remove`
unfoldable pub remove_entry : Text → Entries → Entries
remove_entry k end = end
remove_entry k (entry j v m) =
    let rest = remove_entry k m in if text_eq j k then m else entry j v rest

-- The last step of `NbtPath::remove`.
unfoldable pub remove_last : Seg → Value → Value × Option Value
remove_last (key k) (compound m) = (compound (remove_entry k m), find_entry k m)
remove_last (index i) (list xs) =
    (list (items_of (remove_index i (items_list xs))), get_elem? (items_list xs) i)
remove_last (ident id) (list xs) =
    (list (items_of (remove_ident id (items_list xs))), find_ident id (items_list xs))
remove_last _ cur = (cur, none)

-- `NbtPath::remove`: the new root, and the removed value.
unfoldable pub remove : List Seg → Value → Value × Option Value
remove [] cur = (cur, none)
remove (seg ∷ []) cur = remove_last seg cur
remove (seg ∷ next ∷ segs) cur = elim (step cur seg) [
  | none ↦ (cur, none)
  | some child ↦ let (child', gone) = remove (next ∷ segs) child in (put cur seg child', gone)
]
