-- ===== src/Tests/Patching.antt =====
-- Paths, comparison and patches on a small chunk.
use mcagit.Common.{
  ℕ, ◌+◌, ◌≤◌, List, [], ◌∷◌, Bool, true, false, Option, none, some, ◌≡◌, ◌≢◌, refl, arith, length,
  ℤ, pos, negsuc,
}
use mcagit.Common.Text.{Text, text_eq, codes}
use mcagit.Nbt.Error.{ok, err, diverged}
use mcagit.Nbt.Value.{
  Value, byte, int, string, list, compound, nil, cons, end, entry, value_eq, find_entry,
}
use mcagit.Nbt.Value.Equality.{IsPlain}
use mcagit.Nbt.Decimal.{parse_i64, show_int, parse_usize, show_nat}
use mcagit.Nbt.Decimal.RoundTrip.{parse_i64-show_int, parse_usize-show_nat}
use mcagit.Nbt.Identity.{identity_key}
use mcagit.Nbt.Path.{Seg, key, index, ident, parse, get, set}
use mcagit.Nbt.Path.Lens.{get-set}
use mcagit.Nbt.Path.Parse.{parse-ne-diverged, AllPlain, print, parse-print}
use mcagit.Nbt.Json.{Json, Floats, num, str, arr, obj, to_json, from_json}
use mcagit.Diff.Comparer.{walk}
use mcagit.Diff.Comparer.Same.{walk_self}
use mcagit.Patch.Apply.{PatchOp, ApplyReport, apply_op, apply_ops, counted}
use mcagit.Patch.Apply.Guard.{apply_ops-accounts}
use mcagit.Patch.Apply.Undo.{apply_op-undo}
use mcagit.Patch.Apply.Lost.{apply_op-loses_added}

-- A chest with one slot filled, and the height of its chunk.
abbrev stone : Value
stone =
    compound (entry (codes "Slot") (byte (pos 3)) (entry (codes "id") (string (codes "stone")) end))

abbrev dirt : Value
dirt =
    compound (entry (codes "Slot") (byte (pos 4)) (entry (codes "id") (string (codes "dirt")) end))

abbrev chunk : Value
chunk =
    compound (entry (codes "Items") (list (cons stone nil)) (entry (codes "y") (int (pos 64)) end))

abbrev y_path : List Seg
y_path = key (codes "y") ∷ []

abbrev id_path : List Seg
id_path = key (codes "Items") ∷ index 0 ∷ key (codes "id") ∷ []

abbrev stone_id : Value
stone_id = string (codes "stone")

get-set_example :
    get id_path (set id_path chunk (string (codes "clay"))).0 ≡ some (string (codes "clay"))
unfolding set mcagit.Nbt.Path.step find_entry text_eq mcagit.Nbt.Path.set_last
get-set_example = get-set id_path chunk (string (codes "clay")) tt refl

plain_path : AllPlain id_path
plain_path = (
  (refl, (refl, (refl, (refl, (refl, (refl, tt)))))),
  (omega arith, ((refl, (refl, (refl, tt))), tt)),
)

parse-print_example : parse (print id_path) ≡ ok id_path
parse-print_example = parse-print (key (codes "Items")) (index 0 ∷ key (codes "id") ∷ []) plain_path

chunk-IsPlain : IsPlain chunk
unfolding IsPlain find_entry text_eq
chunk-IsPlain = (refl, ((refl, tt, (refl, tt, tt)), tt), (refl, tt, tt))

walk_self_example : walk chunk chunk ≡ []
walk_self_example = walk_self chunk chunk-IsPlain

parse_i64-show_int_example : parse_i64 (show_int (negsuc 41)) ≡ some (negsuc 41)
parse_i64-show_int_example = parse_i64-show_int (negsuc 41) (omega arith)

parse_usize-show_nat_example : parse_usize (show_nat 1024) ≡ some 1024
parse_usize-show_nat_example = parse_usize-show_nat 1024 (omega arith)

abbrev no_floats : Floats
no_floats = record {
  show_f32 = λ b. [];
  show_f64 = λ b. [];
  parse_f32 = λ s. none;
  parse_f64 = λ s. none;
  int_to_f64 = λ z. 0;
  f64_to_f32 = λ b. 0;
}

abbrev fresh : ApplyReport
fresh = record { applied = 0; conflicts = [] }

abbrev raise : PatchOp
raise = record {
  path = codes "y";
  base = some (to_json no_floats (int (pos 64)));
  value = some (to_json no_floats (int (pos 70)));
}

y_parsed : parse (codes "y") ≡ ok y_path
unfolding parse
y_parsed = refl

y_before : from_json no_floats (to_json no_floats (int (pos 64))) ≡ ok (int (pos 64))
unfolding from_json to_json mcagit.Nbt.Json.read_leaf text_eq mcagit.Nbt.Json.or_bad
    mcagit.Nbt.Json.as_i64 mcagit.Common.Words.wrap
y_before = refl

y_after : from_json no_floats (to_json no_floats (int (pos 70))) ≡ ok (int (pos 70))
unfolding from_json to_json mcagit.Nbt.Json.read_leaf text_eq mcagit.Nbt.Json.or_bad
    mcagit.Nbt.Json.as_i64 mcagit.Common.Words.wrap
y_after = refl

apply_op-undo_example :
    (root' : Value) × (apply_op no_floats (some chunk) raise false false fresh (codes "r")
      ≡ ok (some root', counted no_floats fresh))
    × (get y_path root' ≡ some (int (pos 70)))
    × (apply_op no_floats (some root') raise true false fresh (codes "r")
        ≡ ok (some chunk, counted no_floats fresh))
unfolding value_eq get mcagit.Nbt.Path.step find_entry text_eq
apply_op-undo_example =
    apply_op-undo no_floats chunk (int (pos 64)) (int (pos 70)) (to_json no_floats (int (pos 64)))
      (to_json no_floats (int (pos 70))) (codes "y") fresh fresh (codes "r") (key (codes "y")) []
      y_parsed tt y_before y_after refl refl refl

-- One operation that fits and one that does not.
abbrev two_ops : List PatchOp
two_ops = raise ∷ raise ∷ []

abbrev raised : Value
raised =
    compound (entry (codes "Items") (list (cons stone nil)) (entry (codes "y") (int (pos 70)) end))

abbrev after_two : ApplyReport
after_two = record { applied = 1; conflicts = codes "r: y" ∷ [] }

two_applied :
    apply_ops no_floats (some chunk) two_ops false false fresh (codes "r")
    ≡ ok (some raised, after_two)
unfolding apply_ops apply_op mcagit.Patch.Apply.read_side mcagit.Patch.Apply.from_side from_json
    to_json mcagit.Nbt.Json.read_leaf text_eq mcagit.Nbt.Json.or_bad mcagit.Nbt.Json.as_i64
    mcagit.Patch.Apply.to_side mcagit.Patch.Apply.apply_below mcagit.Patch.Apply.apply_node parse
    mcagit.Patch.Apply.slot_eq get mcagit.Nbt.Path.step find_entry mcagit.Common.Words.wrap
    mcagit.Common.Words.low_bits mcagit.Nbt.Path.insert_entry mcagit.Nbt.Path.key_text
    mcagit.Nbt.Path.after_key mcagit.Nbt.Path.parse_loop set mcagit.Nbt.Path.set_last value_eq
    mcagit.Patch.Apply.conflict counted mcagit.Patch.Apply.write_node
two_applied = refl

apply_ops-accounts_example :
    (after_two.applied + length after_two.conflicts
      ≡ fresh.applied + length fresh.conflicts + length two_ops)
    × (fresh.applied ≤ after_two.applied)
    × (after_two.applied ≡ fresh.applied → some raised ≡ some chunk)
apply_ops-accounts_example =
    apply_ops-accounts no_floats two_ops (some chunk) false fresh (codes "r") two_applied

slot_parsed : parse (codes "Items[slot:4]") ≡ ok (key (codes "Items") ∷ ident (codes "slot:4") ∷ [])
unfolding parse parse_usize
slot_parsed = refl

dirt_back : from_json no_floats (to_json no_floats dirt) ≡ ok dirt
unfolding from_json to_json text_eq mcagit.Nbt.Json.insert_field mcagit.Common.Text.compare_text
    mcagit.Nbt.Json.read_leaf mcagit.Nbt.Json.or_bad mcagit.Nbt.Json.as_i64 mcagit.Nbt.Json.as_str
    mcagit.Nbt.Path.insert_entry mcagit.Common.Words.wrap
dirt_back = refl

no_slot : get (key (codes "Items") ∷ ident (codes "slot:4") ∷ []) chunk ≡ none
unfolding get mcagit.Nbt.Path.step find_entry text_eq mcagit.Nbt.Path.find_ident
    mcagit.Nbt.Path.has_ident identity_key mcagit.Nbt.Identity.modern_uuid
    mcagit.Nbt.Identity.legacy_uuid mcagit.Nbt.Identity.block_coords mcagit.Nbt.Identity.slot_key
    show_int
no_slot = refl

apply_op-loses_added_example :
    apply_op no_floats
      (some chunk)
      (record { path = codes "Items[slot:4]"; base = none; value = some (to_json no_floats dirt) })
      false
      false
      fresh
      (codes "r")
    ≡ ok (some chunk, counted no_floats fresh)
apply_op-loses_added_example =
    apply_op-loses_added no_floats chunk dirt (to_json no_floats dirt) (codes "Items[slot:4]") false
      fresh (codes "r") (key (codes "Items") ∷ ident (codes "slot:4") ∷ []) slot_parsed tt dirt_back
      no_slot

parse-ne-diverged_example : parse (codes "Items[0") ≢ err diverged
parse-ne-diverged_example = parse-ne-diverged (codes "Items[0")
