-- ===== src/Patch/Apply.antt =====
-- crates/patch/src/apply.rs on one chunk or loose file, with the operations of
-- crates/patch/src/model.rs that crates/patch/src/op_sink.rs collects.
pub mod Guard
pub mod Undo
pub mod Lost
use mcagit.Common.{
  ℕ, suc, ◌+◌, List, [], ◌∷◌, ◌++◌, Bool, true, false, not, ◌&&◌, Option, none, some, if◌then◌else◌,
}
use mcagit.Common.Text.{Text, codes}
use mcagit.Nbt.Error.{Result, ok, err, ◌>>=◌}
use mcagit.Nbt.Value.{Value, value_eq}
use mcagit.Nbt.Path.{Seg, parse, get, set, remove, is_nil}
use mcagit.Nbt.Json.{Json, Floats, to_json, from_json}
use mcagit.Diff.Comparer.{Event, added, removed, modified, type_changed, array_changed, walk}

-- The change of one node from `base` to `value`; none is absence.
pub record PatchOp : Type 0 where
  pub path : Text
  pub base : Option Json
  pub value : Option Json

pub record ApplyReport : Type 0 where
  pub applied : ℕ
  pub conflicts : List Text

-- `Option<&NbtValue> == Option<&NbtValue>`
unfoldable pub slot_eq : Option Value → Option Value → Bool
slot_eq none none = true
slot_eq (some a) (some b) = value_eq a b
slot_eq _ _ = false

module _ (fl : Floats) where
  -- `PatchOpSink`: what the sink pushes for an event.
  unfoldable pub op_of : Event → PatchOp
  op_of (added path v) = record { path = path; base = none; value = some (to_json fl v) }
  op_of (removed path v) = record { path = path; base = some (to_json fl v); value = none }
  op_of (modified path a b) = record {
    path = path;
    base = some (to_json fl a);
    value = some (to_json fl b);
  }
  op_of (type_changed path a b) = record {
    path = path;
    base = some (to_json fl a);
    value = some (to_json fl b);
  }
  op_of (array_changed path a b) = record {
    path = path;
    base = some (to_json fl a);
    value = some (to_json fl b);
  }

  unfoldable pub ops_of : List Event → List PatchOp
  ops_of [] = []
  ops_of (e ∷ es) = op_of e ∷ ops_of es

  -- `node_ops` of crates/patch/src/extract.rs.
  unfoldable pub node_ops : Value → Value → List PatchOp
  node_ops a b = ops_of (walk a b)

  -- `map(from_json).transpose()?`
  unfoldable pub read_side : Option Json → Result (Option Value)
  read_side none = ok none
  read_side (some j) = from_json fl j >>= λ v. ok (some v)

  unfoldable pub counted : ApplyReport → ApplyReport
  counted report = record report { applied = report.applied + 1 }

  unfoldable pub conflict : ApplyReport → Text → ApplyReport
  conflict report what = record report { conflicts = report.conflicts ++ (what ∷ []) }

  -- The write at a node below the root; the answer of `set` and `remove` is not looked at.
  unfoldable pub write_node : List Seg → Value → Option Value → Value
  write_node segs root none = (remove segs root).0
  write_node segs root (some v) = (set segs root v).0

  -- The two sides of an operation in the direction of the application.
  unfoldable pub from_side : Bool → PatchOp → Option Json
  from_side reverse op = if reverse then op.value else op.base

  unfoldable pub to_side : Bool → PatchOp → Option Json
  to_side reverse op = if reverse then op.base else op.value

  unfoldable pub apply_node :
      Value
      → Text
      → Option Value
      → Option Value
      → Bool
      → ApplyReport
      → Text
      → Result (Option Value × ApplyReport)
  apply_node root path from to force report ctx = do
    segs ← parse path
    if not (slot_eq (get segs root) from) && not force
        then ok (some root, conflict report (ctx ++ (codes ": " ++ path)))
        else ok (some (write_node segs root to), counted report)

  unfoldable pub apply_root :
      Option Value
      → Option Value
      → Option Value
      → Bool
      → ApplyReport
      → Text
      → Result (Option Value × ApplyReport)
  apply_root slot from to force report ctx =
      if not (slot_eq slot from) && not force
      then ok (slot, conflict report (ctx ++ codes ": root"))
      else ok (to, counted report)

  unfoldable pub apply_below :
      Option Value
      → Text
      → Option Value
      → Option Value
      → Bool
      → ApplyReport
      → Text
      → Result (Option Value × ApplyReport)
  apply_below none path from to force report ctx =
      if force
      then ok (none, report)
      else ok (none, conflict report (ctx ++ (codes ": " ++ (path ++ codes " (no root)"))))
  apply_below (some root) path from to force report ctx =
      apply_node root path from to force report ctx

  unfoldable pub apply_op :
      Option Value
      → PatchOp
      → Bool
      → Bool
      → ApplyReport
      → Text
      → Result (Option Value × ApplyReport)
  apply_op slot op reverse force report ctx = do
    from ← read_side (from_side reverse op)
    to ← read_side (to_side reverse op)
    if is_nil op.path
        then apply_root slot from to force report ctx
        else apply_below slot op.path from to force report ctx

  -- The loop over the operations of a chunk or of a loose file.
  unfoldable pub apply_ops :
      Option Value
      → List PatchOp
      → Bool
      → Bool
      → ApplyReport
      → Text
      → Result (Option Value × ApplyReport)
  apply_ops slot [] reverse force report ctx = ok (slot, report)
  apply_ops slot (op ∷ ops) reverse force report ctx = do
    (slot', report') ← apply_op slot op reverse force report ctx
    apply_ops slot' ops reverse force report' ctx
