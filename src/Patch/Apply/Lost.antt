-- ===== src/Patch/Apply/Lost.antt =====
-- `apply_op` of crates/patch/src/apply.rs on an element that was added to a list whose elements have
-- identities.
use mcagit.Common.{
  List, [], ◌∷◌, Bool, false, none, some, ◌≡◌, inl, inr, refl, ap, arith, Option-cases,
}
use mcagit.Common.Text.{Text}
use mcagit.Nbt.Error.{ok}
use mcagit.Nbt.Value.{Value, list}
use mcagit.Nbt.Path.{Seg, key, index, ident, parse, step, get, set, set_last}
use mcagit.Nbt.Path.Lens.{set-failed}
use mcagit.Nbt.Json.{Json, Floats, from_json}
use mcagit.Patch.Apply.{
  PatchOp, ApplyReport, slot_eq, read_side, counted, write_node, from_side, to_side, apply_node,
  apply_below, apply_op,
}
use mcagit.Patch.Apply.Undo.{parse-is_nil}

-- The last step of the path goes by identity.
abbrev pub EndsIdent : List Seg → Type 0
EndsIdent [] = ⊥
EndsIdent (key k ∷ []) = ⊥
EndsIdent (index i ∷ []) = ⊥
EndsIdent (ident id ∷ []) = Unit
EndsIdent (seg ∷ next ∷ segs) = EndsIdent (next ∷ segs)

set_last-absent :
    (id : Text) (cur w : Value) → step cur (ident id) ≡ none → (set_last (ident id) cur w).1 ≡ false
unfolding step set_last
set_last-absent id (list xs) w h = ground (arith, h)
set_last-absent id _ w h = refl

set-absent :
    (segs : List Seg) (root w : Value)
    → EndsIdent segs
    → get segs root ≡ none
    → (set segs root w).1 ≡ false
unfolding get set
set-absent [] root w n h = refl
set-absent (key k ∷ []) root w n h = absurd n
set-absent (index i ∷ []) root w n h = absurd n
set-absent (ident id ∷ []) root w n h =
    set_last-absent id root w (elim (Option-cases (step root (ident id))) [
      | inl gone ↦ gone
      | inr (child, e) ↦ ground arith
    ])
set-absent (seg ∷ next ∷ segs) root w n h = elim (Option-cases (step root seg)) [
  | inl gone ↦ ground arith
  | inr (child, e) ↦ ground (arith, set-absent (next ∷ segs) child w n)
]

module _ (fl : Floats) where
  -- An operation that adds a value at a path whose last step is an identity that no element has
  -- yet, or whose parent is missing, is counted as applied without a conflict and leaves the root
  -- as it was, with force or without.
  pub apply_op-loses_added :
      (root v : Value) (jv : Json) (path : Text) (force : Bool) (report : ApplyReport) (ctx : Text)
      (segs : List Seg)
      → parse path ≡ ok segs
      → EndsIdent segs
      → from_json fl jv ≡ ok v
      → get segs root ≡ none
      → let op : PatchOp = record { path = path; base = none; value = some jv } in
        apply_op fl (some root) op false force report ctx ≡ ok (some root, counted fl report)
  unfolding apply_op apply_below apply_node slot_eq write_node read_side from_side counted to_side
  apply_op-loses_added root v jv path force report ctx segs hp n hv hg = rw hv (
      rw (parse-is_nil path hp) (
        rw hp (
          rw hg (
            ap (λ r. ok (some r, counted fl report))
              (set-failed segs root v (set-absent segs root v n hg))))))
