-- ===== src/Patch/Apply/Guard.antt =====
-- The guard of `apply_op` in crates/patch/src/apply.rs against a value that is not expected.
use mcagit.Common.{
  suc, ◌+◌, ◌≤◌, List, [], ◌∷◌, ◌++◌, Bool, false, Option, none, some, ◌≡◌, ◌⊎◌, inl, inr, refl, ap,
  sym, ◌∙◌, arith, Bool-cases, length,
}
use mcagit.Common.Text.{Text, codes}
use mcagit.Nbt.Error.{ok, >>=-eq-ok}
use mcagit.Nbt.Value.{Value}
use mcagit.Nbt.Path.{parse, get, is_nil}
use mcagit.Nbt.Json.{Floats}
use mcagit.Patch.Apply.{
  PatchOp, ApplyReport, slot_eq, read_side, counted, conflict, from_side, to_side, apply_node,
  apply_root, apply_below, apply_op, apply_ops,
}

-- An operation either counts as applied, or it leaves the slot alone and reports one conflict.
record Accounted (slot : Option Value) (report : ApplyReport) (slot' : Option Value)
    (report' : ApplyReport) : Type 0 where
  either :
      ((report'.applied ≡ report.applied + 1) × (report'.conflicts ≡ report.conflicts))
      ⊎ ((slot' ≡ slot)
          × (report'.applied ≡ report.applied)
          × ((what : Text) × (report'.conflicts ≡ report.conflicts ++ (what ∷ []))))

module _ (fl : Floats) where
  apply_root-Accounted :
      (slot from to : Option Value) (report : ApplyReport) (ctx : Text) {slot' : Option Value}
      {report' : ApplyReport}
      → apply_root fl slot from to false report ctx ≡ ok (slot', report')
      → Accounted slot report slot' report'
  unfolding apply_root counted conflict
  apply_root-Accounted slot from to report ctx h = elim (Bool-cases (slot_eq slot from)) [
    | inl same ↦ record { either = inl (ground arith, ground arith) }
    | inr other ↦ record {
      either = inr (ground arith, ground arith, (ctx ++ codes ": root", ground arith));
    }
  ]

  apply_node-Accounted :
      (root : Value) (path : Text) (from to : Option Value) (report : ApplyReport) (ctx : Text)
      {slot' : Option Value} {report' : ApplyReport}
      → apply_node fl root path from to false report ctx ≡ ok (slot', report')
      → Accounted (some root) report slot' report'
  unfolding apply_node counted conflict
  apply_node-Accounted root path from to report ctx h =
      let (segs, ep, e) = >>=-eq-ok (parse path) _ h in
      elim (Bool-cases (slot_eq (get segs root) from)) [
        | inl same ↦ record { either = inl (ground arith, ground arith) }
        | inr other ↦
            let what = ctx ++ (codes ": " ++ path) in
            record { either = inr (ground arith, ground arith, (what, ground arith)) }
      ]

  apply_below-Accounted :
      (slot : Option Value) (path : Text) (from to : Option Value) (report : ApplyReport)
      (ctx : Text) {slot' : Option Value} {report' : ApplyReport}
      → apply_below fl slot path from to false report ctx ≡ ok (slot', report')
      → Accounted slot report slot' report'
  unfolding apply_below conflict
  apply_below-Accounted none path from to report ctx h =
      let what = ctx ++ (codes ": " ++ (path ++ codes " (no root)")) in
      record { either = inr (ground arith, ground arith, (what, ground arith)) }
  apply_below-Accounted (some root) path from to report ctx h =
      apply_node-Accounted root path from to report ctx h

  apply_op-Accounted :
      (slot : Option Value) (op : PatchOp) (reverse : Bool) (report : ApplyReport) (ctx : Text)
      {slot' : Option Value} {report' : ApplyReport}
      → apply_op fl slot op reverse false report ctx ≡ ok (slot', report')
      → Accounted slot report slot' report'
  unfolding apply_op
  apply_op-Accounted slot op reverse report ctx h =
      let (from, ef, e1) = >>=-eq-ok (read_side fl (from_side fl reverse op)) _ h in
      let (to, et, e2) = >>=-eq-ok (read_side fl (to_side fl reverse op)) _ e1 in
      elim (Bool-cases (is_nil op.path)) [
        | inl empty ↦ apply_root-Accounted slot from to report ctx (ground arith)
        | inr deep ↦ apply_below-Accounted slot op.path from to report ctx (ground arith)
      ]

  length-snoc : (xs : List Text) (x : Text) → length (xs ++ (x ∷ [])) ≡ suc (length xs)
  length-snoc [] x = refl
  length-snoc (y ∷ xs) x = omega (arith, length-snoc xs x)

  -- If applying a list of operations to a chunk without force returns, then applied operations and
  -- conflicts have grown together by the number of operations, the applied count has not fallen,
  -- and if it has not grown the chunk is as it was.
  pub apply_ops-accounts :
      (ops : List PatchOp) (slot : Option Value) (reverse : Bool) (report : ApplyReport)
      (ctx : Text) {slot' : Option Value} {report' : ApplyReport}
      → apply_ops fl slot ops reverse false report ctx ≡ ok (slot', report')
      → (report'.applied + length report'.conflicts
          ≡ report.applied + length report.conflicts + length ops)
        × (report.applied ≤ report'.applied)
        × (report'.applied ≡ report.applied → slot' ≡ slot)
  unfolding apply_ops
  apply_ops-accounts [] slot reverse report ctx h = (ground arith, ground arith, λ eq. ground arith)
  apply_ops-accounts (op ∷ ops) slot reverse report ctx {slot'} {report'} h =
      let ((slot1, report1), e1, e2) =
        >>=-eq-ok (apply_op fl slot op reverse false report ctx) _ h in
      let (total, grows, still) = apply_ops-accounts ops slot1 reverse report1 ctx e2 in
      elim ((apply_op-Accounted slot op reverse report ctx e1).either) [
        | inl (a, c) ↦ (
          omega (arith, total, a, ap length c),
          omega (arith, a, grows),
          λ eq. absurd (omega (arith, a, grows, eq)),
        )
        | inr (s, a, (what, c)) ↦ (
          omega (arith, total, a, ap length c, length-snoc report.conflicts what),
          omega (arith, a, grows),
          λ eq. still (eq ∙ sym a) ∙ s,
        )
      ]
