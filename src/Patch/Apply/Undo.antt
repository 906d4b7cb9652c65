-- ===== src/Patch/Apply/Undo.antt =====
-- `apply_op` of crates/patch/src/apply.rs, forward and then in reverse.
use mcagit.Common.{List, [], ◌∷◌, Bool, true, false, some, ◌≡◌, refl, ap, ◌∙◌}
use mcagit.Common.Text.{Text}
use mcagit.Nbt.Error.{ok}
use mcagit.Nbt.Value.{Value, value_eq}
use mcagit.Nbt.Path.{Seg, parse, get, set, is_nil}
use mcagit.Nbt.Path.Steps.{NoIdent}
use mcagit.Nbt.Path.Lens.{get-set, set-get, set-set, set-succeeds}
use mcagit.Nbt.Json.{Json, Floats, from_json}
use mcagit.Patch.Apply.{
  PatchOp, ApplyReport, slot_eq, read_side, counted, write_node, from_side, to_side, apply_node,
  apply_below, apply_op,
}

pub parse-is_nil : (path : Text) {segs : List Seg} → parse path ≡ ok segs → is_nil path ≡ false
unfolding parse
parse-is_nil [] h = cc
parse-is_nil (c ∷ s) h = refl

module _ (fl : Floats) where
  -- What one application does where the expected value is there.
  apply_op-expected :
      (root a b : Value) (op : PatchOp) (reverse : Bool) (report : ApplyReport) (ctx : Text)
      {seg : Seg} {segs : List Seg}
      → parse op.path ≡ ok (seg ∷ segs)
      → read_side fl (from_side fl reverse op) ≡ ok (some a)
      → read_side fl (to_side fl reverse op) ≡ ok (some b)
      → get (seg ∷ segs) root ≡ some a
      → value_eq a a ≡ true
      → apply_op fl (some root) op reverse false report ctx
        ≡ ok (some (set (seg ∷ segs) root b).0, counted fl report)
  unfolding apply_op apply_below apply_node slot_eq write_node
  apply_op-expected root a b op reverse report ctx {seg} {segs} hp ha hb hg ra =
      rw ha (rw hb (rw (parse-is_nil op.path hp) (rw hp (rw hg (rw ra refl)))))

  -- Let an operation have a path that parses to keys and indices only, and two JSON sides that
  -- decode to values equal to themselves (no NaN). If the root has the first value at the path,
  -- then applying the operation without force succeeds and counts, the new root has the second
  -- value there, and applying the operation to it in reverse without force gives back the first
  -- root and counts again.
  pub apply_op-undo :
      (root a b : Value) (ja jb : Json) (path : Text) (report report2 : ApplyReport) (ctx : Text)
      (seg : Seg) (segs : List Seg)
      → parse path ≡ ok (seg ∷ segs)
      → NoIdent (seg ∷ segs)
      → from_json fl ja ≡ ok a
      → from_json fl jb ≡ ok b
      → value_eq a a ≡ true
      → value_eq b b ≡ true
      → get (seg ∷ segs) root ≡ some a
      → let op : PatchOp = record { path = path; base = some ja; value = some jb } in
        (root' : Value) × (apply_op fl (some root) op false false report ctx
          ≡ ok (some root', counted fl report))
        × (get (seg ∷ segs) root' ≡ some b)
        × (apply_op fl (some root') op true false report2 ctx ≡ ok (some root, counted fl report2))
  unfolding read_side from_side to_side
  apply_op-undo root a b ja jb path report report2 ctx seg segs hp n ha hb ra rb hg =
      let op : PatchOp = record { path = path; base = some ja; value = some jb } in
      let done = set-succeeds seg segs root b n hg in
      let root' = (set (seg ∷ segs) root b).0 in
      let there = get-set (seg ∷ segs) root b n done in
      let back = set-set (seg ∷ segs) root b a n done ∙ set-get seg segs root a n hg in
      let ea : read_side fl (some ja) ≡ ok (some a) = rw ha refl in
      let eb : read_side fl (some jb) ≡ ok (some b) = rw hb refl in
      (
        root',
        apply_op-expected root a b op false report ctx hp ea eb hg ra,
        there,
        apply_op-expected root' b a op true report2 ctx hp eb ea there rb
            ∙ ap (λ r. ok (some r.0, counted fl report2)) back,
      )
