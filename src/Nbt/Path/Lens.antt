-- ===== src/Nbt/Path/Lens.antt =====
-- Reading and writing at a path of keys and indices: the laws of a lens.
use mcagit.Common.{List, [], ◌∷◌, true, false, some, ◌≡◌, inl, inr, refl, arith, Option-cases}
use mcagit.Nbt.Value.{Value, list, compound, items_list}
use mcagit.Nbt.Path.{Seg, key, index, ident, step, get, set, set_last}
use mcagit.Nbt.Path.Steps.{
  NoIdent, get_elem?-lt, step-put, put-same, put-twice, get-set_last, set-get_last, set-set_last,
}

NoIdent-head : (seg : Seg) (segs : List Seg) → NoIdent (seg ∷ segs) → NoIdent (seg ∷ [])
NoIdent-head (key k) segs n = tt
NoIdent-head (index i) segs n = tt
NoIdent-head (ident id) segs n = n

NoIdent-tail : (seg : Seg) (segs : List Seg) → NoIdent (seg ∷ segs) → NoIdent segs
NoIdent-tail (key k) segs n = n
NoIdent-tail (index i) segs n = n
NoIdent-tail (ident id) segs n = absurd n

-- Along a path of keys and indices, where set answers true, get finds the value that was set.
pub get-set :
    (segs : List Seg) (root w : Value)
    → NoIdent segs
    → (set segs root w).1 ≡ true
    → get segs (set segs root w).0 ≡ some w
unfolding get set
get-set [] root w n h = cc
get-set (seg ∷ []) root w n h = rw (get-set_last seg root w n h, get)
get-set (seg ∷ next ∷ segs) root w n h = elim (Option-cases (step root seg)) [
  | inl gone ↦ ground arith
  | inr (child, e) ↦
      let ih = get-set (next ∷ segs) child w (NoIdent-tail seg (next ∷ segs) n) in
      ground (
        arith,
        step-put root seg child (set (next ∷ segs) child w).0 (NoIdent-head seg (next ∷ segs) n) e,
        ih,
      )
]

-- Along a path of at least one step, all keys and indices, setting the value that get finds there
-- answers true and leaves the root as it was.
pub set-get :
    (seg : Seg) (segs : List Seg) (root v : Value)
    → NoIdent (seg ∷ segs)
    → get (seg ∷ segs) root ≡ some v
    → set (seg ∷ segs) root v ≡ (root, true)
unfolding get set
set-get seg [] root v n h = set-get_last seg root v n (ground arith)
set-get seg (next ∷ segs) root v n h = elim (Option-cases (step root seg)) [
  | inl gone ↦ ground arith
  | inr (child, e) ↦ ground (
    arith,
    set-get next segs child v (NoIdent-tail seg (next ∷ segs) n),
    put-same root seg child e,
  )
]

-- Along a path of keys and indices, where the first set answers true, a second set gives the same
-- as if the first had not been made.
pub set-set :
    (segs : List Seg) (root v w : Value)
    → NoIdent segs
    → (set segs root v).1 ≡ true
    → set segs (set segs root v).0 w ≡ set segs root w
unfolding set
set-set [] root v w n h = cc
set-set (seg ∷ []) root v w n h = set-set_last seg root v w n h
set-set (seg ∷ next ∷ segs) root v w n h = elim (Option-cases (step root seg)) [
  | inl gone ↦ ground arith
  | inr (child, e) ↦
      let child' = (set (next ∷ segs) child v).0 in
      ground (
        arith,
        step-put root seg child child' (NoIdent-head seg (next ∷ segs) n) e,
        put-twice root seg child' (set (next ∷ segs) child' w).0 (NoIdent-head seg (next ∷ segs) n),
        set-set (next ∷ segs) child v w (NoIdent-tail seg (next ∷ segs) n),
      )
]

set_last-failed :
    (seg : Seg) (cur w : Value) → (set_last seg cur w).1 ≡ false → (set_last seg cur w).0 ≡ cur
unfolding set_last
set_last-failed (key k) (compound m) w h = cc
set_last-failed (index i) (list xs) w h = ground arith
set_last-failed (ident id) (list xs) w h = ground arith
set_last-failed _ _ w h = refl

-- Along every path, where set answers false it has left the root as it was.
pub set-failed :
    (segs : List Seg) (root w : Value) → (set segs root w).1 ≡ false → (set segs root w).0 ≡ root
unfolding set
set-failed [] root w h = refl
set-failed (seg ∷ []) root w h = set_last-failed seg root w h
set-failed (seg ∷ next ∷ segs) root w h = elim (Option-cases (step root seg)) [
  | inl gone ↦ ground arith
  | inr (child, e) ↦ ground (arith, set-failed (next ∷ segs) child w, put-same root seg child e)
]

set_last-succeeds :
    (seg : Seg) (cur v w : Value)
    → NoIdent (seg ∷ [])
    → step cur seg ≡ some v
    → (set_last seg cur w).1 ≡ true
unfolding step set_last
set_last-succeeds (key k) (compound m) v w n h = refl
set_last-succeeds (index i) (list xs) v w n h = ground (arith, get_elem?-lt i (items_list xs) h)
set_last-succeeds (ident id) cur v w n h = absurd n
set_last-succeeds _ _ v w n h = cc

-- A value that is there can be replaced.
pub set-succeeds :
    (seg : Seg) (segs : List Seg) (root w : Value) {v : Value}
    → NoIdent (seg ∷ segs)
    → get (seg ∷ segs) root ≡ some v
    → (set (seg ∷ segs) root w).1 ≡ true
unfolding get set
set-succeeds seg [] root w {v} n h = set_last-succeeds seg root v w n (ground arith)
set-succeeds seg (next ∷ segs) root w {v} n h = elim (Option-cases (step root seg)) [
  | inl gone ↦ ground arith
  | inr (child, e) ↦ ground (
    arith,
    set-succeeds next segs child w {v = v} (NoIdent-tail seg (next ∷ segs) n) (ground arith),
  )
]
