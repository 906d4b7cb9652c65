-- ===== src/Nbt/Path/Steps.antt =====
-- One step of a path in crates/nbt/src/path.rs: what `put` and the last step of `set` do to `step`.
use mcagit.Common.{
  ℕ, zero, suc, ◌<◌, List, [], ◌∷◌, true, some, if◌then◌else◌, length, get_elem?, ◌≡◌, refl, ap,
  ◌∙◌, arith,
}
use mcagit.Common.Text.{Text, text_eq, text_eq_iff, text_eq_refl}
use mcagit.Nbt.Value.{
  Value, Items, Entries, nil, cons, list, compound, end, entry, items_list, items_of, find_entry,
}
use mcagit.Nbt.Path.{
  Seg, key, index, ident, step, put, set_last, set_index, insert_entry, append_value, find_ident,
  set_ident,
}

-- No step of the path goes by identity.
abbrev pub NoIdent : List Seg → Type 0
NoIdent [] = Unit
NoIdent (key k ∷ segs) = NoIdent segs
NoIdent (index i ∷ segs) = NoIdent segs
NoIdent (ident id ∷ segs) = ⊥

pub items_list-of : (vs : List Value) → items_list (items_of vs) ≡ vs
items_list-of [] = refl
items_list-of (v ∷ vs) = ap (λ r. v ∷ r) (items_list-of vs)

pub items_of-list : (xs : Items) → items_of (items_list xs) ≡ xs
items_of-list nil = refl
items_of-list (cons v xs) = ap (cons v) (items_of-list xs)

pub find-insert_entry :
    (k j : Text) (w : Value) (m : Entries)
    → find_entry j (insert_entry k w m) ≡ (if text_eq k j then some w else find_entry j m)
unfolding find_entry insert_entry
find-insert_entry k j w end = ground arith
find-insert_entry k j w (entry i v m) =
    ground (arith, text_eq_iff k j, text_eq_iff i j, text_eq_iff i k, find-insert_entry k j w m)

pub insert_entry-same :
    (k : Text) (v : Value) (m : Entries) → find_entry k m ≡ some v → insert_entry k v m ≡ m
unfolding find_entry insert_entry
insert_entry-same k v end h = cc
insert_entry-same k v (entry j w m) h = ground (arith, insert_entry-same k v m)

pub insert_entry-twice :
    (k : Text) (v w : Value) (m : Entries)
    → insert_entry k w (insert_entry k v m) ≡ insert_entry k w m
unfolding insert_entry
insert_entry-twice k v w end = ground (arith, text_eq_refl k)
insert_entry-twice k v w (entry j u m) = ground (arith, insert_entry-twice k v w m)

pub get_elem?-set_index :
    (i : ℕ) (w v : Value) (vs : List Value)
    → get_elem? vs i ≡ some v
    → get_elem? (set_index i w vs) i ≡ some w
unfolding set_index
get_elem?-set_index i w v [] h = cc
get_elem?-set_index zero w v (u ∷ vs) h = refl
get_elem?-set_index (suc i) w v (u ∷ vs) h = get_elem?-set_index i w v vs h

pub set_index-same :
    (i : ℕ) (v : Value) (vs : List Value) → get_elem? vs i ≡ some v → set_index i v vs ≡ vs
unfolding set_index
set_index-same i v [] h = cc
set_index-same zero v (u ∷ vs) h = ground arith
set_index-same (suc i) v (u ∷ vs) h = ap (λ r. u ∷ r) (set_index-same i v vs h)

pub set_index-twice :
    (i : ℕ) (v w : Value) (vs : List Value) → set_index i w (set_index i v vs) ≡ set_index i w vs
unfolding set_index
set_index-twice i v w [] = refl
set_index-twice zero v w (u ∷ vs) = refl
set_index-twice (suc i) v w (u ∷ vs) = ap (λ r. u ∷ r) (set_index-twice i v w vs)

pub get_elem?-lt : (i : ℕ) (vs : List Value) {v : Value} → get_elem? vs i ≡ some v → i < length vs
get_elem?-lt i [] h = cc
get_elem?-lt zero (u ∷ vs) h = omega arith
get_elem?-lt (suc i) (u ∷ vs) h = omega (arith, get_elem?-lt i vs h)

pub get_elem?-append_last :
    (vs : List Value) (w : Value) → get_elem? (append_value vs w) (length vs) ≡ some w
unfolding append_value
get_elem?-append_last [] w = refl
get_elem?-append_last (v ∷ vs) w = get_elem?-append_last vs w

pub get_elem?-total :
    (i : ℕ) (vs : List Value) → i < length vs → (v : Value) × (get_elem? vs i ≡ some v)
get_elem?-total i [] h = absurd (omega arith)
get_elem?-total zero (u ∷ vs) h = (u, refl)
get_elem?-total (suc i) (u ∷ vs) h = get_elem?-total i vs (omega arith)

pub get_elem?-set_lt :
    (i : ℕ) (w : Value) (vs : List Value) → i < length vs → get_elem? (set_index i w vs) i ≡ some w
get_elem?-set_lt i w vs h = let (v, e) = get_elem?-total i vs h in get_elem?-set_index i w v vs e

-- One step: what was put is found, putting what is there changes nothing, and the last put counts.
pub step-put :
    (cur : Value) (seg : Seg) (v w : Value)
    → NoIdent (seg ∷ [])
    → step cur seg ≡ some v
    → step (put cur seg w) seg ≡ some w
unfolding step put
step-put (compound m) (key k) v w n h = rw find-insert_entry (rw (text_eq_refl k) refl)
step-put (list xs) (index i) v w n h =
    rw items_list-of (get_elem?-set_index i w v (items_list xs) h)
step-put (list xs) (ident id) v w n h = absurd n
step-put _ _ v w n h = cc

pub set_ident-same :
    (id : Text) (v : Value) (vs : List Value) → find_ident id vs ≡ some v → set_ident id v vs ≡ vs
unfolding find_ident set_ident
set_ident-same id v [] h = cc
set_ident-same id v (u ∷ vs) h = ground (arith, set_ident-same id v vs)

pub put-same : (cur : Value) (seg : Seg) (v : Value) → step cur seg ≡ some v → put cur seg v ≡ cur
unfolding step put
put-same (compound m) (key k) v h = ap compound (insert_entry-same k v m h)
put-same (list xs) (index i) v h =
    ap list (ap items_of (set_index-same i v (items_list xs) h) ∙ items_of-list xs)
put-same (list xs) (ident id) v h =
    ap list (ap items_of (set_ident-same id v (items_list xs) h) ∙ items_of-list xs)
put-same _ _ v h = cc

pub put-twice :
    (cur : Value) (seg : Seg) (v w : Value)
    → NoIdent (seg ∷ [])
    → put (put cur seg v) seg w ≡ put cur seg w
unfolding put
put-twice (compound m) (key k) v w n = ap compound (insert_entry-twice k v w m)
put-twice (list xs) (index i) v w n =
    rw items_list-of (ap list (ap items_of (set_index-twice i v w (items_list xs))))
put-twice (list xs) (ident id) v w n = absurd n
put-twice _ _ v w n = refl

pub set_index-append_last :
    (vs : List Value) (v w : Value)
    → set_index (length vs) w (append_value vs v) ≡ append_value vs w
unfolding append_value set_index
set_index-append_last [] v w = refl
set_index-append_last (u ∷ vs) v w = ap (λ r. u ∷ r) (set_index-append_last vs v w)

pub length-append_value :
    (vs : List Value) (w : Value) → length (append_value vs w) ≡ suc (length vs)
unfolding append_value
length-append_value [] w = refl
length-append_value (u ∷ vs) w = ap suc (length-append_value vs w)

pub length-set_index : (i : ℕ) (w : Value) (vs : List Value) → length (set_index i w vs) ≡ length vs
unfolding set_index
length-set_index i w [] = refl
length-set_index zero w (v ∷ vs) = refl
length-set_index (suc i) w (v ∷ vs) = ap suc (length-set_index i w vs)

-- The last step alone.
pub get-set_last :
    (seg : Seg) (cur w : Value)
    → NoIdent (seg ∷ [])
    → (set_last seg cur w).1 ≡ true
    → step (set_last seg cur w).0 seg ≡ some w
unfolding step set_last
get-set_last (key k) (compound m) w n h = rw find-insert_entry (rw (text_eq_refl k) refl)
get-set_last (index i) (list xs) w n h =
    let vs = items_list xs in
    ground (
      arith,
      items_list-of (append_value vs w),
      items_list-of (set_index i w vs),
      get_elem?-append_last vs w,
      get_elem?-set_lt i w vs,
    )
get-set_last (ident id) cur w n h = absurd n
get-set_last _ _ w n h = cc

pub set-get_last :
    (seg : Seg) (cur v : Value)
    → NoIdent (seg ∷ [])
    → step cur seg ≡ some v
    → set_last seg cur v ≡ (cur, true)
unfolding step set_last
set-get_last (key k) (compound m) v n h = rw (insert_entry-same k v m h)
set-get_last (index i) (list xs) v n h = ground (
  arith,
  get_elem?-lt i (items_list xs) h,
  set_index-same i v (items_list xs) h,
  items_of-list xs,
)
set-get_last (ident id) cur v n h = absurd n
set-get_last _ _ v n h = cc

pub set-set_last :
    (seg : Seg) (cur v w : Value)
    → NoIdent (seg ∷ [])
    → (set_last seg cur v).1 ≡ true
    → set_last seg (set_last seg cur v).0 w ≡ set_last seg cur w
unfolding set_last
set-set_last (key k) (compound m) v w n h = rw (insert_entry-twice k v w m)
set-set_last (index i) (list xs) v w n h =
    let vs = items_list xs in
    ground (
      arith,
      items_list-of (append_value vs v),
      items_list-of (set_index i v vs),
      length-append_value vs v,
      length-set_index i v vs,
      set_index-append_last vs v w,
      set_index-twice i v w vs,
    )
set-set_last (ident id) cur v w n h = absurd n
set-set_last _ _ v w n h = cc
