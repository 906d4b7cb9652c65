-- ===== src/Repo/Wirepack/Matches.antt =====
-- The index that `build` makes stays in step with the pack and the objects.
use Prim.Native.Nat.{Ordering}
use mcagit.Common.{
  ℕ, ◌+◌, ◌≤◌, ◌≡◌, refl, sym, ap, ◌∙◌, arith, List, [], ◌∷◌, ◌++◌, Option, none, some, length,
  take, drop, length-append, take_all, slice-append,
}
use mcagit.Common.Text.{Text, compare_text}
use mcagit.Common.Dict.{Dict, lookup, insert, is_some}
use mcagit.Repo.Result.{ok, ◌>>=◌, >>=-eq-ok}
use mcagit.Repo.Wirepack.{Codec, or_other, pack_objects}

-- The objects as a map, the first of each id.
unfoldable pub distinct_objects : List (Text × List ℕ) → Dict (List ℕ) → Dict (List ℕ)
distinct_objects [] d = d
distinct_objects ((id, content) ∷ objects) d = elim (lookup id d) [
  | some old ↦ distinct_objects objects d
  | none ↦ distinct_objects objects (insert id content d)
]

pub drop_first : (xs ys : List ℕ) → drop (length xs) (xs ++ ys) ≡ ys
drop_first [] ys = refl
drop_first (x ∷ xs) ys = drop_first xs ys

module _ (codec : Codec) where
  -- The index names the same ids, and its places hold the compressed contents.
  abbrev pub Matches : List ℕ → Dict (ℕ × ℕ) → Dict (List ℕ) → Type 0
  Matches pack [] [] = Unit {0}
  Matches pack ((i, (o, l)) ∷ idx) ((j, c) ∷ d) =
      ((i ≡ j) × ((codec.deflate c ≡ some (take l (drop o pack))) × (o + l ≤ length pack)))
      × Matches pack idx d
  Matches pack _ _ = ⊥

  pub Matches-append :
      (pack more : List ℕ) (idx : Dict (ℕ × ℕ)) (d : Dict (List ℕ))
      → Matches pack idx d
      → Matches (pack ++ more) idx d
  Matches-append pack more [] [] m = tt
  Matches-append pack more ((i, (o, l)) ∷ idx) ((j, c) ∷ d) m = (
    (
      m.0.0,
      (
        m.0.1.0 ∙ ap some (sym (slice-append o l pack more m.0.1.1)),
        omega (arith, m.0.1.1, length-append pack more),
      ),
    ),
    Matches-append pack more idx d m.1,
  )
  Matches-append pack more [] (e ∷ d) m = absurd m
  Matches-append pack more (e ∷ idx) [] m = absurd m

  pub Matches-lookup :
      (pack : List ℕ) (id : Text) (idx : Dict (ℕ × ℕ)) (d : Dict (List ℕ))
      → Matches pack idx d
      → is_some (lookup id idx) ≡ is_some (lookup id d)
  unfolding lookup
  Matches-lookup pack id [] [] m = refl
  Matches-lookup pack id ((i, (o, l)) ∷ idx) ((j, c) ∷ d) m =
      ground (arith, m.0.0, Matches-lookup pack id idx d m.1)
  Matches-lookup pack id [] (e ∷ d) m = absurd m
  Matches-lookup pack id (e ∷ idx) [] m = absurd m

  pub insert_step :
      (pack : List ℕ) (id : Text) (o l : ℕ) (content : List ℕ) (i j : Text) (p k : ℕ) (c : List ℕ)
      (idx : Dict (ℕ × ℕ)) (d : Dict (List ℕ)) (order : Ordering)
      → codec.deflate content ≡ some (take l (drop o pack))
      → o + l ≤ length pack
      → Matches pack ((i, (p, k)) ∷ idx) ((j, c) ∷ d)
      → Matches pack (insert id (o, l) idx) (insert id content d)
      → Matches pack
          (elim order [
            | Ordering.lt ↦ (id, (o, l)) ∷ (i, (p, k)) ∷ idx
            | Ordering.eq ↦ (id, (o, l)) ∷ idx
            | Ordering.gt ↦ (i, (p, k)) ∷ insert id (o, l) idx
          ])
          (elim order [
            | Ordering.lt ↦ (id, content) ∷ (j, c) ∷ d
            | Ordering.eq ↦ (id, content) ∷ d
            | Ordering.gt ↦ (j, c) ∷ insert id content d
          ])
  insert_step pack id o l content i j p k c idx d Ordering.lt e b m ih = ((refl, (e, b)), m)
  insert_step pack id o l content i j p k c idx d Ordering.eq e b m ih = ((refl, (e, b)), m.1)
  insert_step pack id o l content i j p k c idx d Ordering.gt e b m ih = (m.0, ih)

  -- An entry for the last bytes of the pack.
  pub Matches-insert :
      (pack : List ℕ) (id : Text) (o l : ℕ) (content : List ℕ) (idx : Dict (ℕ × ℕ))
      (d : Dict (List ℕ))
      → codec.deflate content ≡ some (take l (drop o pack))
      → o + l ≤ length pack
      → Matches pack idx d
      → Matches pack (insert id (o, l) idx) (insert id content d)
  unfolding insert
  Matches-insert pack id o l content [] [] e b m = ((refl, (e, b)), tt)
  Matches-insert pack id o l content ((i, (p, k)) ∷ idx) ((j, c) ∷ d) e b m =
      let step =
        insert_step pack id o l content i j p k c idx d (compare_text id j) e b m
          (Matches-insert pack id o l content idx d e b m.1) in
      rw (m.0.0, insert) step
  Matches-insert pack id o l content [] (f ∷ d) e b m = absurd m
  Matches-insert pack id o l content (f ∷ idx) [] e b m = absurd m

  pub or_other-eq-ok : (o : Option (List ℕ)) (x : List ℕ) → or_other o ≡ ok x → o ≡ some x
  or_other-eq-ok none x e = cc
  or_other-eq-ok (some y) x e = cc

  pub last_slice :
      (pack packed : List ℕ) → take (length packed) (drop (length pack) (pack ++ packed)) ≡ packed
  last_slice pack packed =
      rw (drop_first pack packed) (take_all (length packed) packed (omega arith))

  pub pack_step :
      (objects : List (Text × List ℕ)) (id : Text) (content : List ℕ) (idx out_idx : Dict (ℕ × ℕ))
      (pack out_pack : List ℕ) (d : Dict (List ℕ)) (o : Option (ℕ × ℕ)) (q : Option (List ℕ))
      → is_some o ≡ is_some q
      → (elim o [
        | some place ↦ pack_objects codec objects idx pack
        | none ↦ do
          packed ← or_other (codec.deflate content)
          pack_objects codec objects (insert id (length pack, length packed) idx) (pack ++ packed)
      ])
        ≡ ok (out_idx, out_pack)
      → Matches pack idx d
      → ((idx' : Dict (ℕ × ℕ)) (pack' : List ℕ) (d' : Dict (List ℕ))
          → pack_objects codec objects idx' pack' ≡ ok (out_idx, out_pack)
          → Matches pack' idx' d'
          → Matches out_pack out_idx (distinct_objects objects d'))
      → Matches out_pack out_idx (elim q [
        | some old ↦ distinct_objects objects d
        | none ↦ distinct_objects objects (insert id content d)
      ])
  pack_step objects id content idx out_idx pack out_pack d (some o) (some q) same e m next =
      next idx pack d e m
  pack_step objects id content idx out_idx pack out_pack d none none same e m next =
      let (packed, e1, f1) = >>=-eq-ok (or_other (codec.deflate content)) _ e in
      let stored = or_other-eq-ok (codec.deflate content) packed e1 in
      let held = Matches-append pack packed idx d m in
      next _ (pack ++ packed) (insert id content d) f1 (
        Matches-insert (pack ++ packed) id (length pack) (length packed) content idx d
          (stored ∙ ap some (sym (last_slice pack packed)))
          (omega (arith, length-append pack packed)) held)
  pack_step objects id content idx out_idx pack out_pack d none (some q) same e m next = cc
  pack_step objects id content idx out_idx pack out_pack d (some o) none same e m next = cc

  -- The loop of `build` keeps the index and the pack in step with the objects.
  pub pack_objects_lem :
      (objects : List (Text × List ℕ)) (idx out_idx : Dict (ℕ × ℕ)) (pack out_pack : List ℕ)
      (d : Dict (List ℕ))
      → pack_objects codec objects idx pack ≡ ok (out_idx, out_pack)
      → Matches pack idx d
      → Matches out_pack out_idx (distinct_objects objects d)
  unfolding pack_objects distinct_objects
  pack_objects_lem [] idx out_idx pack out_pack d e m =
      let (same_idx, same_pack) : (idx ≡ out_idx) × (pack ≡ out_pack) = (cc, cc) in
      rw (sym same_idx, sym same_pack) m
  pack_objects_lem ((id, content) ∷ objects) idx out_idx pack out_pack d e m =
      pack_step objects id content idx out_idx pack out_pack d (lookup id idx) (lookup id d)
        (Matches-lookup pack id idx d m) e m
        (λ idx' pack' d' e' m'. pack_objects_lem objects idx' out_idx pack' out_pack d' e' m')
