-- ===== src/Repo/Pathspec/Found.antt =====
-- `seg_match` of crates/repo/src/pathspec.rs is the direct reading of a pattern.
use mcagit.Common.{
  ℕ, zero, suc, ◌+◌, ◌≤◌, [], ◌∷◌, true, false, ◌&&◌, ◌||◌, Option, none, some, ◌==◌, ◌≡◌, inl, inr,
  refl, sym, subst, ◌∙◌, arith, Bool-cases, length,
}
use mcagit.Common.Text.{Text}
use mcagit.Repo.Pathspec.{tail, seg_loop, seg_fuel, seg_match}
use mcagit.Repo.Pathspec.Glob.{anywhere, one, glob, NoStar, only_stars-glob}
use mcagit.Repo.Pathspec.Match.{
  retry, left, IsPlaced, retry-anywhere, anywhere-unfold, glob-star, glob_forgets, IsBehind-next,
  IsBehind-start, NoStar-tail, rounds-tail, rounds-left,
}

IsPlaced-next :
    (each a c : ℕ) (p s : Text) (star : Option (Text × Text))
    → (a == b'*') ≡ false
    → IsPlaced each (a ∷ p) (c ∷ s) star
    → IsPlaced each p s star
IsPlaced-next each a c p s none n b = tt
IsPlaced-next each a c p s (some (q, m)) n b = IsBehind-next each a c p s q m n b

left-next :
    (each c : ℕ) (s : Text) (star : Option (Text × Text))
    → left each s star ≤ left each (c ∷ s) star
left-next each c s none = omega arith
left-next each c s (some (q, m)) = omega arith

glob-byte :
    (a c : ℕ) (p s : Text)
    → (a == b'*') ≡ false
    → glob (a ∷ p) (c ∷ s) ≡ ((a == b'?' || a == c) && glob p s)
unfolding glob one
glob-byte a c p s n = ground arith

glob_nil : (c : ℕ) (s : Text) → glob [] (c ∷ s) ≡ false
unfolding glob
glob_nil c s = refl

loop_same :
    (fuel a c : ℕ) (p s : Text) (star : Option (Text × Text))
    → (a == b'?' || a == c) ≡ true
    → seg_loop (suc fuel) (a ∷ p) (c ∷ s) star ≡ seg_loop fuel p s star
unfolding seg_loop
loop_same fuel a c p s star h = rw h refl

loop_star :
    (fuel a c : ℕ) (p s : Text) (star : Option (Text × Text))
    → (a == b'?' || a == c) ≡ false
    → (a == b'*') ≡ true
    → seg_loop (suc fuel) (a ∷ p) (c ∷ s) star ≡ seg_loop fuel p (c ∷ s) (some (p, c ∷ s))
unfolding seg_loop
loop_star fuel a c p s star h e = rw h (rw e refl)

-- Where the pattern and the text differ, the loop goes back to the last star.
loop_back :
    (fuel a c : ℕ) (p s : Text) (star : Option (Text × Text))
    → (a == b'?' || a == c) ≡ false
    → (a == b'*') ≡ false
    → ((q m : Text)
        → star ≡ some (q, m)
        → seg_loop fuel q (tail m) (some (q, tail m)) ≡ anywhere (glob q) (tail m))
    → seg_loop (suc fuel) (a ∷ p) (c ∷ s) star ≡ retry star
unfolding seg_loop
loop_back fuel a c p s none h e back = rw h (rw e refl)
loop_back fuel a c p s (some (q, m)) h e back = rw h (rw e (back q m refl))

star_absorbs :
    (each a c : ℕ) (p s : Text) (star : Option (Text × Text))
    → (a == b'*') ≡ true
    → IsPlaced each (a ∷ p) (c ∷ s) star
    → anywhere (glob p) (c ∷ s) ≡ (glob (a ∷ p) (c ∷ s) || retry star)
star_absorbs each a c p s star h b = elim (Bool-cases (retry star)) [
  | inl hit ↦
      let found = glob_forgets a p (c ∷ s) h (retry-anywhere each (a ∷ p) (c ∷ s) star b hit) in
      ground (arith, glob-star a p (c ∷ s) h, found)
  | inr miss ↦ ground (arith, glob-star a p (c ∷ s) h, miss)
]

seg_loop-retry :
    (each fuel : ℕ) (p s : Text) (star : Option (Text × Text))
    → NoStar s
    → IsPlaced each p s star
    → length p + length s ≤ each
    → left each s star + (length p + length s) ≤ fuel
    → seg_loop fuel p s star ≡ (glob p s || retry star)
unfolding seg_loop anywhere
seg_loop-retry each fuel p [] star n b room f = elim (Bool-cases (retry star)) [
  | inl hit ↦
      let found : glob p [] ≡ true = retry-anywhere each p [] star b hit in
      ground (arith, only_stars-glob p, found)
  | inr miss ↦ ground (arith, only_stars-glob p, miss)
]
seg_loop-retry each zero p (c ∷ s) star n b room f = absurd (omega arith)
seg_loop-retry each (suc fuel) [] (c ∷ s) none n b room f = ground (arith, glob_nil c s)
seg_loop-retry each (suc fuel) [] (c ∷ s) (some (q, m)) n b room f =
    let (f', r') = rounds-tail each [] c s q m fuel b f in
    seg_loop-retry each fuel q (tail m) (some (q, tail m)) (NoStar-tail m b.literal)
      (IsBehind-start each q (tail m) (NoStar-tail m b.literal) r') r' f'
    ∙ sym (anywhere-unfold (glob q) (tail m))
    ∙ ground (arith, glob_nil c s)
seg_loop-retry each (suc fuel) (a ∷ p) (c ∷ s) star n b room f = elim (Bool-cases (a == b'*')) [
  | inl is_star ↦
      let placed = IsBehind-start each p (c ∷ s) n (omega arith) in
      let ih =
        seg_loop-retry each fuel p (c ∷ s) (some (p, c ∷ s)) n placed (omega arith)
          (omega (arith, rounds-left each (a ∷ p) (c ∷ s) star b)) in
      loop_star fuel a c p s star (ground (arith, n.0)) is_star
      ∙ ih
      ∙ star_absorbs each a c p s star is_star b
  | inr byte ↦ elim (Bool-cases (a == b'?' || a == c)) [
    | inl hit ↦
        let ih =
          seg_loop-retry each fuel p s star n.1 (IsPlaced-next each a c p s star byte b)
            (omega arith) (omega (arith, left-next each c s star)) in
        loop_same fuel a c p s star hit ∙ ih ∙ ground (arith, glob-byte a c p s byte)
    | inr miss ↦
        loop_back fuel a c p s star miss byte (λ q m e.
          let b' = subst (IsPlaced each (a ∷ p) (c ∷ s)) e b in
          let plain = NoStar-tail m b'.literal in
          let f0 =
            subst (λ x. left each (c ∷ s) x + (length (a ∷ p) + length (c ∷ s)) ≤ suc fuel) e f in
          let (f', r') = rounds-tail each (a ∷ p) c s q m fuel b' f0 in
          seg_loop-retry each fuel q (tail m) (some (q, tail m)) plain
            (IsBehind-start each q (tail m) plain r') r' f'
          ∙ sym (anywhere-unfold (glob q) (tail m)))
        ∙ ground (arith, glob-byte a c p s byte, miss)
  ]
]

-- On a text without a star, seg_match, which walks with two positions and returns to the last star
-- only, answers the same as the direct reading in which each star is tried against every run of
-- bytes and a question mark stands for any one byte (not for a whole character, where that has
-- several bytes).
pub seg_match-glob : (p s : Text) → NoStar s → seg_match p s ≡ glob p s
unfolding seg_match
seg_match-glob p s n =
    seg_loop-retry (length p + length s) (seg_fuel p s) p s none n tt (omega arith) (omega arith)
    ∙ ground arith
