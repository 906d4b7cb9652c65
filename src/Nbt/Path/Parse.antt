-- ===== src/Nbt/Path/Parse.antt =====
-- Parsing of printed paths: the text that the comparer builds names the node that it stands for.
use mcagit.Common.{
  ℕ, zero, suc, ◌≤◌, ◌<◌, ◌^◌, List, [], ◌∷◌, ◌++◌, true, false, not, none, some, ◌==◌, length,
  length-append, ◌≡◌, ◌≢◌, inl, inr, refl, ap, ap₂, ◌∙◌, arith, Bool-cases, Option-cases,
}
use mcagit.Common.Text.{Text, Every, Every-weaken}
use mcagit.Nbt.Error.{Result, ok, err, diverged}
use mcagit.Nbt.Decimal.{show_nat, parse_usize, is_digit}
use mcagit.Nbt.Decimal.RoundTrip.{parse_usize-show_nat, show_nat-head, show_nat-digits}
use mcagit.Nbt.Path.{
  Seg, key, index, ident, split_bracket, ends_key, key_text, after_key, bracket_seg, is_nil, push,
  parse_loop, reject_empty, parse,
}

length-after_key : (s : Text) → length (after_key s) ≤ length s
unfolding after_key
length-after_key [] = omega arith
length-after_key (c ∷ s) = ground (arith, length-after_key s)

length-split_bracket : (s a b : Text) → split_bracket s ≡ some (a, b) → length b < length s
unfolding split_bracket
length-split_bracket [] a b h = cc
length-split_bracket (c ∷ s) a b h = elim (Option-cases (split_bracket s)) [
  | inl e ↦ ground arith
  | inr ((a', b'), e) ↦ ground (arith, length-split_bracket s a' b' e)
]

push-ne-diverged :
    (seg : Seg) (r : Result (List Seg)) → r ≢ err diverged → push seg r ≢ err diverged
push-ne-diverged seg (ok segs) h = λ e. cc
push-ne-diverged seg (err x) h = λ e. h (cc)

-- The three kinds of round.
parse_loop_dot : (fuel : ℕ) (s : Text) → parse_loop (suc fuel) (b'.' ∷ s) ≡ parse_loop fuel s
unfolding parse_loop
parse_loop_dot fuel s = refl

parse_loop_key :
    (fuel c : ℕ) (s : Text)
    → ends_key c ≡ false
    → parse_loop (suc fuel) (c ∷ s) ≡ push (key (c ∷ key_text s)) (parse_loop fuel (after_key s))
unfolding parse_loop after_key key_text
parse_loop_key fuel c s h = ground arith

parse_loop_bracket :
    (fuel : ℕ) (s a t : Text)
    → split_bracket s ≡ some (a, t)
    → is_nil a ≡ false
    → parse_loop (suc fuel) (b'[' ∷ s) ≡ push (bracket_seg a) (parse_loop fuel t)
unfolding parse_loop
parse_loop_bracket fuel s a t e h = rw e (rw h refl)

parse_loop-ne-diverged : (fuel : ℕ) (s : Text) → length s ≤ fuel → parse_loop fuel s ≢ err diverged
unfolding parse_loop after_key
parse_loop-ne-diverged fuel [] h = λ e. cc
parse_loop-ne-diverged zero (c ∷ s) h = absurd (omega arith)
parse_loop-ne-diverged (suc fuel) (c ∷ s) h = elim (Bool-cases (c == b'.')) [
  | inl dot ↦ rw (dot, parse_loop) (parse_loop-ne-diverged fuel s (omega arith))
  | inr n ↦ elim (Bool-cases (c == b'[')) [
    | inl open_ ↦ elim (Option-cases (split_bracket s)) [
      | inl e ↦ λ d. ground arith
      | inr ((a, b), e) ↦ λ d. ground (
        arith,
        push-ne-diverged (bracket_seg a) (parse_loop fuel b)
            (parse_loop-ne-diverged fuel b (omega (arith, length-split_bracket s a b e))),
      )
    ]
    | inr m ↦ rw (parse_loop_key fuel c s (ground arith)) (
        push-ne-diverged (key (c ∷ key_text s)) (parse_loop fuel (after_key s))
          (parse_loop-ne-diverged fuel (after_key s) (omega (arith, length-after_key s))))
  ]
]

-- Parsing a path never runs out of rounds: on every text it returns the steps or an error of the
-- program.
pub parse-ne-diverged : (s : Text) → parse s ≢ err diverged
unfolding parse
parse-ne-diverged s =
    rejected (parse_loop (length s) s) (parse_loop-ne-diverged (length s) s (omega arith))
  where
    rejected : (r : Result (List Seg)) → r ≢ err diverged → reject_empty r ≢ err diverged
    rejected (ok []) h = λ e. cc
    rejected (ok (seg ∷ segs)) h = λ e. cc
    rejected (err x) h = λ e. h (cc)

-- Steps whose text is read back: a key is not empty and has neither '.' nor '[', an index fits
-- usize, and an identity is not empty, has no ']' and is not itself an index.
abbrev pub IsPlainSeg : Seg → Type 0
IsPlainSeg (key k) = (is_nil k ≡ false) × Every (λ c. not (ends_key c)) k
IsPlainSeg (index n) = n < 2 ^ 64
IsPlainSeg (ident id) =
    (is_nil id ≡ false) × Every (λ c. not (c == b']')) id × (parse_usize id ≡ none)

abbrev pub AllPlain : List Seg → Type 0
AllPlain [] = Unit {0}
AllPlain (seg ∷ segs) = IsPlainSeg seg × AllPlain segs

-- The text of the steps behind the first.
abbrev pub print_rest : List Seg → Text
print_rest [] = []
print_rest (key k ∷ segs) = b'.' ∷ (k ++ print_rest segs)
print_rest (index n ∷ segs) = b'[' ∷ (show_nat n ++ (b']' ∷ print_rest segs))
print_rest (ident id ∷ segs) = b'[' ∷ (id ++ (b']' ∷ print_rest segs))

-- A key at the front stands without its dot.
abbrev pub print : List Seg → Text
print (key k ∷ segs) = k ++ print_rest segs
print segs = print_rest segs

-- The text that follows a key: the end, or something at which a key ends.
abbrev Stops : Text → Type 0
Stops [] = Unit {0}
Stops (c ∷ s) = ends_key c ≡ true

Stops-print_rest : (segs : List Seg) → Stops (print_rest segs)
Stops-print_rest [] = tt
Stops-print_rest (key k ∷ segs) = refl
Stops-print_rest (index n ∷ segs) = refl
Stops-print_rest (ident id ∷ segs) = refl

key_text-append : (k t : Text) → Every (λ c. not (ends_key c)) k → Stops t → key_text (k ++ t) ≡ k
unfolding key_text
key_text-append [] [] h s = refl
key_text-append [] (c ∷ t) h s = ground arith
key_text-append (c ∷ k) t h s = ground (arith, key_text-append k t h.1 s)

after_key-append : (k t : Text) → Every (λ c. not (ends_key c)) k → Stops t → after_key (k ++ t) ≡ t
unfolding after_key
after_key-append [] [] h s = refl
after_key-append [] (c ∷ t) h s = ground arith
after_key-append (c ∷ k) t h s = ground (arith, after_key-append k t h.1 s)

split_bracket-append :
    (a t : Text) → Every (λ c. not (c == b']')) a → split_bracket (a ++ (b']' ∷ t)) ≡ some (a, t)
unfolding split_bracket
split_bracket-append [] t h = refl
split_bracket-append (c ∷ a) t h = ground (arith, split_bracket-append a t h.1)

show_nat-no_bracket : (n : ℕ) → Every (λ c. not (c == b']')) (show_nat n)
show_nat-no_bracket n =
    Every-weaken is_digit (λ c. not (c == b']')) (λ c d. ground arith) (show_nat n)
      (show_nat-digits n)

parse_loop-key :
    (fuel c : ℕ) (k : Text) (segs : List Seg)
    → Every (λ x. not (ends_key x)) (c ∷ k)
    → parse_loop (suc fuel) ((c ∷ k) ++ print_rest segs)
      ≡ push (key (c ∷ k)) (parse_loop fuel (print_rest segs))
parse_loop-key fuel c k segs h = rw (
  parse_loop_key fuel c (k ++ print_rest segs) (ground arith),
  key_text-append k (print_rest segs) h.1 (Stops-print_rest segs),
  after_key-append k (print_rest segs) h.1 (Stops-print_rest segs),
)

bracket_seg-index : (n : ℕ) → n < 2 ^ 64 → bracket_seg (show_nat n) ≡ index n
unfolding bracket_seg
bracket_seg-index n h = rw (parse_usize-show_nat n h, bracket_seg)

bracket_seg-ident : (id : Text) → parse_usize id ≡ none → bracket_seg id ≡ ident id
unfolding bracket_seg
bracket_seg-ident id h = rw (h, bracket_seg)

show_nat-filled : (n : ℕ) → is_nil (show_nat n) ≡ false
show_nat-filled n = let (c, s, e, d) = show_nat-head n in rw e

-- The loop reads back the steps behind the first, with any fuel that covers the text.
parse_loop-print_rest :
    (segs : List Seg) (fuel : ℕ)
    → AllPlain segs
    → length (print_rest segs) ≤ fuel
    → parse_loop fuel (print_rest segs) ≡ ok segs
parse_loop-print_rest [] zero h f = unfold parse_loop in refl
parse_loop-print_rest [] (suc fuel) h f = unfold parse_loop in refl
parse_loop-print_rest (key [] ∷ segs) fuel h f = cc (h.0.0)
parse_loop-print_rest (key (c ∷ k) ∷ segs) zero h f = absurd (omega arith)
parse_loop-print_rest (key (c ∷ k) ∷ segs) (suc zero) h f = absurd (omega arith)
parse_loop-print_rest (key (c ∷ k) ∷ segs) (suc (suc fuel)) h f =
    let rest =
      parse_loop-print_rest segs fuel h.1 (omega (arith, length-append k (print_rest segs))) in
    parse_loop_dot (suc fuel) ((c ∷ k) ++ print_rest segs)
    ∙ parse_loop-key fuel c k segs h.0.1
    ∙ ap (push (key (c ∷ k))) rest
parse_loop-print_rest (index n ∷ segs) zero h f = absurd (omega arith)
parse_loop-print_rest (index n ∷ segs) (suc fuel) h f =
    let text = b']' ∷ print_rest segs in
    let rest =
      parse_loop-print_rest segs fuel h.1 (omega (arith, length-append (show_nat n) text)) in
    parse_loop_bracket fuel (show_nat n ++ text) (show_nat n) (print_rest segs)
      (split_bracket-append (show_nat n) (print_rest segs) (show_nat-no_bracket n))
      (show_nat-filled n)
    ∙ ap₂ push (bracket_seg-index n h.0) rest
parse_loop-print_rest (ident id ∷ segs) zero h f = absurd (omega arith)
parse_loop-print_rest (ident id ∷ segs) (suc fuel) h f =
    let text = b']' ∷ print_rest segs in
    let rest = parse_loop-print_rest segs fuel h.1 (omega (arith, length-append id text)) in
    parse_loop_bracket fuel (id ++ text) id (print_rest segs)
      (split_bracket-append id (print_rest segs) h.0.1) h.0.0
    ∙ ap₂ push (bracket_seg-ident id h.0.2) rest

-- A path is printed and parsed back to the same steps, if each key is not empty and has no dot or
-- opening bracket, each index is below 2^64, and each identity is not empty, has no closing bracket
-- and does not read as an index.
pub parse-print :
    (seg : Seg) (segs : List Seg)
    → AllPlain (seg ∷ segs)
    → parse (print (seg ∷ segs)) ≡ ok (seg ∷ segs)
unfolding parse
parse-print (key []) segs h = cc (h.0.0)
parse-print (key (c ∷ k)) segs h =
    let rest =
      parse_loop-print_rest segs (length (k ++ print_rest segs)) h.1
        (omega (arith, length-append k (print_rest segs))) in
    ap reject_empty
      (parse_loop-key (length (k ++ print_rest segs)) c k segs h.0.1 ∙ ap (push (key (c ∷ k))) rest)
parse-print (index n) segs h =
    ap reject_empty
      (parse_loop-print_rest (index n ∷ segs) (length (print (index n ∷ segs))) h (omega arith))
parse-print (ident id) segs h =
    ap reject_empty
      (parse_loop-print_rest (ident id ∷ segs) (length (print (ident id ∷ segs))) h (omega arith))
