-- ===== src/Nbt/Decimal/RoundTrip.antt =====
-- Printed numbers are read back.
use mcagit.Common.{
  ℕ, zero, suc, ◌+◌, ◌-◌, ◌*◌, ◌/◌, ◌%◌, ◌^◌, ◌<◌, [], ◌∷◌, ◌++◌, true, some, ltb, ℤ, pos, negsuc,
  ◌≡◌, inl, inr, refl, sym, ap, ◌∙◌, arith, ◌>>=◌, Bool-cases,
}
use mcagit.Common.Text.{Text, Every, Every-append}
use mcagit.Nbt.Decimal.{
  digits_loop, show_nat, show_int, is_digit, read_digits, parse_digits, below, parse_usize,
  parse_i64, negative, positive,
}

read_digits-append :
    (acc : ℕ) (s t : Text) → read_digits acc (s ++ t) ≡ (read_digits acc s >>= λ n. read_digits n t)
unfolding read_digits
read_digits-append acc [] t = refl
read_digits-append acc (c ∷ s) t = ground (arith, read_digits-append (acc * 10 + (c - b'0')) s t)

read_digits-digits_loop : (fuel n : ℕ) → n < fuel → read_digits 0 (digits_loop fuel n) ≡ some n
unfolding read_digits digits_loop
read_digits-digits_loop zero n h = absurd (omega arith)
read_digits-digits_loop (suc fuel) n h = ground (
  arith,
  read_digits-append 0 (digits_loop fuel (n / 10)) ((n % 10 + b'0') ∷ []),
  read_digits-digits_loop fuel (n / 10),
)

-- A printed number begins with a digit.
digits_loop-head :
    (fuel n : ℕ)
    → n < fuel
    → (c : ℕ) × (s : Text) × (digits_loop fuel n ≡ c ∷ s) × (is_digit c ≡ true)
unfolding digits_loop
digits_loop-head zero n h = absurd (omega arith)
digits_loop-head (suc fuel) n h = elim (Bool-cases (ltb n 10)) [
  | inl small ↦ (n + b'0', [], rw small, ground arith)
  | inr large ↦
      let (c, s, e, d) = digits_loop-head fuel (n / 10) (ground arith) in
      (c, s ++ ((n % 10 + b'0') ∷ []), rw large (rw e), d)
]

pub show_nat-head : (n : ℕ) → (c : ℕ) × (s : Text) × (show_nat n ≡ c ∷ s) × (is_digit c ≡ true)
unfolding show_nat
show_nat-head n = digits_loop-head (suc n) n (omega arith)

digits_loop-digits : (fuel n : ℕ) → Every is_digit (digits_loop fuel n)
unfolding digits_loop
digits_loop-digits zero n = tt
digits_loop-digits (suc fuel) n = elim (Bool-cases (ltb n 10)) [
  | inl small ↦ rw small (ground arith, tt)
  | inr large ↦ rw large (
      Every-append is_digit (digits_loop fuel (n / 10)) _ (digits_loop-digits fuel (n / 10))
        (ground arith, tt))
]

-- A printed number is made of digits alone.
pub show_nat-digits : (n : ℕ) → Every is_digit (show_nat n)
unfolding show_nat
show_nat-digits n = digits_loop-digits (suc n) n

pub parse_digits-show_nat : (n : ℕ) → parse_digits (show_nat n) ≡ some n
unfolding show_nat parse_digits
parse_digits-show_nat n =
    let (c, s, e, d) = show_nat-head n in ground (arith, read_digits-digits_loop (suc n) n)

-- A printed index is read back as the same index.
pub parse_usize-show_nat : (n : ℕ) → n < 2 ^ 64 → parse_usize (show_nat n) ≡ some n
unfolding below parse_usize
parse_usize-show_nat n h =
    let (c, s, e, d) = show_nat-head n in
    let back : parse_digits (c ∷ s) ≡ some n = ap parse_digits (sym e) ∙ parse_digits-show_nat n in
    rw e (ground arith)

-- The range of `i64`.
abbrev pub IsI64 : ℤ → Type 0
IsI64 (pos n) = n < 2 ^ 63
IsI64 (negsuc n) = n < 2 ^ 63

-- Every `i64` is printed and read back without loss.
pub parse_i64-show_int : (z : ℤ) → IsI64 z → parse_i64 (show_int z) ≡ some z
unfolding below show_int parse_i64 negative positive
parse_i64-show_int (pos n) h =
    let (c, s, e, d) = show_nat-head n in
    let back : parse_digits (c ∷ s) ≡ some n = ap parse_digits (sym e) ∙ parse_digits-show_nat n in
    rw e (ground arith)
parse_i64-show_int (negsuc n) h = rw (parse_digits-show_nat (suc n)) (ground arith)
