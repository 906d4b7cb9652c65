-- ===== src/Nbt/Decimal.antt =====
-- Decimal text: what Rust's `Display` and `FromStr` of the integer types do, for the callers in
-- identity.rs, path.rs and json.rs of crates/nbt/src.
pub mod RoundTrip
use mcagit.Common.{
  ℕ, zero, suc, ◌+◌, ◌-◌, ◌*◌, ◌/◌, ◌%◌, ◌^◌, [], ◌∷◌, ◌++◌, Bool, true, false, ◌&&◌, Option, none,
  some, ltb, leb, ◌==◌, if◌then◌else◌, ℤ, pos, negsuc,
}
use mcagit.Common.Text.{Text}

-- `to_string` of an unsigned number; the fuel is above the number of digits.
unfoldable pub digits_loop : ℕ → ℕ → Text
digits_loop zero n = []
digits_loop (suc fuel) n =
    let higher = digits_loop fuel (n / 10) in
    if ltb n 10 then (n + b'0') ∷ [] else higher ++ ((n % 10 + b'0') ∷ [])

unfoldable pub show_nat : ℕ → Text
unfolding digits_loop
show_nat n = digits_loop (suc n) n

-- `to_string` of a signed number.
unfoldable pub show_int : ℤ → Text
unfolding show_nat
show_int (pos n) = show_nat n
show_int (negsuc n) = b'-' ∷ show_nat (suc n)

abbrev pub is_digit : ℕ → Bool
is_digit c = leb b'0' c && leb c b'9'

-- The digits of a number, read from the left; at least one is needed by `parse_digits`.
unfoldable pub read_digits : ℕ → Text → Option ℕ
read_digits acc [] = some acc
read_digits acc (c ∷ s) =
    let rest = read_digits (acc * 10 + (c - b'0')) s in if is_digit c then rest else none

unfoldable pub parse_digits : Text → Option ℕ
parse_digits [] = none
parse_digits (c ∷ s) = read_digits 0 (c ∷ s)

unfoldable pub below : ℕ → Option ℕ → Option ℕ
below limit none = none
below limit (some n) = if ltb n limit then some n else none

-- `str::parse::<usize>` on a 64-bit target: a `+` may stand in front, and overflow is an error.
unfoldable pub parse_usize : Text → Option ℕ
unfolding below parse_digits read_digits
parse_usize [] = none
parse_usize (c ∷ s) = below (2 ^ 64) (parse_digits (if c == b'+' then s else c ∷ s))

unfoldable pub negative : Option ℕ → Option ℤ
negative none = none
negative (some zero) = some (pos 0)
negative (some (suc n)) = some (negsuc n)

unfoldable pub positive : Option ℕ → Option ℤ
positive none = none
positive (some n) = some (pos n)

-- `str::parse::<i64>`
unfoldable pub parse_i64 : Text → Option ℤ
unfolding below parse_digits read_digits negative positive
parse_i64 [] = none
parse_i64 (c ∷ s) =
    if c == b'-'
    then negative (below (2 ^ 63 + 1) (parse_digits s))
    else positive (below (2 ^ 63) (parse_digits (if c == b'+' then s else c ∷ s)))
