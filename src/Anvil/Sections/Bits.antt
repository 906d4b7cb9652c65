-- ===== src/Anvil/Sections/Bits.antt =====
-- The width of a palette index.
use mcagit.Common.{ℕ, zero, suc, ◌-◌, ◌^◌, ◌<◌, ◌≤◌, arith}
use native.Mathlib.Nat.{pow-le-pow_right}
use mcagit.Anvil.Sections.{leading_zeros, max, needed_bits, bits_for}

pow_mono : (a b : ℕ) → a ≤ b → 2 ^ a ≤ 2 ^ b
pow_mono a b h = pow-le-pow_right (omega arith) h

leading_zeros_lem :
    (w n : ℕ) → n < 2 ^ w → (leading_zeros w n ≤ w) × (n < 2 ^ (w - leading_zeros w n))
unfolding leading_zeros
leading_zeros_lem zero n h = (omega arith, h)
leading_zeros_lem (suc w) n h = ground (arith, leading_zeros_lem w n)

leading_zeros_least : (w n : ℕ) → 0 < n → n < 2 ^ w → 2 ^ (w - leading_zeros w n - 1) ≤ n
unfolding leading_zeros
leading_zeros_least zero n p h = omega (arith, p, h)
leading_zeros_least (suc w) n p h = ground (arith, leading_zeros_least w n p)

needed_bits_enough : (n : ℕ) → n ≤ 2 ^ 64 → n ≤ 2 ^ needed_bits n
unfolding needed_bits
needed_bits_enough n h = ground (arith, leading_zeros_lem 64 (n - 1))

needed_bits_least : (n : ℕ) → n ≤ 2 ^ 64 → 0 < needed_bits n → 2 ^ (needed_bits n - 1) < n
unfolding needed_bits
needed_bits_least n h p = ground (arith, leading_zeros_least 64 (n - 1))

-- For a palette of at most 2^64 entries, bits_for gives a width at which every index of the palette
-- fits, that is at least the minimum, and that is the least such width where it is above the
-- minimum.
pub bits_for_bounds :
    (n m : ℕ)
    → n ≤ 2 ^ 64
    → (n ≤ 2 ^ bits_for n m) × (m ≤ bits_for n m) × (m < bits_for n m → 2 ^ (bits_for n m - 1) < n)
unfolding bits_for max
bits_for_bounds n m h =
    ground (arith, needed_bits_enough n h, needed_bits_least n h, pow_mono (needed_bits n) m)
