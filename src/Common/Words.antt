-- ===== src/Common/Words.antt =====
-- Two's complement words: the low bits of a signed integer, and the arithmetic shifts.
use Prim.Native.Nat.{ℕ, ◌+◌, ◌-◌, ◌*◌, ◌/◌, ◌%◌, ◌^◌, ◌<◌}
use mcagit.Common.Tests.{ltb, if◌then◌else◌}
use mcagit.Common.Int.{ℤ, pos, negsuc}

-- `z & (2^w - 1)`
unfoldable pub low_bits : ℕ → ℤ → ℕ
low_bits w (pos n) = n % 2 ^ w
low_bits w (negsuc n) = 2 ^ w - 1 - n % 2 ^ w

-- `x as iN`: two's complement on the low bits.
unfoldable pub wrap : ℕ → ℤ → ℤ
unfolding low_bits
wrap w z = let b = low_bits w z in if ltb b (2 ^ (w - 1)) then pos b else negsuc (2 ^ w - 1 - b)

-- `z >> w`, which rounds down.
unfoldable pub shift_right : ℕ → ℤ → ℤ
shift_right w (pos n) = pos (n / 2 ^ w)
shift_right w (negsuc n) = negsuc (n / 2 ^ w)

-- `z * 2^w + k` for a `k` below `2^w`, before it is wrapped to a width.
unfoldable pub join_bits : ℕ → ℤ → ℕ → ℤ
join_bits w (pos n) k = pos (n * 2 ^ w + k)
join_bits w (negsuc n) k = negsuc (n * 2 ^ w + (2 ^ w - 1 - k))

-- The values of an `i32`.
abbrev pub IsI32 : ℤ → Type 0
IsI32 (pos n) = n < 0x8000_0000
IsI32 (negsuc n) = n < 0x8000_0000
