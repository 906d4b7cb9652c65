-- ===== src/Common/Split.antt =====
-- The pieces of a text: `str::split` at a byte, and `str::trim`.
use Prim.Native.Nat.{ℕ, zero, suc}
use mathlib.Core.Bool.{Bool, true, false, ◌||◌, ◌&&◌}
use mathlib.Core.Option.{Option, none, some}
use mathlib.Core.List.{List, [], ◌∷◌, map}
use mcagit.Common.Tests.{◌==◌, leb, ltb, if◌then◌else◌}
use mcagit.Common.Text.{Text}

unfoldable pub split : ℕ → Text → List Text
split sep [] = [] ∷ []
split sep (c ∷ s) = elim (split sep s) [
  | [] ↦ [] ∷ []
  | piece ∷ pieces ↦ if c == sep then [] ∷ piece ∷ pieces else (c ∷ piece) ∷ pieces
]

-- ASCII white space, as `char::is_whitespace` has it below 128.
abbrev pub is_space : ℕ → Bool
is_space c = c == 32 || (leb 9 c && leb c 13)

-- The second byte of U+0085 and U+00A0, after 0xC2.
unfoldable pub latin_space : Text → ℕ
latin_space [] = 0
latin_space (c ∷ s) = if c == 0x85 || c == 0xA0 then 2 else 0

-- The bytes behind 0xE1, 0xE2 and 0xE3 of U+1680, of U+2000 to U+200A, U+2028, U+2029, U+202F and
-- U+205F, and of U+3000.
unfoldable pub wide_space : ℕ → Text → ℕ
wide_space a (b ∷ c ∷ s) =
    if (a == 0xE1 && (b == 0x9A && c == 0x80))
      || ((a == 0xE2
            && ((b == 0x80
                  && ((leb 0x80 c && leb c 0x8A) || (c == 0xA8 || (c == 0xA9 || c == 0xAF))))
                || (b == 0x81 && c == 0x9F)))
          || (a == 0xE3 && (b == 0x80 && c == 0x80)))
    then 3
    else 0
wide_space a _ = 0

-- The number of bytes of the white space that a text begins with, as `char::is_whitespace` has it;
-- 0 where it begins with none.
unfoldable pub space_at : Text → ℕ
space_at [] = 0
space_at (c ∷ s) =
    let latin = latin_space s in
    let wide = wide_space c s in
    if is_space c then 1 else if ltb c 0x80 then 0 else if c == 0xC2 then latin else wide

-- A text without the white space at its front, where `skip` more bytes belong to it.
unfoldable pub trim_from : ℕ → Text → Text
trim_from skip [] = []
trim_from zero (c ∷ s) = elim (space_at (c ∷ s)) [ zero ↦ c ∷ s | suc n ↦ trim_from n s ]
trim_from (suc skip) (c ∷ s) = trim_from skip s

unfoldable pub trim_start : Text → Text
trim_start s = trim_from 0 s

abbrev is_nothing : Text → Bool
is_nothing [] = true
is_nothing (c ∷ s) = false

-- Nothing but white space is cut off.
unfoldable pub trim_end : Text → Text
trim_end [] = []
trim_end (c ∷ s) = let rest = trim_end s in if is_nothing (trim_start (c ∷ s)) then [] else c ∷ rest

unfoldable pub trim : Text → Text
trim s = trim_start (trim_end s)

-- `str::strip_prefix`
unfoldable pub strip_prefix : Text → Text → Option Text
strip_prefix [] s = some s
strip_prefix (p ∷ ps) [] = none
strip_prefix (p ∷ ps) (c ∷ s) = let rest = strip_prefix ps s in if p == c then rest else none

-- `str::strip_suffix` of one byte.
unfoldable pub strip_last : ℕ → Text → Option Text
strip_last b [] = none
strip_last b (c ∷ []) = if c == b then some [] else none
strip_last b (c ∷ d ∷ s) = elim (strip_last b (d ∷ s)) [ none ↦ none | some t ↦ some (c ∷ t) ]

-- `str::split_once`
unfoldable pub split_once : Text → Text → Option (Text × Text)
split_once sep [] = none
split_once sep (c ∷ s) =
    let later = split_once sep s in
    elim (strip_prefix sep (c ∷ s)) [
      | some rest ↦ some ([], rest)
      | none ↦ elim later [ none ↦ none | some (a, b) ↦ some (c ∷ a, b) ]
    ]

-- `str::lines`, but for an empty last line.
unfoldable pub lines : Text → List Text
lines s = map (λ l. elim (strip_last 13 l) [ none ↦ l | some t ↦ t ]) (split 10 s)
