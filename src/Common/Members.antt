-- ===== src/Common/Members.antt =====
-- Membership in a list of texts as a Boolean test.
use mcagit.Common.Text.{Text, text_eq}
use mathlib.Core.Bool.{Bool, false, ◌||◌}
use mathlib.Core.List.{List, [], ◌∷◌}

-- `contains` of a set or a vector of strings.
unfoldable pub contains : List Text → Text → Bool
contains [] t = false
contains (s ∷ ss) t = text_eq s t || contains ss t
