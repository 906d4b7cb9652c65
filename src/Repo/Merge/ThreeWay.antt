-- ===== src/Repo/Merge/ThreeWay.antt =====
-- What `three_way` decides about one entry.
use mcagit.Common.{Bool, true, false, Option, none, some, ◌≡◌, ◌≢◌, ◌↔◌, refl, arith}
use mcagit.Common.Text.{Text, text_eq_iff}
use mcagit.Repo.Merge.{Outcome, ok, err, id_eq, three_way}

pub id_eq_iff : (a b : Option Text) → (id_eq a b ≡ true) ↔ (a ≡ b)
unfolding id_eq
id_eq_iff none b = ground arith
id_eq_iff (some a) none = ground arith
id_eq_iff (some a) (some b) = ground (arith, text_eq_iff a b)

-- The entry that is kept, if any; nothing is kept on a conflict.
abbrev pub kept : Outcome → Option Text
kept (ok h) = h
kept err = none

abbrev pub is_conflict : Outcome → Bool
is_conflict (ok h) = false
is_conflict err = true

-- An entry conflicts exactly when both sides changed it, and not to the same thing.
pub three_way-eq-err_iff :
    (b o t : Option Text) → (three_way b o t ≡ err) ↔ ((o ≢ b) × (t ≢ b) × (o ≢ t))
unfolding three_way
three_way-eq-err_iff b o t = ground (arith, id_eq_iff o t, id_eq_iff o b, id_eq_iff t b)

-- Without a conflict the result has every change that either side made, and no other.
pub three_way-eq-ok :
    (b o t h : Option Text)
    → three_way b o t ≡ ok h
    → (o ≢ b → h ≡ o) × (t ≢ b → h ≡ t) × (o ≡ b → t ≡ b → h ≡ b)
unfolding three_way
three_way-eq-ok b o t h e = ground (arith, id_eq_iff o t, id_eq_iff o b, id_eq_iff t b)

-- The two sides may change places.
pub three_way_comm : (b o t : Option Text) → three_way b o t ≡ three_way b t o
unfolding three_way
three_way_comm b o t = ground (arith, id_eq_iff o t, id_eq_iff t o, id_eq_iff o b, id_eq_iff t b)

-- A side that changed nothing leaves the other as it is.
pub three_way_unchanged : (b o : Option Text) → three_way b o b ≡ ok o
unfolding three_way
three_way_unchanged b o = ground (arith, id_eq_iff o b, id_eq_iff b b)

-- An entry that no side has is not made up.
pub three_way-none : three_way none none none ≡ ok none
unfolding three_way id_eq
three_way-none = refl
