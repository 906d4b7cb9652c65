-- ===== src/Nbt/Identity.antt =====
-- crates/nbt/src/identity.rs: the key by which list elements are matched across versions.
use mcagit.Common.{[], ◌∷◌, ◌++◌, Option, none, some}
use mcagit.Common.Text.{Text, codes}
use mcagit.Nbt.Decimal.{show_int}
use mcagit.Nbt.Value.{Value, byte, int, long, string, compound, int_array, find_entry}

-- Each test of `identity_key`, on the entry that it looks up.
unfoldable pub modern_uuid : Option Value → Option Text
modern_uuid (some (int_array (a ∷ b ∷ c ∷ d ∷ []))) = some (
    codes "uuid:"
    ++ (show_int a
        ++ (codes "," ++ (show_int b ++ (codes "," ++ (show_int c ++ (codes "," ++ show_int d)))))))
modern_uuid _ = none

unfoldable pub legacy_uuid : Option Value → Option Value → Option Text
legacy_uuid (some (long hi)) (some (long lo)) =
    some (codes "uuid:" ++ (show_int hi ++ (codes ":" ++ show_int lo)))
legacy_uuid _ _ = none

unfoldable pub block_coords : Option Value → Option Value → Option Value → Option Text
block_coords (some (int x)) (some (int y)) (some (int z)) =
    some
      (codes "block:" ++ (show_int x ++ (codes "," ++ (show_int y ++ (codes "," ++ show_int z)))))
block_coords _ _ _ = none

unfoldable pub slot_key : Option Value → Option Text
slot_key (some (byte s)) = some (codes "slot:" ++ show_int s)
slot_key _ = none

unfoldable pub string_id : Option Value → Option Text
string_id (some (string id)) = some (codes "id:" ++ id)
string_id _ = none

-- The first result of a row of `if let … { return … }`.
abbrev pub or_else : Option Text → Option Text → Option Text
or_else (some a) d = some a
or_else none d = d

unfoldable pub identity_key : Value → Option Text
identity_key (compound m) = or_else (modern_uuid (find_entry (codes "UUID") m)) (
    or_else (legacy_uuid (find_entry (codes "UUIDMost") m) (find_entry (codes "UUIDLeast") m)) (
      or_else
        (block_coords (find_entry (codes "x") m) (find_entry (codes "y") m)
          (find_entry (codes "z") m))
        (or_else (slot_key (find_entry (codes "Slot") m)) (string_id (find_entry (codes "id") m)))))
identity_key _ = none
