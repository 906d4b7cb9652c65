-- ===== src/Nbt/Error.antt =====
-- `NbtError` and `Result` of crates/nbt/src/lib.rs; the messages are left out.
-- `diverged` stands for no error of the program, but for a loop that ran out of fuel.
use mcagit.Common.{◌≡◌, refl}

pub data NbtError : Type 0 where
  invalid_path invalid_json binary diverged : NbtError

pub data Result {ℓ} (A : Type ℓ) : Type ℓ where
  ok : A → Result A
  err : NbtError → Result A

infixl 5 ◌>>=◌
abbrev pub ◌>>=◌ {ℓ κ} : {A : Type ℓ} {B : Type κ} → Result A → (A → Result B) → Result B
ok a >>= f = f a
err e >>= f = err e

-- The parts of a chain that succeeded.
pub >>=-eq-ok {ℓ κ} :
    {X : Type ℓ} {Y : Type κ} (first : Result X) (next : X → Result Y) {y : Y}
    → (first >>= next) ≡ ok y
    → (x : X) × (first ≡ ok x) × (next x ≡ ok y)
>>=-eq-ok (ok x) next h = (x, refl, h)
>>=-eq-ok (err cause) next h = cc
