-- ===== src/Repo/Result.antt =====
-- `crate::Result` of crates/repo.
use mcagit.Common.{Bool, true, false, if◌then◌else◌, ◌≡◌, ◌≢◌, ◌⊎◌, inl, inr, refl}

-- `RepoError`, as far as the modelled operations raise it: an ill-formed id, an object that is not
-- there, text that is not JSON of its type, a bad revision, a failure of the file system, and all
-- that is raised as `Other`. `diverged` stands for no error of the program, but for a walk that ran
-- out of fuel.
pub data RepoError : Type 0 where
  invalid_id missing bad_json bad_ref io other diverged : RepoError

pub data Result {ℓ} (A : Type ℓ) : Type ℓ where
  ok : A → Result A
  err : RepoError → Result A

infixl 5 ◌>>=◌
abbrev pub ◌>>=◌ {ℓ κ} : {A : Type ℓ} {B : Type κ} → Result A → (A → Result B) → Result B
ok a >>= f = f a
err e >>= f = err e

-- The parts of a chain that succeeded.
pub >>=-eq-ok {ℓ κ} :
    {X : Type ℓ} {Y : Type κ} (first : Result X) (next : X → Result Y) {y : Y}
    → (first >>= next) ≡ ok y
    → (x : X) × (first ≡ ok x) × (next x ≡ ok y)
>>=-eq-ok (ok x) next h = (x, refl, h)
>>=-eq-ok (err cause) next h = cc

-- A chain diverges only where one of its parts does.
pub >>=-ne-diverged {ℓ κ} :
    {A : Type ℓ} {B : Type κ} (m : Result A) (f : A → Result B)
    → m ≢ err diverged
    → ((a : A) → m ≡ ok a → f a ≢ err diverged)
    → (m >>= f) ≢ err diverged
>>=-ne-diverged (ok a) f hm hf = hf a refl
>>=-ne-diverged (err e) f hm hf = λ p. hm (cc)

pub Result-cases {ℓ} :
    {A : Type ℓ} (m : Result A) → ((a : A) × (m ≡ ok a)) ⊎ ((e : RepoError) × (m ≡ err e))
Result-cases (ok a) = inl (a, refl)
Result-cases (err e) = inr (e, refl)

-- A check in front of a chain was passed.
pub check_passed {ℓ} :
    {A : Type ℓ} (b : Bool) (e : RepoError) (m : Result A) {a : A}
    → (if b then err e else m) ≡ ok a
    → (b ≡ false) × (m ≡ ok a)
check_passed false e m h = (refl, h)
check_passed true e m h = cc

-- The test that a chain stands behind was passed.
pub test_passed {ℓ} :
    {A : Type ℓ} (b : Bool) (e : RepoError) (m : Result A) {a : A}
    → (if b then m else err e) ≡ ok a
    → (b ≡ true) × (m ≡ ok a)
test_passed true e m h = (refl, h)
test_passed false e m h = cc
