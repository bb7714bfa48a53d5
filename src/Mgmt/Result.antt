-- ===== src/Mgmt/Result.antt =====
-- The errors of mgmt/, and the result type of its calls.
use mathlib.Core.Path.{◌≡◌, refl}
use mathlib.Core.Logic.{◌⊎◌, inl, inr}

-- `sql.ErrNoRows`, any other error of the database, a time that does not parse, and the error of
-- `allocateIP`.
pub data Error : Type 0 where
  no_rows sql_error bad_time no_available_ips : Error

pub data Result {ℓ} (A : Type ℓ) : Type ℓ where
  err : Error → Result A
  ok : A → Result A

abbrev pub and_then {ℓ κ} : {A : Type ℓ} {B : Type κ} → (A → Result B) → Result A → Result B
and_then next (err e) = err e
and_then next (ok found) = next found

infixl 5 ◌>>=◌
abbrev pub ◌>>=◌ {ℓ κ} : {A : Type ℓ} {B : Type κ} → Result A → (A → Result B) → Result B
m >>= next = and_then next m

-- A successful chain has a successful first call.
pub >>=-eq-ok {ℓ κ} :
    {A : Type ℓ} {B : Type κ} {last : B} (m : Result A) (next : A → Result B)
    → and_then next m ≡ ok last
    → (found : A) × (m ≡ ok found) × (next found ≡ ok last)
>>=-eq-ok (err e) next h = cc
>>=-eq-ok (ok found) next h = (found, refl, h)

pub Result-cases {ℓ} :
    {A : Type ℓ} (m : Result A) → ((e : Error) × (m ≡ err e)) ⊎ ((a : A) × (m ≡ ok a))
Result-cases (ok a) = inr (a, refl)
Result-cases (err e) = inl (e, refl)
