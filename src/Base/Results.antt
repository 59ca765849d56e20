-- ===== src/Base/Results.antt =====
-- `Result<T, Box<dyn Error>>`: a value, or an error that is either a message of the program's own
-- or one that a library reported.
use mathlib.Core.Path.{◌≡◌, refl}
use mathlib.Core.Logic.{◌⊎◌, inl, inr}
use mathlib.Core.Bool.{Bool, true, false}
use mathlib.Core.Option.{Option, none, some}
use blockframe_rs.Base.Strings.{Text}

pub data Error : Type 0 where
  message : Text → Error
  external : Text → Error

pub data Result {i} (T : Type i) : Type i where
  ok : T → Result T
  err : Error → Result T

infixl 5 ◌>>=◌ ◌>>◌
-- The operator `?`: the rest runs with the value, and an error ends the function.
abbrev pub ◌>>=◌ {i j} : {T : Type i} {U : Type j} (r : Result T) → (T → Result U) → Result U
err e >>= rest = err e
ok value >>= rest = rest value

abbrev pub ◌>>◌ {i j} : {T : Type i} {U : Type j} (r : Result T) → Result U → Result U
err e >> rest = err e
ok value >> rest = rest

abbrev pub ok_or {ℓ} : {A : Type ℓ} → Option A → Error → Result A
ok_or none e = err e
ok_or (some a) e = ok a

abbrev pub is_ok {ℓ} : {A : Type ℓ} → Result A → Bool
is_ok (ok a) = true
is_ok (err e) = false

-- Where `?` led to a value, it had one to go on with.
pub >>=-eq-ok {i j} :
    {T : Type i} {U : Type j} (r : Result T) (rest : T → Result U) {u : U}
    → (r >>= rest) ≡ ok u
    → (value : T) × (r ≡ ok value) × (rest value ≡ ok u)
>>=-eq-ok (err e) rest p = cc
>>=-eq-ok (ok value) rest p = (value, refl, p)

pub Result-cases {ℓ} :
    {A : Type ℓ} (r : Result A) → ((a : A) × (r ≡ ok a)) ⊎ ((e : Error) × (r ≡ err e))
Result-cases (ok a) = inl (a, refl)
Result-cases (err e) = inr (e, refl)

-- Two values that are returned alike are the same.
pub ok_inj {ℓ} : {A : Type ℓ} {a b : A} → ◌≡◌ {A = Result A} (ok a) (ok b) → a ≡ b
ok_inj h = cc
