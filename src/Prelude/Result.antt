-- ===== src/Prelude/Result.antt =====
-- Go's `error` results: a step gives a value or an error. The messages are not modelled, only
-- which check fails.
use mathlib.Core.Path.{◌≡◌, refl, ap}
use mathlib.Core.Bool.{Bool, true, false}
use mathlib.Core.Option.{Option, none, some}

pub data Error : Type 0 where
  bad_amount same_address no_row insufficient exceeds_supply : Error
  unsupported_op bad_tick over_max below_lim already_exists over_limit over_maximum : Error
  minimum_liquidity same_tick below_min division_by_zero negative_root : Error
  no_hash out_of_fuel no_column not_holder not_equal locked no_rewards : Error

pub data Result {ℓ} (T : Type ℓ) : Type ℓ where
  err : Error → Result T
  ok : T → Result T

-- A step, and the rest of the handler on its value; an error is returned at once.
infixl 5 ◌>>=◌
abbrev pub ◌>>=◌ {ℓ m} : {T : Type ℓ} {U : Type m} → Result T → (T → Result U) → Result U
err fault >>= rest = err fault
ok value >>= rest = rest value

-- `if test { return fmt.Errorf(...) }`
abbrev pub fail_if : Bool → Error → Result (Unit {0})
fail_if true e = err e
fail_if false e = ok tt

-- `if err != nil { return err }` after a lookup.
abbrev pub or_err {ℓ} : {A : Type ℓ} → Option A → Error → Result A
or_err none e = err e
or_err (some a) e = ok a

-- A check, and the rest of the handler.
infixl 5 ◌>>◌
abbrev pub ◌>>◌ {m} : {U : Type m} → Result (Unit {0}) → Result U → Result U
check >> rest = check >>= (λ nothing. rest)

-- A handler that succeeds went through its first step.
pub >>=-eq-ok {ℓ m} :
    {T : Type ℓ} {U : Type m} (step : Result T) (rest : T → Result U) {result : U}
    → (step >>= rest) ≡ ok result
    → (value : T) × (step ≡ ok value) × (rest value ≡ ok result)
>>=-eq-ok (err fault) rest went = cc
>>=-eq-ok (ok value) rest went = (value, refl, went)

pub or_err-eq-ok {ℓ} :
    {A : Type ℓ} (o : Option A) (e : Error) {a : A} → or_err o e ≡ ok a → o ≡ some a
or_err-eq-ok none e h = cc
or_err-eq-ok (some a) e h = cc

abbrev value_or {ℓ} : {A : Type ℓ} → A → Result A → A
value_or d (ok a) = a
value_or d (err e) = d

pub ok-eq-ok {ℓ} : {A : Type ℓ} {a b : A} → ok a ≡ ok b → a ≡ b
ok-eq-ok {a} e = ap (value_or a) e

pub ok-eq-ok_pair {ℓ κ} :
    {A : Type ℓ} {B : Type κ} {a c : A} {b d : B}
    → ◌≡◌ {A = Result (A × B)} (ok (a, b)) (ok (c, d))
    → (a ≡ c) × (b ≡ d)
ok-eq-ok_pair e = let p = ok-eq-ok e in (λ i. (p i).0, λ i. (p i).1)
