-- ===== src/Run.antt =====
-- How a Go call ends: with a value, with an error value, or in a run-time panic; and the
-- rules for a chain of calls that end well.
use fraud_detection_api.Base.{◌≡◌, refl, Bool, true, false, Option, none, some, if◌then◌else◌}

-- `out_of_fuel` marks a loop of the model that was given too few rounds.
pub data Run {ℓ} (V : Type ℓ) : Type ℓ where
  out_of_fuel : Run V
  panic : Run V
  err : Run V
  ok : V → Run V

infixl 5 ◌>>=◌
abbrev pub ◌>>=◌ {ℓ ℓ'} : {V : Type ℓ} {W : Type ℓ'} → Run V → (V → Run W) → Run W
out_of_fuel >>= next = out_of_fuel
panic >>= next = panic
err >>= next = err
ok v >>= next = next v

-- An index expression: out of range is a panic.
abbrev pub or_panic {ℓ} : {V : Type ℓ} → Option V → Run V
or_panic none = panic
or_panic (some v) = ok v

pub ok-injective {ℓ} : {V : Type ℓ} {v w : V} → ok v ≡ ok w → v ≡ w
ok-injective e = cc

-- The run returns normally, and what it returns is `Good`.
pub data Returns {ℓ κ} {V : Type ℓ} (Good : V → Type κ) : Run V → Type (ℓ ⊔ κ) where
  returns : {v : V} → Good v → Returns Good (ok v)

module _ {ℓ κ ℓ' κ'} {V : Type ℓ} {Good : V → Type κ} {W : Type ℓ'} {Fine : W → Type κ'} where
  -- The next call is made on a value that is `Good`, and that the first call returned.
  pub Returns-bind_eq :
      {first : Run V} {next : V → Run W}
      → Returns Good first
      → ((v : V) → Good v → first ≡ ok v → Returns Fine (next v))
      → Returns Fine (first >>= next)
  Returns-bind_eq (returns good) fine = fine _ good refl

  pub Returns-bind :
      {first : Run V} {next : V → Run W}
      → Returns Good first
      → ((v : V) → Good v → Returns Fine (next v))
      → Returns Fine (first >>= next)
  Returns-bind done fine = Returns-bind_eq done λ v good _. fine v good

module _ {ℓ κ} {V : Type ℓ} {Good : V → Type κ} where
  -- The value of a run that returns, with its equation.
  pub Returns-inv : {run : Run V} → Returns Good run → (v : V) × (run ≡ ok v) × Good v
  Returns-inv (returns good) = (_, refl, good)

  pub Returns-if :
      {yes_run no_run : Run V} (test : Bool)
      → (test ≡ true → Returns Good yes_run)
      → (test ≡ false → Returns Good no_run)
      → Returns Good (if test then yes_run else no_run)
  Returns-if false on_true on_false = on_false refl
  Returns-if true on_true on_false = on_true refl

  pub Returns-map {κ'} :
      {Fine : V → Type κ'} {run : Run V}
      → Returns Good run
      → ((v : V) → Good v → Fine v)
      → Returns Fine run
  Returns-map (returns good) weaken = returns (weaken _ good)
