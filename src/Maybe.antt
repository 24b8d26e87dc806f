-- ===== src/Maybe.antt =====
-- Chains of reference functions that give a value or nothing.
use fraud_detection_api.Base.{Option, none, some}

infixl 5 ◌>>=◌
abbrev pub ◌>>=◌ {ℓ κ} : {A : Type ℓ} {B : Type κ} → Option A → (A → Option B) → Option B
some a >>= f = f a
none >>= f = none
