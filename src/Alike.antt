-- ===== src/Alike.antt =====
-- When two runs end in the same way.
use fraud_detection_api.Base.{◌≡◌, refl, Bool, true, false, if◌then◌else◌}
use fraud_detection_api.Run.{Run, ok, err, panic, out_of_fuel, ◌>>=◌}

-- Both return, related values, or both end in the same failure.
pub data Alike {ℓ κ ν} {A : Type ℓ} {B : Type κ} (R : A → B → Type ν)
    : Run A → Run B → Type (ℓ ⊔ κ ⊔ ν) where
  both : {a : A} {b : B} → R a b → Alike R (ok a) (ok b)
  both_err : Alike R err err
  both_panic : Alike R panic panic
  both_out_of_fuel : Alike R out_of_fuel out_of_fuel

pub Alike-refl {ℓ} : {A : Type ℓ} (m : Run A) → Alike ◌≡◌ m m
Alike-refl (ok a) = both refl
Alike-refl err = both_err
Alike-refl panic = both_panic
Alike-refl out_of_fuel = both_out_of_fuel

module _ {ℓ κ ν} {A : Type ℓ} {B : Type κ} {R : A → B → Type ν} where
  pub Alike-bind {ℓ' κ' ν'} :
      {C : Type ℓ'} {D : Type κ'} {S : C → D → Type ν'} {m : Run A} {n : Run B} {f : A → Run C}
      {g : B → Run D}
      → Alike R m n
      → ((a : A) (b : B) → R a b → Alike S (f a) (g b))
      → Alike S (m >>= f) (n >>= g)
  Alike-bind (both r) k = k _ _ r
  Alike-bind both_err k = both_err
  Alike-bind both_panic k = both_panic
  Alike-bind both_out_of_fuel k = both_out_of_fuel

  pub Alike-if :
      {x y : Run A} {u v : Run B} (b : Bool)
      → (b ≡ true → Alike R x u)
      → (b ≡ false → Alike R y v)
      → Alike R (if b then x else y) (if b then u else v)
  Alike-if true p q = p refl
  Alike-if false p q = q refl

  -- Tests with the same outcome.
  pub Alike-if_eq :
      {x y : Run A} {u v : Run B} (b c : Bool)
      → b ≡ c
      → (b ≡ true → Alike R x u)
      → (b ≡ false → Alike R y v)
      → Alike R (if b then x else y) (if c then u else v)
  Alike-if_eq true true e p q = p refl
  Alike-if_eq false false e p q = q refl
  Alike-if_eq true false e p q = absurd (cc)
  Alike-if_eq false true e p q = absurd (cc)

-- The same first call.
pub Alike-same {ℓ ℓ' κ' ν'} :
    {A : Type ℓ} {C : Type ℓ'} {D : Type κ'} {S : C → D → Type ν'} (m : Run A) {f : A → Run C}
    {g : A → Run D}
    → ((a : A) → Alike S (f a) (g a))
    → Alike S (m >>= f) (m >>= g)
Alike-same (ok a) k = k a
Alike-same err k = both_err
Alike-same panic k = both_panic
Alike-same out_of_fuel k = both_out_of_fuel

-- The same first call, with the same values from then on.
pub bind_same {ℓ ℓ'} :
    {A : Type ℓ} {C : Type ℓ'} (m : Run A) {f g : A → Run C}
    → ((a : A) → f a ≡ g a)
    → (m >>= f) ≡ (m >>= g)
bind_same (ok a) k = k a
bind_same err k = refl
bind_same panic k = refl
bind_same out_of_fuel k = refl
