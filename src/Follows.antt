-- ===== src/Follows.antt =====
-- When a run agrees with a reference that gives a value or nothing.
use fraud_detection_api.Base.{◌≡◌, refl, Bool, true, false, Option, none, some, if◌then◌else◌}
use fraud_detection_api.Run.{Run, ok, err, ◌>>=◌}
use fraud_detection_api.Maybe

-- The run follows the reference: both give related values, or the run returns an error value
-- where the reference gives nothing. So the run never panics and never lacks rounds.
pub data Follows {ℓ κ ν} {A : Type ℓ} {B : Type κ} (R : A → B → Type ν)
    : Run A → Option B → Type (ℓ ⊔ κ ⊔ ν) where
  gives : {a : A} {b : B} → R a b → Follows R (ok a) (some b)
  refuses : Follows R err none

module _ {ℓ κ ν} {A : Type ℓ} {B : Type κ} {R : A → B → Type ν} where
  pub Follows-bind {ℓ' κ' ν'} :
      {C : Type ℓ'} {D : Type κ'} {S : C → D → Type ν'} {m : Run A} {n : Option B} {f : A → Run C}
      {g : B → Option D}
      → Follows R m n
      → ((a : A) (b : B) → R a b → Follows S (f a) (g b))
      → Follows S (m >>= f) (Maybe.◌>>=◌ n g)
  Follows-bind (gives r) k = k _ _ r
  Follows-bind refuses k = refuses

  pub Follows-if :
      {x y : Run A} {u v : Option B} (b : Bool)
      → (b ≡ true → Follows R x u)
      → (b ≡ false → Follows R y v)
      → Follows R (if b then x else y) (if b then u else v)
  Follows-if true p q = p refl
  Follows-if false p q = q refl

  -- The reference goes on where the run has ended.
  pub Follows-right {κ' ν'} :
      {D : Type κ'} {S : A → D → Type ν'} {m : Run A} {n : Option B} {g : B → Option D}
      → Follows R m n
      → ((a : A) (b : B) → R a b → Follows S (ok a) (g b))
      → Follows S m (Maybe.◌>>=◌ n g)
  Follows-right (gives r) k = k _ _ r
  Follows-right refuses k = refuses

  -- As `Follows-bind`, with the reference's value known.
  pub Follows-bind_eq {ℓ' κ' ν'} :
      {C : Type ℓ'} {D : Type κ'} {S : C → D → Type ν'} {m : Run A} {n : Option B} {f : A → Run C}
      {g : B → Option D}
      → Follows R m n
      → ((a : A) (b : B) → R a b → n ≡ some b → Follows S (f a) (g b))
      → Follows S (m >>= f) (Maybe.◌>>=◌ n g)
  Follows-bind_eq (gives r) k = k _ _ r refl
  Follows-bind_eq refuses k = refuses
