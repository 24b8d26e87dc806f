-- ===== src/Parse/Fields.antt =====
-- What `atoi2` and `atoi4` accept, and the inversion of a chain of readers.
use mathlib.Core.Path.{ap₂}
use mathlib.Core.Option.{some-injective}
use fraud_detection_api.Maybe
use fraud_detection_api.Base.{
  if◌then◌else◌, Bytes, ℕ, ◌+◌, ◌-◌, ◌*◌, ◌/◌, ◌<◌, ◌≡◌, refl, subst, Bool, true, false, ◌&&◌, not,
  Option, none, some, [], ◌∷◌, arith,
}
use fraud_detection_api.Parse.Cursor.{is_digit}
use fraud_detection_api.Parse.Document.Text.{digit}
use fraud_detection_api.Parse.Time.{atoi2, digits_loop, atoi4}

pub bind_some {ℓ κ} :
    {A : Type ℓ} {B : Type κ} (m : Option A) (f : A → Option B) {u : B}
    → Maybe.◌>>=◌ m f ≡ some u
    → (a : A) × (m ≡ some a) × (f a ≡ some u)
bind_some (some a) f e = (a, refl, e)
bind_some none f e = cc

pub if_some {ℓ} :
    {A : Type ℓ} (b : Bool) (x : Option A) {u : A}
    → (if b then x else none) ≡ some u
    → (b ≡ true) × (x ≡ some u)
if_some true x e = (refl, e)
if_some false x e = cc

pub if_none {ℓ} :
    {A : Type ℓ} (b : Bool) (x : Option A) {u : A}
    → (if b then none else x) ≡ some u
    → (b ≡ false) × (x ≡ some u)
if_none true x e = cc
if_none false x e = (refl, e)

pub and_true : (a b : Bool) → (a && b) ≡ true → (a ≡ true) × (b ≡ true)
and_true true b e = (refl, e)
and_true false b e = cc

pub unnegated : (b : Bool) → not b ≡ false → b ≡ true
unnegated true e = refl
unnegated false e = cc

two_digits :
    (a b : ℕ)
    → is_digit a ≡ true
    → is_digit b ≡ true
    → (let n = (a - b'0') * 10 + (b - b'0') in (n < 100) × (a ≡ digit (n / 10)) × (b ≡ digit n))
two_digits a b h k = ground arith

digit_pair :
    (h k : Bool) (v n : ℕ)
    → (if h && k then some v else none) ≡ some n
    → (h ≡ true) × (k ≡ true) × (v ≡ n)
digit_pair true true v n e = (refl, refl, some-injective _ _ e)
digit_pair true false v n e = cc
digit_pair false k v n e = cc

pub atoi2-some :
    (t : Bytes) (n : ℕ) → atoi2 t ≡ some n → (n < 100) × (t ≡ digit (n / 10) ∷ digit n ∷ [])
unfolding atoi2
atoi2-some [] n e = cc
atoi2-some (a ∷ []) n e = cc
atoi2-some (a ∷ b ∷ []) n e =
    let (h, k, v) = digit_pair (is_digit a) (is_digit b) _ n e in
    let (lt, first, second) = two_digits a b h k in
    subst (λ m. (m < 100) × (a ∷ b ∷ [] ≡ digit (m / 10) ∷ digit m ∷ [])) v
      (lt, ap₂ (λ x y. x ∷ y ∷ []) first second)
atoi2-some (a ∷ b ∷ c ∷ t) n e = cc

four_digits :
    (a b c d : ℕ)
    → is_digit a ≡ true
    → is_digit b ≡ true
    → is_digit c ≡ true
    → is_digit d ≡ true
    → (let n = (((0 * 10 + (a - b'0')) * 10 + (b - b'0')) * 10 + (c - b'0')) * 10 + (d - b'0') in
        (n < 10000)
        × (a ≡ digit (n / 1000))
        × (b ≡ digit (n / 100))
        × (c ≡ digit (n / 10))
        × (d ≡ digit n))
four_digits a b c d h k i j = ground arith

digits_loop-some :
    (n c m : ℕ) (s : Bytes)
    → digits_loop n (c ∷ s) ≡ some m
    → (is_digit c ≡ true) × (digits_loop (n * 10 + (c - b'0')) s ≡ some m)
unfolding digits_loop
digits_loop-some n c m s e = if_some (is_digit c) _ e

abbrev pub IsYear : Bytes → ℕ → Type 0
IsYear t n = (n < 10000) × (t ≡ digit (n / 1000) ∷ digit (n / 100) ∷ digit (n / 10) ∷ digit n ∷ [])

pub atoi4-some : (t : Bytes) (n : ℕ) → atoi4 t ≡ some n → IsYear t n
unfolding atoi4 digits_loop
atoi4-some [] n e = cc
atoi4-some (a ∷ []) n e = cc
atoi4-some (a ∷ b ∷ []) n e = cc
atoi4-some (a ∷ b ∷ c ∷ []) n e = cc
atoi4-some (a ∷ b ∷ c ∷ d ∷ []) n e =
    let (h, e1) = digits_loop-some 0 a n (b ∷ c ∷ d ∷ []) e in
    let (k, e2) = digits_loop-some _ b n (c ∷ d ∷ []) e1 in
    let (i, e3) = digits_loop-some _ c n (d ∷ []) e2 in
    let (j, e4) = digits_loop-some _ d n [] e3 in
    let (lt, f1, f2, f3, f4) = four_digits a b c d h k i j in
    subst (IsYear (a ∷ b ∷ c ∷ d ∷ [])) (some-injective _ _ e4)
      (lt, ap₂ (λ x y. x ∷ y) f1 (ap₂ (λ x y. x ∷ y) f2 (ap₂ (λ x y. x ∷ y ∷ []) f3 f4)))
atoi4-some (a ∷ b ∷ c ∷ d ∷ x ∷ t) n e = ground arith
