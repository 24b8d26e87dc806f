-- ===== src/Parse/Exactness.antt =====
-- `readFloat32At` with exact fractions in place of floats: what it reads is the number written.
use fraud_detection_api.Base.{
  if◌then◌else◌, Bytes, length, pos, ℕ, zero, suc, ◌+◌, ◌-◌, ◌*◌, ◌^◌, ◌<◌, ◌≡◌, refl, sym, ap, ◌∙◌,
  subst, Bool, true, false, Option, none, some, List, [], ◌∷◌, arith,
}
use native.Mathlib.Nat.{pow-suc, add-zero, mul-one}
use mathlib.Core.Option.{some-injective}
use fraud_detection_api.Exact.{Fraction, exact}
use fraud_detection_api.Follows.{Follows, gives, refuses}
use fraud_detection_api.Parse.Document.{Space, Decimal, DecimalOk}
use fraud_detection_api.Parse.Document.Meaning.{
  number, whole_from, tenths, fraction_from, whole_value, fraction_value, decimal_value,
}
use fraud_detection_api.Parse.Document.Text.{decimal}
use fraud_detection_api.Parse.Grammar.{trim, float}
use fraud_detection_api.Parse.Number.{read_float32_at}
use fraud_detection_api.Parse.Numerals.{shift}
use fraud_detection_api.Parse.Position.{At}
use fraud_detection_api.Parse.Tokens.{trim-trim, Stops, float-decimal}
use fraud_detection_api.Parse.Values.{read_float32_at-float}
use fraud_detection_api.Run.{Run, Returns, Returns-map, returns}

-- The value of a digit in front of `k` others.
shift_digit : (n d k m : ℕ) → (n * 10 + d) * 10 ^ k + m ≡ n * 10 ^ suc k + (d * 10 ^ k + m)
shift_digit n d k m = shift n d (10 ^ k) m ∙ ap (λ p. n * p + (d * 10 ^ k + m)) (sym (pow-suc 10 k))

-- The fraction is n / 10 ^ k.
pub record IsTenths (n k : ℕ) (x : Fraction) : Type 0 where
  pub value : x.up * 10 ^ k ≡ n * x.den
  pub not_below : x.down ≡ 0
  pub den_pos : 0 < x.den

record IsWhole (n : ℕ) (x : Fraction) : Type 0 where
  up_eq : x.up ≡ n
  down_eq : x.down ≡ 0
  den_eq : x.den ≡ 1

open exact use {literal64, of_byte, add64, mul64}

next-IsWhole :
    (n d : ℕ) (x : Fraction)
    → IsWhole n x
    → IsWhole (n * 10 + d) (add64 (mul64 x (literal64 (pos 10) 0)) (of_byte d))
next-IsWhole n d x w = record {
  up_eq = rw (w.up_eq, w.down_eq, w.den_eq) (omega arith);
  down_eq = rw (w.up_eq, w.down_eq, w.den_eq) (omega arith);
  den_eq = rw (w.den_eq) refl;
}

whole_from-IsWhole :
    (s : Bytes) (n : ℕ) (x : Fraction)
    → IsWhole n x
    → IsWhole (n * 10 ^ length s + number s) (whole_from exact x s)
unfolding whole_from number
whole_from-IsWhole [] n x w = record {
  up_eq = (let e = w.up_eq in omega arith);
  down_eq = w.down_eq;
  den_eq = w.den_eq;
}
whole_from-IsWhole (c ∷ s) n x w =
    let d = c - b'0' in
    subst (λ m. IsWhole m (whole_from exact x (c ∷ s))) (shift_digit n d (length s) (number s))
      (whole_from-IsWhole s (n * 10 + d) _ (next-IsWhole n d x w))

-- The weight of a digit.
record IsWeight (k : ℕ) (x : Fraction) : Type 0 where
  up_eq : x.up ≡ 1
  down_eq : x.down ≡ 0
  den_eq : x.den ≡ 10 ^ suc k

tenths-IsWeight : (k : ℕ) → IsWeight k (tenths exact k)
unfolding tenths
tenths-IsWeight zero = record { up_eq = refl; down_eq = refl; den_eq = refl }
tenths-IsWeight (suc k) =
    let w = tenths-IsWeight k in
    record {
      up_eq = rw (w.up_eq, w.down_eq) refl;
      down_eq = rw (w.up_eq, w.down_eq) refl;
      den_eq = rw (w.den_eq) (sym (pow-suc 10 (suc k)));
    }

scaled_sum :
    (u m n d p : ℕ)
    → u * p ≡ n * m
    → (u * (1 * (p * 10)) + (d * 1 + 0) * m) * (p * 10) ≡ (n * 10 + d) * (m * (1 * (p * 10)))
scaled_sum u m n d p h =
    let scaled : u * p * (p * 100) ≡ n * m * (p * 100) = ap (λ x. x * (p * 100)) h in grind arith

scaled_pos : (m p : ℕ) → 0 < m → 0 < p → 0 < m * (1 * p)
scaled_pos m p h k = grind arith

power_pos : (k : ℕ) → 0 < 10 ^ k
power_pos zero = omega arith
power_pos (suc k) = rw (pow-suc 10 k) (let h = power_pos k in omega arith)

next-IsTenths :
    (n d k : ℕ) (x t : Fraction)
    → IsTenths n k x
    → IsWeight k t
    → IsTenths (n * 10 + d) (suc k) (add64 x (mul64 (of_byte d) t))
next-IsTenths n d k x t i w = record {
  value =
      rw (w.up_eq, w.down_eq, w.den_eq, pow-suc 10 k) (scaled_sum x.up x.den n d (10 ^ k) i.value);
  not_below = rw (w.up_eq, w.down_eq, w.den_eq, i.not_below) (omega arith);
  den_pos = rw (w.den_eq) (scaled_pos x.den (10 ^ suc k) i.den_pos (power_pos (suc k)));
}

fraction_from-IsTenths :
    (s : Bytes) (n k : ℕ) (x : Fraction)
    → IsTenths n k x
    → IsTenths (n * 10 ^ length s + number s) (k + length s) (fraction_from exact x k s)
unfolding fraction_from number
fraction_from-IsTenths [] n k x i = record {
  value = rw (add-zero k, add-zero (n * 1), mul-one n) i.value;
  not_below = i.not_below;
  den_pos = i.den_pos;
}
fraction_from-IsTenths (c ∷ s) n k x i =
    let d = c - b'0' in
    subst (λ m. IsTenths m (k + suc (length s)) (fraction_from exact x k (c ∷ s)))
      (shift_digit n d (length s) (number s))
      (subst
        (λ j.
          IsTenths ((n * 10 + d) * 10 ^ length s + number s) j (fraction_from exact x k (c ∷ s)))
        (omega arith)
        (fraction_from-IsTenths s (n * 10 + d) (suc k) _
          (next-IsTenths n d k x (tenths exact k) i (tenths-IsWeight k))))

-- All digits of a decimal as one number, and how many of them stand behind the point.
abbrev pub digits_value : Bytes → Option Bytes → ℕ
digits_value whole none = number whole
digits_value whole (some s) = number whole * 10 ^ length s + number s

abbrev pub places : Option Bytes → ℕ
places none = 0
places (some s) = length s

-- The fraction is the number that the decimal writes.
abbrev pub IsWritten : Decimal → Fraction → Type 0
IsWritten d x =
    let flipped : Fraction = record { up = x.down; down = x.up; den = x.den } in
    IsTenths (digits_value d.whole d.fraction) (places d.fraction)
      (if d.negative then flipped else x)

IsTenths-of_eq :
    {n k : ℕ} {x y : Fraction}
    → IsTenths n k x
    → y.up ≡ x.up
    → y.down ≡ x.down
    → y.den ≡ x.den
    → IsTenths n k y
IsTenths-of_eq i u v w = record {
  value = rw (u, w) i.value;
  not_below = v ∙ i.not_below;
  den_pos = rw w i.den_pos;
}

whole-IsTenths : (whole : Bytes) → IsTenths (number whole) 0 (whole_value exact whole)
whole-IsTenths whole =
    let w = whole_from-IsWhole whole 0 _ (record { up_eq = refl; down_eq = refl; den_eq = refl }) in
    record {
      value = rw (w.up_eq, w.den_eq) (grind arith);
      not_below = w.down_eq;
      den_pos = rw (w.den_eq) (omega arith);
    }

unsigned-IsTenths :
    (whole : Bytes) (f : Option Bytes)
    → IsTenths (digits_value whole f) (places f) (fraction_value exact (whole_value exact whole) f)
unsigned-IsTenths whole none = whole-IsTenths whole
unsigned-IsTenths whole (some s) =
    subst
      (λ k.
        IsTenths (digits_value whole (some s)) k
          (fraction_from exact (whole_value exact whole) 0 s))
      (omega arith) (fraction_from-IsTenths s (number whole) 0 _ (whole-IsTenths whole))

decimal_value-IsWritten :
    (negative : Bool) (whole : Bytes) (f : Option Bytes)
    → (let d : Decimal = record { negative = negative; whole = whole; fraction = f } in
        IsWritten d (decimal_value exact d))
decimal_value-IsWritten true whole f =
    IsTenths-of_eq (unsigned-IsTenths whole f) (omega arith) (omega arith) (omega arith)
decimal_value-IsWritten false whole f =
    IsTenths-of_eq (unsigned-IsTenths whole f) (omega arith) (omega arith) (omega arith)

float-trim : (s : Bytes) → float exact (trim s) ≡ float exact s
unfolding float
float-trim s = rw trim-trim

Follows-Returns {ℓ κ ν} :
    {A : Type ℓ} {B : Type κ} {R : A → B → Type ν} {m : Run A} {n : Option B} {b : B}
    → Follows R m n
    → n ≡ some b
    → Returns (λ a. R a b) m
Follows-Returns {R = R} (gives {a} r) e = returns (subst (R a) (some-injective _ _ e) r)
Follows-Returns refuses e = cc

-- With exact fractions in place of floats, `readFloat32At` reads a decimal, behind any white space
-- and in front of anything that does not go on with a digit or a point, as the number that it
-- writes: its digits as one number, over ten to the number of digits behind the point, negative if
-- there is a minus. It returns the position behind the decimal and the white space after it.
pub read_float32_at-IsWritten :
    (body : Bytes) (p : ℕ) (w : List Space) (d : Decimal) (rest : Bytes)
    → At body p (decimal w d rest)
    → DecimalOk d
    → Stops rest
    → Returns (λ (x, q). IsWritten d x × At body q (trim rest)) (read_float32_at exact body p)
read_float32_at-IsWritten body p w d rest a h e =
    let reads = sym (float-trim (decimal w d rest)) ∙ float-decimal exact w d rest h e in
    Returns-map (Follows-Returns (read_float32_at-float exact a) reads) λ (x, q) (same, b).
      (subst (IsWritten d) (sym same) (decimal_value-IsWritten d.negative d.whole d.fraction), b)
