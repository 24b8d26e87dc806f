-- ===== src/Build/Bits.antt =====
-- The bits of a byte of labels behind `SetLabel`.
use native.Mathlib.Decide.{dec_lt}
use native.Mathlib.Nat.{div-eq_of_lt, div-div-eq-div-mul}
use fraud_detection_api.Base.{
  ◌==◌, if◌then◌else◌, Bool-cases, weight, ℕ, zero, suc, ◌+◌, ◌*◌, ◌/◌, ◌%◌, ◌^◌, ◌≤◌, ◌<◌, ◌≡◌,
  sym, ap, ◌∙◌, inl, inr, Bool, true, false, arith,
}
use fraud_detection_api.Build.{set_bit, clear_bit}

abbrev pub bit : ℕ → ℕ → ℕ
bit x k = (x / 2 ^ k) % 2

-- `on` chooses between `|=` and `&^=`.
abbrev pub put_bit : Bool → ℕ → ℕ → ℕ
put_bit on x k = if on then set_bit x k else clear_bit x k

power : (k : ℕ) → (2 ^ suc k ≡ 2 * 2 ^ k) × (0 < 2 ^ k)
power zero = (omega arith, omega arith)
power (suc k) = let (e, h) = power k in (omega arith, omega arith)

half : (x k : ℕ) → x / 2 ^ suc k ≡ x / 2 / 2 ^ k
half x k = let (e, h) = power k in ap (λ p. x / p) e ∙ sym (div-div-eq-div-mul x 2 (2 ^ k))

odd_le : (y p : ℕ) → (y / p) % 2 ≡ 1 → p ≤ y
odd_le y p h = elim (dec_lt y p) [
  | yes l ↦ let none_left = div-eq_of_lt l in absurd (omega arith)
  | no l ↦ omega arith
]

put_bit-suc : (on : Bool) (x k : ℕ) → put_bit on x (suc k) ≡ put_bit on (x / 2) k * 2 + x % 2
put_bit-suc true x k =
    let (e, h) = power k in
    let same = half x k in
    elim (Bool-cases (bit (x / 2) k == 1)) [
      | inl one ↦
          let other : (bit x (suc k) == 1) ≡ true = ground arith in rw (one, other) (omega arith)
      | inr nought ↦
          let other : (bit x (suc k) == 1) ≡ false = ground arith in
          rw (nought, other) (omega arith)
    ]
put_bit-suc false x k =
    let (e, h) = power k in
    let same = half x k in
    elim (Bool-cases (bit (x / 2) k == 1)) [
      | inl one ↦
          let other : (bit x (suc k) == 1) ≡ true = ground arith in
          let big : 2 ^ k ≤ x / 2 = odd_le (x / 2) (2 ^ k) (ground arith) in
          rw (one, other) (omega arith)
      | inr nought ↦
          let other : (bit x (suc k) == 1) ≡ false = ground arith in
          rw (nought, other) (omega arith)
    ]

-- A bit that is written reads as written, and the other bits stay.
pub bit-put_bit :
    (on : Bool) (x k i : ℕ) → bit (put_bit on x k) i ≡ (if k == i then weight on else bit x i)
bit-put_bit true x zero zero = ground arith
bit-put_bit false x zero zero = ground arith
bit-put_bit true x zero (suc i) =
    let e = half (put_bit true x 0) i in
    let f = half x i in
    let same : put_bit true x 0 / 2 ≡ x / 2 = ground arith in
    ap (λ z. z % 2) (e ∙ ap (λ z. z / 2 ^ i) same ∙ sym f) ∙ ground arith
bit-put_bit false x zero (suc i) =
    let e = half (put_bit false x 0) i in
    let f = half x i in
    let same : put_bit false x 0 / 2 ≡ x / 2 = ground arith in
    ap (λ z. z % 2) (e ∙ ap (λ z. z / 2 ^ i) same ∙ sym f) ∙ ground arith
bit-put_bit on x (suc k) zero =
    let e = put_bit-suc on x k in
    let y = put_bit on (x / 2) k in
    let low : (y * 2 + x % 2) % 2 ≡ x % 2 = omega arith in ap (λ z. bit z 0) e ∙ ground arith
bit-put_bit on x (suc k) (suc i) =
    let y = put_bit on (x / 2) k in
    let whole : (y * 2 + x % 2) / 2 ≡ y = omega arith in
    let eqs : (suc k == suc i) ≡ (k == i) = ground arith in
    ap (λ z. bit z (suc i)) (put_bit-suc on x k)
    ∙ ap (λ z. z % 2) (half (y * 2 + x % 2) i)
    ∙ ap (λ z. bit z i) whole
    ∙ bit-put_bit on (x / 2) k i
    ∙ ap (λ z. if k == i then weight on else z % 2) (sym (half x i))
    ∙ ap (λ t. if t then weight on else bit x (suc i)) (sym eqs)
