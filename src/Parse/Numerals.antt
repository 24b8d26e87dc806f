-- ===== src/Parse/Numerals.antt =====
-- The accumulators of `readInt32At` and `readFloat32At` against the numbers that digits write.
use mathlib.Core.List.{foldl}
use native.Mathlib.Nat.{add-mul-mod_self_right, div-add-mod, pow-suc}
use fraud_detection_api.Base.{
  ℕ, suc, ◌+◌, ◌-◌, ◌*◌, ◌/◌, ◌%◌, ◌^◌, ◌<◌, ◌≡◌, refl, sym, ◌∙◌, ap, [], ◌∷◌, Bytes, length, arith,
}
use fraud_detection_api.Runtime.{Runtime}
use fraud_detection_api.Parse.Number.{next_int32, next_whole, next_fraction}
use fraud_detection_api.Parse.Grammar.{next_fraction_digit}
use fraud_detection_api.Parse.Document.Meaning.{number, whole_from, tenths, fraction_from}

split-mul : (r q y z w : ℕ) → r * y + z + q * y * w ≡ (w * q + r) * y + z
split-mul r q y z w = grind arith

wrap-mul : (x y z w : ℕ) → ((x % w) * y + z) % w ≡ (x * y + z) % w
wrap-mul x y z w =
    sym (add-mul-mod_self_right ((x % w) * y + z) (x / w * y) w)
    ∙ ap (λ t. t % w) (split-mul (x % w) (x / w) y z w ∙ ap (λ t. t * y + z) (div-add-mod x w))

pub shift : (n d p m : ℕ) → (n * 10 + d) * p + m ≡ n * (p * 10) + (d * p + m)
shift n d p m = grind arith

-- The wrap-around after every digit is the wrap-around of the whole number.
foldl-next_int32_from :
    (n : ℕ) (s : Bytes)
    → n < 2 ^ 32
    → foldl next_int32 n s ≡ (n * 10 ^ length s + number s) % 2 ^ 32
unfolding number
foldl-next_int32_from n [] h = omega arith
foldl-next_int32_from n (c ∷ s) h =
    let d = c - b'0' in
    foldl-next_int32_from ((n * 10 + d) % 2 ^ 32) s (omega arith)
    ∙ wrap-mul (n * 10 + d) (10 ^ length s) (number s) (2 ^ 32)
    ∙ ap (λ x. x % 2 ^ 32)
        (shift n d (10 ^ length s) (number s)
          ∙ ap (λ p. n * p + (d * 10 ^ length s + number s)) (sym (pow-suc 10 (length s))))

pub foldl-next_int32 : (s : Bytes) → foldl next_int32 0 s ≡ number s % 2 ^ 32
foldl-next_int32 s = foldl-next_int32_from 0 s (omega arith) ∙ ap (λ x. x % 2 ^ 32) (grind arith)

module _ (go : Runtime) where
  open go use {Float64}

  pub foldl-next_whole : (n : Float64) (s : Bytes) → foldl (next_whole go) n s ≡ whole_from go n s
  unfolding whole_from
  foldl-next_whole n [] = refl
  foldl-next_whole n (c ∷ s) = foldl-next_whole (next_whole go n c) s

  pub foldl-next_fraction_digit :
      (n : Float64) (k : ℕ) (s : Bytes)
      → (foldl (next_fraction_digit go) (n, tenths go k) s).0 ≡ fraction_from go n k s
  unfolding fraction_from tenths
  foldl-next_fraction_digit n k [] = refl
  foldl-next_fraction_digit n k (c ∷ s) =
      foldl-next_fraction_digit (next_fraction go n (tenths go k) c) (suc k) s
