-- ===== src/Base/Tally.antt =====
-- How often a test holds in a list, and lists that hold the same items in some order.
use Prim.Native.Nat.{ℕ, zero, suc, ◌+◌, ◌<◌, ◌≤◌}
use mathlib.Core.Path.{◌≡◌, refl, sym, ◌∙◌, ap}
use mathlib.Core.Logic.{inl, inr}
use mathlib.Core.Bool.{Bool, true}
use mathlib.Core.List.{List, [], ◌∷◌, ◌++◌}
use native.Mathlib.Omega.{arith}
use fraud_detection_api.Base.Tests.{if◌then◌else◌, ◌==◌, Bool-cases}
use fraud_detection_api.Base.Lists.{length, get_or, set, take, drop, length-set}

abbrev pub weight : Bool → ℕ
weight b = if b then 1 else 0

module _ {ℓ} {A : Type ℓ} where
  abbrev pub tally : (A → Bool) → List A → ℕ
  tally p [] = 0
  tally p (x ∷ xs) = weight (p x) + tally p xs

  -- Every test holds as often in the one list as in the other: they are equal as multisets.
  abbrev pub Same : List A → List A → Type ℓ
  Same xs ys = (p : A → Bool) → tally p xs ≡ tally p ys

  pub tally-append : (p : A → Bool) (xs ys : List A) → tally p (xs ++ ys) ≡ tally p xs + tally p ys
  tally-append p [] ys = omega arith
  tally-append p (x ∷ xs) ys = omega (arith, tally-append p xs ys)

  -- A write trades the old entry for the new one.
  pub tally-set :
      (p : A → Bool) (xs : List A) (i : ℕ) (v d : A)
      → i < length xs
      → tally p (set xs i v) + weight (p (get_or xs i d)) ≡ tally p xs + weight (p v)
  tally-set p [] i v d h = absurd (omega arith)
  tally-set p (x ∷ xs) zero v d h = omega arith
  tally-set p (x ∷ xs) (suc i) v d h = omega (arith, tally-set p xs i v d)

  -- All but the last entry.
  pub tally-take :
      (p : A → Bool) (n : ℕ) (xs : List A) (d : A)
      → length xs ≡ suc n
      → tally p (take n xs) + weight (p (get_or xs n d)) ≡ tally p xs
  tally-take p n [] d h = absurd (omega arith)
  tally-take p zero (x ∷ []) d h = omega arith
  tally-take p zero (x ∷ y ∷ xs) d h = absurd (omega arith)
  tally-take p (suc n) (x ∷ xs) d h = omega (arith, tally-take p n xs d)

  pub tally-le : (p : A → Bool) (xs : List A) → tally p xs ≤ length xs
  tally-le p [] = omega arith
  tally-le p (x ∷ xs) = ground (arith, tally-le p xs)

  -- A test that holds somewhere, and a test that holds everywhere.
  pub tally_find :
      (p : A → Bool) (xs : List A) (d : A)
      → 0 < tally p xs
      → (i : ℕ) × (i < length xs) × (p (get_or xs i d) ≡ true)
  tally_find p [] d h = absurd (omega arith)
  tally_find p (x ∷ xs) d h = elim (Bool-cases (p x)) [
    | inl yes_here ↦ (0, omega arith, yes_here)
    | inr no_here ↦ let (i, l, e) = tally_find p xs d (ground arith) in (suc i, omega arith, e)
  ]

  pub tally_full :
      (p : A → Bool) (xs : List A) (i : ℕ) (d : A)
      → tally p xs ≡ length xs
      → i < length xs
      → p (get_or xs i d) ≡ true
  tally_full p [] i d e h = absurd (omega arith)
  tally_full p (x ∷ xs) zero d e h = ground (arith, tally-le p xs)
  tally_full p (x ∷ xs) (suc i) d e h =
      tally_full p xs i d (ground (arith, tally-le p xs)) (omega arith)

  pub get_or_out : (xs : List A) (i : ℕ) (d : A) → length xs ≤ i → get_or xs i d ≡ d
  get_or_out [] i d h = refl
  get_or_out (x ∷ xs) zero d h = absurd (omega arith)
  get_or_out (x ∷ xs) (suc i) d h = get_or_out xs i d (omega arith)

  pub length-tally : (xs : List A) → tally (λ _. true) xs ≡ length xs
  length-tally [] = refl
  length-tally (x ∷ xs) = omega (arith, length-tally xs)

  pub Same-length : (xs ys : List A) → Same xs ys → length xs ≡ length ys
  Same-length xs ys s = omega (arith, s (λ _. true), length-tally xs, length-tally ys)

  -- Reads after a write, behind an append and in a prefix.
  pub get_or-set :
      (xs : List A) (i j : ℕ) (v d : A)
      → i < length xs
      → get_or (set xs i v) j d ≡ (if i == j then v else get_or xs j d)
  get_or-set [] i j v d h = absurd (omega arith)
  get_or-set (x ∷ xs) zero zero v d h = refl
  get_or-set (x ∷ xs) (suc i) (suc j) v d h = ground (arith, get_or-set xs i j v d)
  get_or-set (x ∷ xs) zero (suc j) v d h = ground arith
  get_or-set (x ∷ xs) (suc i) zero v d h = ground arith

  pub get_or-append :
      (xs ys : List A) (j : ℕ) (d : A) → j < length xs → get_or (xs ++ ys) j d ≡ get_or xs j d
  get_or-append [] ys j d h = absurd (omega arith)
  get_or-append (x ∷ xs) ys zero d h = refl
  get_or-append (x ∷ xs) ys (suc j) d h = get_or-append xs ys j d (omega arith)

  pub get_or-take :
      (n : ℕ) (xs : List A) (j : ℕ) (d : A) → j < n → get_or (take n xs) j d ≡ get_or xs j d
  get_or-take zero xs j d h = absurd (omega arith)
  get_or-take (suc n) [] j d h = refl
  get_or-take (suc n) (x ∷ xs) zero d h = refl
  get_or-take (suc n) (x ∷ xs) (suc j) d h = get_or-take n xs j d (omega arith)

  pub get_or-drop :
      (n : ℕ) (xs : List A) (j : ℕ) (d : A) → get_or (drop n xs) j d ≡ get_or xs (n + j) d
  get_or-drop zero xs j d = ap (λ i. get_or xs i d) (omega arith)
  get_or-drop (suc n) [] j d = ground arith
  get_or-drop (suc n) (x ∷ xs) j d =
      let e : suc n + j ≡ suc (n + j) = omega arith in
      get_or-drop n xs j d ∙ ap (λ i. get_or (x ∷ xs) i d) (sym e)

  -- The entries `i` and `j` change places.
  unfoldable pub exchange : List A → ℕ → ℕ → A → List A
  exchange xs i j d = set (set xs i (get_or xs j d)) j (get_or xs i d)

  pub length-exchange : (xs : List A) (i j : ℕ) (d : A) → length (exchange xs i j d) ≡ length xs
  unfolding exchange
  length-exchange xs i j d = simp length-set

  module _ (xs : List A) (i j : ℕ) (d : A) (hi : i < length xs) (hj : j < length xs) where
    pub get_or-exchange :
        (c : ℕ)
        → get_or (exchange xs i j d) c d
          ≡ (if j == c then get_or xs i d else if i == c then get_or xs j d else get_or xs c d)
    unfolding exchange
    get_or-exchange c = ground (
      arith,
      length-set xs i (get_or xs j d),
      get_or-set (set xs i (get_or xs j d)) j c (get_or xs i d) d,
      get_or-set xs i c (get_or xs j d) d,
    )

    pub Same-exchange : Same (exchange xs i j d) xs
    unfolding exchange
    Same-exchange p = ground (
      arith,
      length-set xs i (get_or xs j d),
      get_or-set xs i j (get_or xs j d) d,
      tally-set p (set xs i (get_or xs j d)) j (get_or xs i d) d,
      tally-set p xs i (get_or xs j d) d,
    )
