-- ===== src/Query/Pick.antt =====
-- One round of the selection: the nearest result that is not taken.
use native.Mathlib.Decide.{ℕ_discrete}
use fraud_detection_api.Base.{
  ℕ, zero, suc, ◌+◌, ◌<◌, ◌≤◌, ◌≡◌, refl, sym, ◌∙◌, ap, subst, inl, inr, ℤ, pos, ◌≤ℤ◌, ltb_ℤ, Bool,
  true, false, List, Option, none, some, length, replicate, set, get_or, get_or-set, arith,
  if◌then◌else◌, ltb, Bool-cases,
}
use fraud_detection_api.Run.{Returns, returns}
use fraud_detection_api.Graph.WellFormed.{fetch-get_or}
use fraud_detection_api.Query.Top.{better, pick_loop}

abbrev pub is_taken : List Bool → ℕ → Bool
is_taken taken j = get_or taken j false

-- The nearest of the first `m` results that are not taken; `none` when all are taken.
abbrev pub IsPick : List Bool → List ℤ → ℕ → Option (ℕ × ℤ) → Type 0
IsPick taken dists m none = (j : ℕ) → j < m → is_taken taken j ≡ true
IsPick taken dists m (some (p, d)) =
    (p < m)
    × (is_taken taken p ≡ false)
    × (get_or dists p (pos 0) ≡ d)
    × ((j : ℕ) → j < m → is_taken taken j ≡ false → d ≤ℤ get_or dists j (pos 0))

extend_far :
    (taken : List Bool) (dists : List ℤ) (i : ℕ) (d : ℤ)
    → ((j : ℕ) → j < i → is_taken taken j ≡ false → d ≤ℤ get_or dists j (pos 0))
    → (is_taken taken i ≡ false → d ≤ℤ get_or dists i (pos 0))
    → (j : ℕ) → j < i + 1
    → is_taken taken j ≡ false
    → d ≤ℤ get_or dists j (pos 0)
extend_far taken dists i d old new j l f = elim (ℕ_discrete j i) [
  | yes e ↦ rw e (new (ap (is_taken taken) (sym e) ∙ f))
  | no o ↦ old j (omega arith) f
]

extend_taken :
    (taken : List Bool) (i : ℕ)
    → ((j : ℕ) → j < i → is_taken taken j ≡ true)
    → is_taken taken i ≡ true
    → (j : ℕ) → j < i + 1
    → is_taken taken j ≡ true
extend_taken taken i old new j l = elim (ℕ_discrete j i) [
  | yes e ↦ ap (is_taken taken) e ∙ new
  | no o ↦ old j (omega arith)
]

IsPick-better :
    (taken : List Bool) (dists : List ℤ) (i : ℕ) (best : Option (ℕ × ℤ))
    → IsPick taken dists i best
    → IsPick taken dists
        (i + 1)
        (if is_taken taken i then best else better best i (get_or dists i (pos 0)))
IsPick-better taken dists i none b = elim (Bool-cases (is_taken taken i)) [
  | inl t ↦ rw t (extend_taken taken i b t)
  | inr f ↦ rw f (
    omega arith,
    f,
    refl,
    extend_far taken dists i (get_or dists i (pos 0)) (λ j l free. absurd (ground (arith, b j l)))
        λ h. omega arith,
  )
]
IsPick-better taken dists i (some (p, d)) (l, free, at, most) =
    elim (Bool-cases (is_taken taken i)) [
      | inl t ↦
          rw t (omega arith, free, at, extend_far taken dists i d most λ f. absurd (ground arith))
      | inr f ↦ elim (Bool-cases (ltb_ℤ (get_or dists i (pos 0)) d)) [
        | inl less ↦
            rw (f, less)
              (
                omega arith,
                f,
                refl,
                extend_far taken dists i (get_or dists i (pos 0))
                    (λ j l free. ground (arith, most j l free)) λ h. omega arith,
              )
        | inr more ↦
            rw (f, more) (omega arith, free, at, extend_far taken dists i d most λ h. ground arith)
      ]
    ]

pub pick_loop-IsPick :
    (k : ℕ) (taken : List Bool) (dists : List ℤ) (i : ℕ) (best : Option (ℕ × ℤ))
    → i + k ≤ length taken
    → i + k ≤ length dists
    → IsPick taken dists i best
    → Returns (IsPick taken dists (i + k)) (pick_loop k taken dists i best)
unfolding pick_loop
pick_loop-IsPick zero taken dists i best l n b =
    let e : i ≡ i + 0 = omega arith in returns (subst (λ m. IsPick taken dists m best) e b)
pick_loop-IsPick (suc k) taken dists i best l n b =
    let e : i + 1 + k ≡ i + suc k = omega arith in
    rw (fetch-get_or taken i false (omega arith), fetch-get_or dists i (pos 0) (omega arith))
      (subst
        (λ m. Returns (IsPick taken dists m) (
          pick_loop k taken dists (i + 1)
            (if is_taken taken i then best else better best i (get_or dists i (pos 0)))))
        e
        (pick_loop-IsPick k taken dists (i + 1) _ (omega arith) (omega arith)
          (IsPick-better taken dists i best b)))

-- How many of the first `m` results are not taken.
abbrev pub free : ℕ → List Bool → ℕ
free zero taken = 0
free (suc m) taken = free m taken + (if is_taken taken m then 0 else 1)

pub free-none :
    (m : ℕ) (taken : List Bool) → ((j : ℕ) → j < m → is_taken taken j ≡ true) → free m taken ≡ 0
free-none zero taken h = refl
free-none (suc m) taken h =
    ground (arith, free-none m taken (λ j l. h j (omega arith)), h m (omega arith))

pub free-set :
    (m : ℕ) (taken : List Bool) (p : ℕ)
    → p < length taken
    → is_taken taken p ≡ false
    → free m (set taken p true) + (if ltb p m then 1 else 0) ≡ free m taken
free-set zero taken p l f = ground arith
free-set (suc m) taken p l f = elim (ℕ_discrete p m) [
  | yes e ↦ ground (arith, free-set m taken p l f, get_or-set taken p m true false l)
  | no o ↦ ground (arith, free-set m taken p l f, get_or-set taken p m true false l)
]

pub get_or-replicate : (n j : ℕ) → get_or (replicate n false) j false ≡ false
get_or-replicate zero j = refl
get_or-replicate (suc n) zero = refl
get_or-replicate (suc n) (suc j) = get_or-replicate n j

pub free-start : (m n : ℕ) → free m (replicate n false) ≡ m
free-start zero n = refl
free-start (suc m) n = ground (arith, free-start m n, get_or-replicate n m)
