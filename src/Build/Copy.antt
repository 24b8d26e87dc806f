-- ===== src/Build/Copy.antt =====
-- What `copy(xs[off:], ys)` writes, and rows of a flat table.
use fraud_detection_api.Base.{
  ltb, leb, if◌then◌else◌, le→leb, length, get_or, take, drop, All, length-append, length-take,
  length-drop, All-take, All-drop, All-append, ℕ, zero, suc, ◌+◌, ◌-◌, ◌*◌, ◌≤◌, ◌<◌, ◌≡◌, refl, ap,
  false, ◌&&◌, List, [], ◌∷◌, ◌++◌, arith,
}
use fraud_detection_api.Build.{overlay, copy_at}
use fraud_detection_api.Run.{Run, Returns, returns}

overlay-length {ℓ} : {A : Type ℓ} (xs ys : List A) → length (overlay xs ys) ≡ length xs
unfolding overlay
overlay-length [] ys = refl
overlay-length (x ∷ xs) [] = refl
overlay-length (x ∷ xs) (y ∷ ys) = ap suc (overlay-length xs ys)

get_or-overlay {ℓ} :
    {A : Type ℓ} (xs ys : List A) (j : ℕ) (d : A)
    → length ys ≤ length xs
    → get_or (overlay xs ys) j d ≡ (if ltb j (length ys) then get_or ys j d else get_or xs j d)
unfolding overlay
get_or-overlay [] [] j d l = ground arith
get_or-overlay [] (y ∷ ys) j d l = absurd (omega arith)
get_or-overlay (x ∷ xs) [] j d l = ground arith
get_or-overlay (x ∷ xs) (y ∷ ys) zero d l = ground arith
get_or-overlay (x ∷ xs) (y ∷ ys) (suc j) d l = ground (arith, get_or-overlay xs ys j d)

All-overlay {ℓ κ} :
    {A : Type ℓ} (P : A → Type κ) (xs ys : List A) → All P xs → All P ys → All P (overlay xs ys)
unfolding overlay
All-overlay P [] ys h k = tt
All-overlay P (x ∷ xs) [] h k = h
All-overlay P (x ∷ xs) (y ∷ ys) h k = (k.0, All-overlay P xs ys h.1 k.1)

get_or-copy {ℓ} :
    {A : Type ℓ} (xs : List A) (off : ℕ) (ys : List A) (i : ℕ) (d : A)
    → off + length ys ≤ length xs
    → get_or (take off xs ++ overlay (drop off xs) ys) i d
      ≡ (if leb off i && ltb i (off + length ys) then get_or ys (i - off) d else get_or xs i d)
get_or-copy xs zero ys i d l =
    let e : i - 0 ≡ i = omega arith in rw e (ground (arith, get_or-overlay xs ys i d))
get_or-copy [] (suc off) ys i d l = absurd (omega arith)
get_or-copy (x ∷ xs) (suc off) ys zero d l =
    let low : leb (suc off) 0 ≡ false = ground arith in rw low refl
get_or-copy (x ∷ xs) (suc off) ys (suc i) d l =
    let lower : leb (suc off) (suc i) ≡ leb off i = ground arith in
    let upper : ltb (suc i) (suc off + length ys) ≡ ltb i (off + length ys) = ground arith in
    let back : suc i - suc off ≡ i - off = omega arith in
    rw (lower, upper, back) (get_or-copy xs off ys i d (omega arith))

-- The written list: entries from `off` are those of `ys`, the others are old.
pub record Copied {ℓ} {A : Type ℓ} (xs : List A) (off : ℕ) (ys r : List A) : Type ℓ where
  pub size : length r ≡ length xs
  pub new : (j : ℕ) (d : A) → j < length ys → get_or r (off + j) d ≡ get_or ys j d
  pub old_below : (j : ℕ) (d : A) → j < off → get_or r j d ≡ get_or xs j d
  pub old_above : (j : ℕ) (d : A) → off + length ys ≤ j → get_or r j d ≡ get_or xs j d

pub copy_at-Copied {ℓ} :
    {A : Type ℓ} (xs : List A) (off : ℕ) (ys : List A)
    → off + length ys ≤ length xs
    → Returns (Copied xs off ys) (copy_at xs off ys)
unfolding copy_at
copy_at-Copied xs off ys l =
    let size = length-append (take off xs) (overlay (drop off xs) ys) in
    rw (le→leb off (length xs) (omega arith)) (
      returns (record {
        size =
            omega (arith, length-take off xs, length-drop off xs, overlay-length (drop off xs) ys);
        new = λ j d h.
            (let e : off + j - off ≡ j = omega arith in
              ground (arith, get_or-copy xs off ys (off + j) d));
        old_below = λ j d h. ground (arith, get_or-copy xs off ys j d);
        old_above = λ j d h. ground (arith, get_or-copy xs off ys j d);
      }))

pub copy_at-All {ℓ κ} :
    {A : Type ℓ} (P : A → Type κ) (xs : List A) (off : ℕ) (ys : List A)
    → off ≤ length xs
    → All P xs
    → All P ys
    → Returns (All P) (copy_at xs off ys)
unfolding copy_at
copy_at-All P xs off ys l h k = rw (le→leb off (length xs) l) (
    returns (
      All-append P (take off xs) _ (All-take P off xs h)
        (All-overlay P (drop off xs) ys (All-drop P off xs h) k)))

-- Two facts about one run.
pub Returns-both {ℓ κ κ'} :
    {V : Type ℓ} {Good : V → Type κ} {Fine : V → Type κ'} {run : Run V}
    → Returns Good run
    → Returns Fine run
    → Returns (λ v. Good v × Fine v) run
Returns-both (returns good) (returns fine) = returns (good, fine)

-- Rows of width `w` do not overlap.
pub row_below : (i r w j : ℕ) → i < r → j < w → i * w + j < r * w
row_below i r w j h l = grind arith
