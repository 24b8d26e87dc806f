-- ===== src/Dist/Bounds.antt =====
-- No overflow: on bytes the int32 arithmetic of `Dist` and `Dist2` gives the exact sum of squares.
use fraud_detection_api.Base.{
  ℕ, ◌<◌, ◌+◌, ◌-◌, ◌*◌, ◌≤◌, ◌≡◌, refl, ◌∙◌, ℤ, pos, pos_part, neg_part, signed32, arith,
}
use fraud_detection_api.Vector.{Vector, Each}
use fraud_detection_api.Dist.{diff, abs, square32, sum32, dist, dist2}

-- A byte, and an int16 that holds one.
abbrev pub IsByte : ℕ → Type 0
IsByte n = n ≤ 255

abbrev pub HoldsByte : ℤ → Type 0
HoldsByte q = (neg_part q ≡ 0) × (pos_part q ≤ 255)

-- (a - b) ^ 2
abbrev pub gap_square : ℕ → ℕ → ℕ
gap_square a b = ((a - b) + (b - a)) * ((a - b) + (b - a))

-- The squared Euclidean distance of two vectors, over the natural numbers.
unfoldable pub euclid : Vector ℕ → Vector ℕ → ℕ
euclid a b =
    gap_square a.v0 b.v0
    + gap_square a.v1 b.v1
    + gap_square a.v2 b.v2
    + gap_square a.v3 b.v3
    + gap_square a.v4 b.v4
    + gap_square a.v5 b.v5
    + gap_square a.v6 b.v6
    + gap_square a.v7 b.v7
    + gap_square a.v8 b.v8
    + gap_square a.v9 b.v9
    + gap_square a.v10 b.v10
    + gap_square a.v11 b.v11
    + gap_square a.v12 b.v12
    + gap_square a.v13 b.v13

gap_square-le : (a b : ℕ) → IsByte a → IsByte b → gap_square a b ≤ 65025
gap_square-le a b h k = let g : (a - b) + (b - a) ≤ 255 = omega arith in grind arith

abs-diff : (a b : ℕ) → abs (diff (pos a) b) ≡ (a - b) + (b - a)
abs-diff a b = ground arith

square32-gap_square : (a b : ℕ) → IsByte a → IsByte b → square32 (diff (pos a) b) ≡ gap_square a b
square32-gap_square a b h k = rw (abs-diff a b) (omega (arith, gap_square-le a b h k))

signed32-small : (w : ℕ) → w < 2147483648 → signed32 w ≡ pos w
signed32-small w h = ground arith

sum32-small :
    (t : Vector ℕ)
    → Each (λ x. x ≤ 65025) t
    → (sum32 t
        ≡ t.v0 + t.v1 + t.v2 + t.v3 + t.v4 + t.v5 + t.v6 + t.v7 + t.v8 + t.v9 + t.v10 + t.v11
          + t.v12 + t.v13)
unfolding sum32
sum32-small t h = omega arith

-- The int16 view of a stored vector, `q[i] = int16(v[i])`.
unfoldable pub widen : Vector ℕ → Vector ℤ
widen a = record {
  v0 = pos a.v0;
  v1 = pos a.v1;
  v2 = pos a.v2;
  v3 = pos a.v3;
  v4 = pos a.v4;
  v5 = pos a.v5;
  v6 = pos a.v6;
  v7 = pos a.v7;
  v8 = pos a.v8;
  v9 = pos a.v9;
  v10 = pos a.v10;
  v11 = pos a.v11;
  v12 = pos a.v12;
  v13 = pos a.v13;
}

-- The 14 terms that both functions sum.
abbrev terms : Vector ℕ → Vector ℕ → Vector ℕ
terms a b = record {
  v0 = gap_square a.v0 b.v0;
  v1 = gap_square a.v1 b.v1;
  v2 = gap_square a.v2 b.v2;
  v3 = gap_square a.v3 b.v3;
  v4 = gap_square a.v4 b.v4;
  v5 = gap_square a.v5 b.v5;
  v6 = gap_square a.v6 b.v6;
  v7 = gap_square a.v7 b.v7;
  v8 = gap_square a.v8 b.v8;
  v9 = gap_square a.v9 b.v9;
  v10 = gap_square a.v10 b.v10;
  v11 = gap_square a.v11 b.v11;
  v12 = gap_square a.v12 b.v12;
  v13 = gap_square a.v13 b.v13;
}

module _ (a b : Vector ℕ) (ha : Each IsByte a) (hb : Each IsByte b) where
  terms-le : Each (λ x. x ≤ 65025) (terms a b)
  terms-le = record {
    at0 = gap_square-le a.v0 b.v0 ha.at0 hb.at0;
    at1 = gap_square-le a.v1 b.v1 ha.at1 hb.at1;
    at2 = gap_square-le a.v2 b.v2 ha.at2 hb.at2;
    at3 = gap_square-le a.v3 b.v3 ha.at3 hb.at3;
    at4 = gap_square-le a.v4 b.v4 ha.at4 hb.at4;
    at5 = gap_square-le a.v5 b.v5 ha.at5 hb.at5;
    at6 = gap_square-le a.v6 b.v6 ha.at6 hb.at6;
    at7 = gap_square-le a.v7 b.v7 ha.at7 hb.at7;
    at8 = gap_square-le a.v8 b.v8 ha.at8 hb.at8;
    at9 = gap_square-le a.v9 b.v9 ha.at9 hb.at9;
    at10 = gap_square-le a.v10 b.v10 ha.at10 hb.at10;
    at11 = gap_square-le a.v11 b.v11 ha.at11 hb.at11;
    at12 = gap_square-le a.v12 b.v12 ha.at12 hb.at12;
    at13 = gap_square-le a.v13 b.v13 ha.at13 hb.at13;
  }

  pub euclid-le : euclid a b ≤ 910350
  unfolding euclid
  euclid-le = let t = terms-le in omega arith

  dist2-euclid : dist2 a b ≡ pos (euclid a b)
  unfolding dist2 euclid
  dist2-euclid =
      let small = sum32-small (terms a b) terms-le in
      let t = terms-le in
      rw
        (
          square32-gap_square a.v0 b.v0 ha.at0 hb.at0,
          square32-gap_square a.v1 b.v1 ha.at1 hb.at1,
          square32-gap_square a.v2 b.v2 ha.at2 hb.at2,
          square32-gap_square a.v3 b.v3 ha.at3 hb.at3,
          square32-gap_square a.v4 b.v4 ha.at4 hb.at4,
          square32-gap_square a.v5 b.v5 ha.at5 hb.at5,
          square32-gap_square a.v6 b.v6 ha.at6 hb.at6,
          square32-gap_square a.v7 b.v7 ha.at7 hb.at7,
          square32-gap_square a.v8 b.v8 ha.at8 hb.at8,
          square32-gap_square a.v9 b.v9 ha.at9 hb.at9,
          square32-gap_square a.v10 b.v10 ha.at10 hb.at10,
          square32-gap_square a.v11 b.v11 ha.at11 hb.at11,
          square32-gap_square a.v12 b.v12 ha.at12 hb.at12,
          square32-gap_square a.v13 b.v13 ha.at13 hb.at13,
          small,
        )
        (signed32-small _ (omega arith))

-- `Dist` of the int16 view is `Dist2`.
pub dist-widen : (a b : Vector ℕ) → dist (widen a) b ≡ dist2 a b
unfolding dist dist2 widen
dist-widen a b = refl

-- For vectors of bytes neither `Dist`, on the int16 view of the first, nor `Dist2` overflows: both
-- give the exact squared Euclidean distance, which is at most 910350.
pub dist_exact :
    (a b : Vector ℕ)
    → Each IsByte a
    → Each IsByte b
    → (dist (widen a) b ≡ pos (euclid a b)) × (dist2 a b ≡ pos (euclid a b)) × (euclid a b ≤ 910350)
dist_exact a b ha hb =
    (dist-widen a b ∙ dist2-euclid a b ha hb, dist2-euclid a b ha hb, euclid-le a b ha hb)
