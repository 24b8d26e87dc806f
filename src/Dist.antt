-- ===== src/Dist.antt =====
-- internal/hnsw/dist.go: squared distances in int32. A difference of an int16 and a uint8 fits; the
-- products and sums are kept as bit patterns below 2 ^ 32 and wrap around.
pub mod Bounds
use fraud_detection_api.Base.{ℕ, ◌+◌, ◌*◌, ◌%◌, ◌^◌, ℤ, pos, pos_part, neg_part, sub_ℕ, signed32}
use fraud_detection_api.Vector.{Vector}

-- `int32(q) - int32(v)`
abbrev pub diff : ℤ → ℕ → ℤ
diff q v = sub_ℕ (pos_part q) (neg_part q + v)

abbrev pub abs : ℤ → ℕ
abs d = pos_part d + neg_part d

-- `d*d`
abbrev pub square32 : ℤ → ℕ
square32 d = (abs d * abs d) % 2 ^ 32

abbrev pub add32 : ℕ → ℕ → ℕ
add32 a b = (a + b) % 2 ^ 32

-- The sum of 14 terms, from the left.
unfoldable pub sum32 : Vector ℕ → ℕ
sum32 t =
    let s3 = add32 (add32 (add32 t.v0 t.v1) t.v2) t.v3 in
    let s7 = add32 (add32 (add32 (add32 s3 t.v4) t.v5) t.v6) t.v7 in
    let s11 = add32 (add32 (add32 (add32 s7 t.v8) t.v9) t.v10) t.v11 in
    add32 (add32 s11 t.v12) t.v13

unfoldable pub dist : Vector ℤ → Vector ℕ → ℤ
dist q v =
    let t : Vector ℕ = record {
      v0 = square32 (diff q.v0 v.v0);
      v1 = square32 (diff q.v1 v.v1);
      v2 = square32 (diff q.v2 v.v2);
      v3 = square32 (diff q.v3 v.v3);
      v4 = square32 (diff q.v4 v.v4);
      v5 = square32 (diff q.v5 v.v5);
      v6 = square32 (diff q.v6 v.v6);
      v7 = square32 (diff q.v7 v.v7);
      v8 = square32 (diff q.v8 v.v8);
      v9 = square32 (diff q.v9 v.v9);
      v10 = square32 (diff q.v10 v.v10);
      v11 = square32 (diff q.v11 v.v11);
      v12 = square32 (diff q.v12 v.v12);
      v13 = square32 (diff q.v13 v.v13);
    } in
    signed32 (sum32 t)

-- `Dist2`, between two stored vectors.
unfoldable pub dist2 : Vector ℕ → Vector ℕ → ℤ
dist2 a b =
    let t : Vector ℕ = record {
      v0 = square32 (diff (pos a.v0) b.v0);
      v1 = square32 (diff (pos a.v1) b.v1);
      v2 = square32 (diff (pos a.v2) b.v2);
      v3 = square32 (diff (pos a.v3) b.v3);
      v4 = square32 (diff (pos a.v4) b.v4);
      v5 = square32 (diff (pos a.v5) b.v5);
      v6 = square32 (diff (pos a.v6) b.v6);
      v7 = square32 (diff (pos a.v7) b.v7);
      v8 = square32 (diff (pos a.v8) b.v8);
      v9 = square32 (diff (pos a.v9) b.v9);
      v10 = square32 (diff (pos a.v10) b.v10);
      v11 = square32 (diff (pos a.v11) b.v11);
      v12 = square32 (diff (pos a.v12) b.v12);
      v13 = square32 (diff (pos a.v13) b.v13);
    } in
    signed32 (sum32 t)
