-- ===== src/Quantize.antt =====
-- internal/hnsw/quantize.go: from float32 dimensions to bytes. An int16 that holds a byte is `pos`.
pub mod Bytes
use fraud_detection_api.Base.{ℕ, ℤ, pos, negsuc, if◌then◌else◌}
use fraud_detection_api.Runtime.{Runtime}
use fraud_detection_api.Vector.{Vector}

module _ (go : Runtime) where
  open go use {Float32, literal32, add32, mul32, le32, to_uint8}

  unfoldable pub q_std : Float32 → ℕ
  q_std x =
      if le32 x (literal32 (pos 0) 0)
      then 0
      else if le32 (literal32 (pos 1) 0) x
      then 255
      else to_uint8 (add32 (mul32 x (literal32 (pos 255) 0)) (literal32 (pos 5) 1))

  unfoldable pub q_sentinel : Float32 → ℕ
  q_sentinel x =
      if le32 x (literal32 (negsuc 0) 0)
      then 0
      else if le32 (literal32 (pos 1) 0) x
      then 255
      else to_uint8 (
          add32 (mul32 (add32 x (literal32 (pos 1) 0)) (literal32 (pos 1275) 1))
            (literal32 (pos 5) 1))

  unfoldable pub quantize_vector : Vector Float32 → Vector ℕ
  unfolding q_std q_sentinel
  quantize_vector v = record {
    v0 = q_std v.v0;
    v1 = q_std v.v1;
    v2 = q_std v.v2;
    v3 = q_std v.v3;
    v4 = q_std v.v4;
    v5 = q_sentinel v.v5;
    v6 = q_sentinel v.v6;
    v7 = q_std v.v7;
    v8 = q_std v.v8;
    v9 = q_std v.v9;
    v10 = q_std v.v10;
    v11 = q_std v.v11;
    v12 = q_std v.v12;
    v13 = q_std v.v13;
  }

  unfoldable pub quantize_query : Vector Float32 → Vector ℤ
  unfolding q_std q_sentinel
  quantize_query v = record {
    v0 = pos (q_std v.v0);
    v1 = pos (q_std v.v1);
    v2 = pos (q_std v.v2);
    v3 = pos (q_std v.v3);
    v4 = pos (q_std v.v4);
    v5 = pos (q_sentinel v.v5);
    v6 = pos (q_sentinel v.v6);
    v7 = pos (q_std v.v7);
    v8 = pos (q_std v.v8);
    v9 = pos (q_std v.v9);
    v10 = pos (q_std v.v10);
    v11 = pos (q_std v.v11);
    v12 = pos (q_std v.v12);
    v13 = pos (q_std v.v13);
  }
