-- ===== src/Quantize/Bytes.antt =====
-- The two quantizers agree, and give bytes.
use fraud_detection_api.Base.{ℕ, ◌≡◌, refl, Bool, true, false, if◌then◌else◌, arith}
use fraud_detection_api.Runtime.{Runtime}
use fraud_detection_api.Vector.{Vector, Each}
use fraud_detection_api.Dist.Bounds.{IsByte, widen}
use fraud_detection_api.Quantize.{q_std, q_sentinel, quantize_vector, quantize_query}

-- A conversion to uint8 gives a byte.
abbrev pub GivesBytes : Runtime → Type 0
GivesBytes go = (x : go.Float32) → IsByte (go.to_uint8 x)

byte_if : (b : Bool) {x y : ℕ} → IsByte x → IsByte y → IsByte (if b then x else y)
byte_if true h k = h
byte_if false h k = k

module _ (go : Runtime) (gives : GivesBytes go) where
  open go use {Float32}

  q_std-IsByte : (x : Float32) → IsByte (q_std go x)
  unfolding q_std
  q_std-IsByte x = byte_if _ {x = 0} (omega arith) (byte_if _ {x = 255} (omega arith) (gives _))

  q_sentinel-IsByte : (x : Float32) → IsByte (q_sentinel go x)
  unfolding q_sentinel
  q_sentinel-IsByte x =
      byte_if _ {x = 0} (omega arith) (byte_if _ {x = 255} (omega arith) (gives _))

  quantize_vector-Bytes : (v : Vector Float32) → Each IsByte (quantize_vector go v)
  unfolding quantize_vector
  quantize_vector-Bytes v = record {
    at0 = q_std-IsByte v.v0;
    at1 = q_std-IsByte v.v1;
    at2 = q_std-IsByte v.v2;
    at3 = q_std-IsByte v.v3;
    at4 = q_std-IsByte v.v4;
    at5 = q_sentinel-IsByte v.v5;
    at6 = q_sentinel-IsByte v.v6;
    at7 = q_std-IsByte v.v7;
    at8 = q_std-IsByte v.v8;
    at9 = q_std-IsByte v.v9;
    at10 = q_std-IsByte v.v10;
    at11 = q_std-IsByte v.v11;
    at12 = q_std-IsByte v.v12;
    at13 = q_std-IsByte v.v13;
  }

  -- Where a conversion to uint8 gives a byte, the query is quantized as the stored vectors are: the
  -- int16 vector holds the bytes that `QuantizeVector` gives for the same dimensions, and each of
  -- them is at most 255.
  pub quantize_query-quantize_vector :
      (v : Vector Float32)
      → (quantize_query go v ≡ widen (quantize_vector go v)) × Each IsByte (quantize_vector go v)
  unfolding quantize_query quantize_vector widen
  quantize_query-quantize_vector v = (refl, quantize_vector-Bytes v)
