-- ===== src/Vector.antt =====
-- The fixed arrays of config.VectorDim = 14 entries: [14]float32, [14]int16 and [14]uint8.

pub record Vector {ℓ} (A : Type ℓ) : Type ℓ where
  pub v0 : A
  pub v1 : A
  pub v2 : A
  pub v3 : A
  pub v4 : A
  pub v5 : A
  pub v6 : A
  pub v7 : A
  pub v8 : A
  pub v9 : A
  pub v10 : A
  pub v11 : A
  pub v12 : A
  pub v13 : A

-- Every entry has the property.
pub record Each {ℓ κ} {A : Type ℓ} (P : A → Type κ) (v : Vector A) : Type κ where
  pub at0 : P v.v0
  pub at1 : P v.v1
  pub at2 : P v.v2
  pub at3 : P v.v3
  pub at4 : P v.v4
  pub at5 : P v.v5
  pub at6 : P v.v6
  pub at7 : P v.v7
  pub at8 : P v.v8
  pub at9 : P v.v9
  pub at10 : P v.v10
  pub at11 : P v.v11
  pub at12 : P v.v12
  pub at13 : P v.v13
