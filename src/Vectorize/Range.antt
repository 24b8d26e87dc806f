-- ===== src/Vectorize/Range.antt =====
-- The ranges of the dimensions.
use fraud_detection_api.Base.{
  ℕ, ◌≤◌, ◌≡◌, refl, ◌⊎◌, inl, inr, pos, Bool, true, false, Bool-cases, List, [], ◌∷◌, Option, none,
  some, Bytes, bytes_eq, arith,
}
use fraud_detection_api.Runtime.{Runtime}
use fraud_detection_api.Config.{mcc_risk, lookup_risk}
use fraud_detection_api.Request.{Request}
use fraud_detection_api.Vector.{Vector}
use fraud_detection_api.Vectorize.{
  whole32, minus_one, clamp, bool_to_float, amount_vs_avg, risk_of, vectorize,
}

-- The order of the constants 0 and 1.
pub record OrdersConstants (go : Runtime) : Type 0 where
  pub zero_zero : go.lt32 (whole32 go 0) (whole32 go 0) ≡ false
  pub one_zero : go.lt32 (whole32 go 1) (whole32 go 0) ≡ false
  pub one_one : go.lt32 (whole32 go 1) (whole32 go 1) ≡ false

module _ (go : Runtime) (order : OrdersConstants go) where
  open go use {Float32, lt32, literal32}

  -- Neither below 0 nor above 1. This holds of a value that is not a number.
  abbrev pub InUnit : Float32 → Type 0
  InUnit x = (lt32 x (whole32 go 0) ≡ false) × (lt32 (whole32 go 1) x ≡ false)

  zero_InUnit : InUnit (whole32 go 0)
  zero_InUnit = (order.zero_zero, order.one_zero)

  one_InUnit : InUnit (whole32 go 1)
  one_InUnit = (order.one_zero, order.one_one)

  clamp-InUnit : (x : Float32) → InUnit (clamp go x)
  unfolding clamp
  clamp-InUnit x = elim (Bool-cases (lt32 x (whole32 go 0))) [
    | inl t ↦ rw t zero_InUnit
    | inr f ↦ elim (Bool-cases (lt32 (whole32 go 1) x)) [
      | inl t ↦ rw (f, t) one_InUnit
      | inr o ↦ rw (f, o) (f, o)
    ]
  ]

  amount_vs_avg-InUnit : (amount avg : Float32) → InUnit (amount_vs_avg go amount avg)
  unfolding amount_vs_avg
  amount_vs_avg-InUnit amount avg = elim (Bool-cases (lt32 (whole32 go 0) avg)) [
    | inl t ↦ rw t (clamp-InUnit _)
    | inr f ↦ rw f one_InUnit
  ]

  -- A Boolean as 0 or 1.
  abbrev pub IsFlag : Float32 → Type 0
  IsFlag x = (x ≡ whole32 go 0) ⊎ (x ≡ whole32 go 1)

  bool_to_float-IsFlag : (b : Bool) → IsFlag (bool_to_float go b)
  unfolding bool_to_float
  bool_to_float-IsFlag true = inr refl
  bool_to_float-IsFlag false = inl refl

  -- A number of hundredths, at most 1.
  abbrev pub IsRisk : Float32 → Type 0
  IsRisk x = (k : ℕ) × (k ≤ 100) × (x ≡ literal32 (pos k) 2)

  abbrev RisksOk : List (Bytes × ℕ) → Type 0
  RisksOk [] = Unit {0}
  RisksOk ((_, risk) ∷ rest) = (risk ≤ 100) × RisksOk rest

  abbrev MayRisk : Option ℕ → Type 0
  MayRisk none = Unit {0}
  MayRisk (some risk) = risk ≤ 100

  lookup_risk-MayRisk :
      (mcc : Bytes) (table : List (Bytes × ℕ)) → RisksOk table → MayRisk (lookup_risk mcc table)
  unfolding lookup_risk
  lookup_risk-MayRisk mcc [] h = tt
  lookup_risk-MayRisk mcc ((code, risk) ∷ rest) h = elim (Bool-cases (bytes_eq code mcc)) [
    | inl t ↦ rw t h.0
    | inr f ↦ rw f (lookup_risk-MayRisk mcc rest h.1)
  ]

  mcc_risk-RisksOk : RisksOk mcc_risk
  unfolding mcc_risk
  mcc_risk-RisksOk = omega arith

  risk_of-IsRisk : (mcc : Bytes) → IsRisk (risk_of go mcc)
  unfolding risk_of
  risk_of-IsRisk mcc =
      found (lookup_risk mcc mcc_risk) (lookup_risk-MayRisk mcc mcc_risk mcc_risk-RisksOk)
    where
      found :
          (o : Option ℕ)
          → MayRisk o
          → IsRisk (elim o [ some risk ↦ literal32 (pos risk) 2 | none ↦ literal32 (pos 50) 2 ])
      found none h = (50, omega arith, refl)
      found (some risk) h = (risk, h, refl)

  -- The ranges of the dimensions, but of hour and weekday.
  pub record Ranged (r : Request go) (v : Vector Float32) : Type 0 where
    pub amount : InUnit v.v0
    pub installments : InUnit v.v1
    pub ratio : InUnit v.v2
    pub minutes_since : r.has_last_transaction ≡ true → InUnit v.v5
    pub km_since : r.has_last_transaction ≡ true → InUnit v.v6
    pub no_last : r.has_last_transaction ≡ false → (v.v5 ≡ minus_one go) × (v.v6 ≡ minus_one go)
    pub km_home : InUnit v.v7
    pub tx_count : InUnit v.v8
    pub online : IsFlag v.v9
    pub card : IsFlag v.v10
    pub unknown_merchant : IsFlag v.v11
    pub risk : IsRisk v.v12
    pub merchant_avg : InUnit v.v13

  -- Where 0 and 1 are ordered as they should be, the normalized dimensions of every request are neither
  -- below 0 nor above 1, the flags are 0 or 1, the risk is at most 100 hundredths, and the two
  -- dimensions of the last transaction are -1 where the request has none, and normalized otherwise.
  -- The hour and the weekday are left out.
  pub vectorize-Ranged : (r : Request go) → Ranged r (vectorize go r)
  unfolding vectorize
  vectorize-Ranged r = record {
    amount = clamp-InUnit _;
    installments = clamp-InUnit _;
    ratio = amount_vs_avg-InUnit _ _;
    minutes_since = λ e. rw e (clamp-InUnit _);
    km_since = λ e. rw e (clamp-InUnit _);
    no_last = λ e. rw e (refl, refl);
    km_home = clamp-InUnit _;
    tx_count = clamp-InUnit _;
    online = bool_to_float-IsFlag _;
    card = bool_to_float-IsFlag _;
    unknown_merchant = bool_to_float-IsFlag _;
    risk = risk_of-IsRisk _;
    merchant_avg = clamp-InUnit _;
  }
