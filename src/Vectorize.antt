-- ===== src/Vectorize.antt =====
-- internal/vectorize/vectorize.go: from the request to the 14 dimensions of docs/DETECTION_RULES.md.
pub mod Range
use fraud_detection_api.Base.{
  ℕ, ◌+◌, ◌%◌, pos, negsuc, Bool, true, false, not, List, [], ◌∷◌, none, some, if◌then◌else◌, Bytes,
  bytes_eq,
}
use fraud_detection_api.Runtime.{Runtime}
use fraud_detection_api.Config.{
  max_amount, max_installments, amount_vs_avg_ratio, max_minutes, max_km, max_tx_count_24h,
  max_merchant_avg_amount, mcc_risk_default, mcc_risk, lookup_risk,
}
use fraud_detection_api.Request.{Request}
use fraud_detection_api.Vector.{Vector}

unfoldable pub contains : List Bytes → Bytes → Bool
contains [] target = false
contains (x ∷ xs) target = if bytes_eq x target then true else contains xs target

module _ (go : Runtime) where
  open go use {Float32, literal32, of_int32, narrow, div32, lt32, hour, weekday, minutes_between}

  -- An integral constant.
  abbrev pub whole32 : ℕ → Float32
  whole32 n = literal32 (pos n) 0

  abbrev pub minus_one : Float32
  minus_one = literal32 (negsuc 0) 0

  unfoldable pub clamp : Float32 → Float32
  clamp x = if lt32 x (whole32 0) then whole32 0 else if lt32 (whole32 1) x then whole32 1 else x

  unfoldable pub bool_to_float : Bool → Float32
  bool_to_float b = if b then whole32 1 else whole32 0

  unfoldable pub amount_vs_avg : Float32 → Float32 → Float32
  unfolding clamp
  amount_vs_avg amount avg =
      if lt32 (whole32 0) avg
      then clamp (div32 (div32 amount avg) (whole32 amount_vs_avg_ratio))
      else whole32 1

  -- Go counts from Sunday, the rules count from Monday.
  abbrev pub day_of_week : ℕ → ℕ
  day_of_week w = (w + 6) % 7

  unfoldable pub risk_of : Bytes → Float32
  unfolding lookup_risk mcc_risk
  risk_of mcc = elim (lookup_risk mcc mcc_risk) [
    | some risk ↦ literal32 (pos risk) 2
    | none ↦ literal32 (pos mcc_risk_default) 2
  ]

  unfoldable pub vectorize : Request go → Vector Float32
  unfolding clamp bool_to_float amount_vs_avg risk_of contains
  vectorize r = record {
    v0 = clamp (div32 r.transaction.amount (whole32 max_amount));
    v1 = clamp (div32 (of_int32 r.transaction.installments) (whole32 max_installments));
    v2 = amount_vs_avg r.transaction.amount r.customer.avg_amount;
    v3 = div32 (of_int32 (pos (hour r.transaction.requested_at))) (whole32 23);
    v4 = div32 (of_int32 (pos (day_of_week (weekday r.transaction.requested_at)))) (whole32 6);
    v5 =
        if r.has_last_transaction
        then clamp (
            div32 (narrow (minutes_between r.transaction.requested_at r.last_transaction.timestamp))
              (whole32 max_minutes))
        else minus_one;
    v6 =
        if r.has_last_transaction
        then clamp (div32 r.last_transaction.km_from_current (whole32 max_km))
        else minus_one;
    v7 = clamp (div32 r.terminal.km_from_home (whole32 max_km));
    v8 = clamp (div32 (of_int32 r.customer.tx_count_24h) (whole32 max_tx_count_24h));
    v9 = bool_to_float r.terminal.is_online;
    v10 = bool_to_float r.terminal.card_present;
    v11 = bool_to_float (not (contains r.customer.known_merchants r.merchant.id));
    v12 = risk_of r.merchant.mcc;
    v13 = clamp (div32 r.merchant.avg_amount (whole32 max_merchant_avg_amount));
  }
