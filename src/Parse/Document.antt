-- ===== src/Parse/Document.antt =====
-- The payloads of docs/API.md as documents: the values as they are written.
pub mod Text
pub mod Meaning
use fraud_detection_api.Base.{
  ℕ, ◌<◌, ◌≤◌, ◌≡◌, Bool, true, List, [], ◌∷◌, Option, none, some, ◌==◌, not, ◌&&◌, Bytes, All,
}
use fraud_detection_api.Parse.Cursor.{is_digit}

pub data Space : Type 0 where
  blank_space line_feed carriage_return tab : Space

-- A number: its sign, and the digits before and behind the point, as bytes.
pub record Decimal : Type 0 where
  pub negative : Bool
  pub whole : Bytes
  pub fraction : Option Bytes

pub record Stamp : Type 0 where
  pub year : ℕ
  pub month : ℕ
  pub day : ℕ
  pub hour : ℕ
  pub minute : ℕ
  pub second : ℕ

pub record Document : Type 0 where
  pub id : Bytes
  pub amount : Decimal
  pub installments : Bytes
  pub requested_at : Stamp
  pub customer_avg : Decimal
  pub tx_count_24h : Bytes
  pub known_merchants : List Bytes
  pub merchant_id : Bytes
  pub mcc : Bytes
  pub merchant_avg : Decimal
  pub is_online : Bool
  pub card_present : Bool
  pub km_from_home : Decimal
  pub last_transaction : Option (Stamp × Decimal)

-- No quote and no backslash.
abbrev pub IsPlain : Bytes → Type 0
IsPlain = All (λ c. (not (c == b'"') && not (c == b'\\')) ≡ true)

abbrev pub IsNumeral : Bytes → Type 0
IsNumeral [] = ⊥
IsNumeral (c ∷ s) = (is_digit c ≡ true) × All (λ d. is_digit d ≡ true) s

abbrev pub FractionOk : Option Bytes → Type 0
FractionOk none = Unit
FractionOk (some s) = All (λ d. is_digit d ≡ true) s

pub record DecimalOk (d : Decimal) : Type 0 where
  pub whole_ok : IsNumeral d.whole
  pub fraction_ok : FractionOk d.fraction

-- The ranges that `parseFixedUTC` checks; the day is not held to the month.
pub record StampOk (t : Stamp) : Type 0 where
  pub year_lt : t.year < 10000
  pub month_pos : 1 ≤ t.month
  pub month_le : t.month ≤ 12
  pub day_pos : 1 ≤ t.day
  pub day_le : t.day ≤ 31
  pub hour_le : t.hour ≤ 23
  pub minute_le : t.minute ≤ 59
  pub second_le : t.second ≤ 59

abbrev pub LastOk : Option (Stamp × Decimal) → Type 0
LastOk none = Unit
LastOk (some (t, d)) = StampOk t × DecimalOk d

pub record DocumentOk (d : Document) : Type 0 where
  pub id_ok : IsPlain d.id
  pub amount_ok : DecimalOk d.amount
  pub installments_ok : IsNumeral d.installments
  pub requested_at_ok : StampOk d.requested_at
  pub customer_avg_ok : DecimalOk d.customer_avg
  pub tx_count_24h_ok : IsNumeral d.tx_count_24h
  pub known_merchants_ok : All IsPlain d.known_merchants
  pub merchant_id_ok : IsPlain d.merchant_id
  pub mcc_ok : IsPlain d.mcc
  pub merchant_avg_ok : DecimalOk d.merchant_avg
  pub km_from_home_ok : DecimalOk d.km_from_home
  pub last_transaction_ok : LastOk d.last_transaction
