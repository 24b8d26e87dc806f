-- ===== src/Parse/Document/Meaning.antt =====
-- The request that a document stands for: integers by the weights of their digits, and floats
-- digit by digit in Go's float arithmetic.
use fraud_detection_api.Base.{
  ℕ, zero, suc, ◌+◌, ◌-◌, ◌*◌, ◌%◌, ◌^◌, ℤ, pos, negsuc, signed32, Bool, true, false, [], ◌∷◌,
  Option, none, some, Bytes, length,
}
use fraud_detection_api.Runtime.{Runtime}
use fraud_detection_api.Request.{
  Transaction, Customer, Merchant, Terminal, LastTransaction, Request,
}
use fraud_detection_api.Parse.Document.{Decimal, Stamp, Document}

-- The number that digits write: each digit times its power of ten.
unfoldable pub number : Bytes → ℕ
number [] = 0
number (c ∷ s) = (c - b'0') * 10 ^ length s + number s

-- An int32 keeps the low 32 bits.
abbrev pub int32_value : Bytes → ℤ
int32_value s = signed32 (number s % 2 ^ 32)

module _ (go : Runtime) where
  open go use {Float32, Float64, Time, literal64, of_byte, narrow, add64, mul64, date}

  -- What the digits `s` make of the number `n` in front of them.
  unfoldable pub whole_from : Float64 → Bytes → Float64
  whole_from n [] = n
  whole_from n (c ∷ s) = whole_from (add64 (mul64 n (literal64 (pos 10) 0)) (of_byte (c - b'0'))) s

  -- The weight of a digit with `k` digits between it and the point: a product of tenths.
  unfoldable pub tenths : ℕ → Float64
  tenths zero = literal64 (pos 1) 1
  tenths (suc k) = mul64 (tenths k) (literal64 (pos 1) 1)

  -- What digits add to `n`, the first of them behind `k` others.
  unfoldable pub fraction_from : Float64 → ℕ → Bytes → Float64
  fraction_from n k [] = n
  fraction_from n k (c ∷ s) =
      fraction_from (add64 n (mul64 (of_byte (c - b'0')) (tenths k))) (suc k) s

  abbrev pub whole_value : Bytes → Float64
  whole_value s = whole_from (literal64 (pos 0) 0) s

  abbrev pub fraction_value : Float64 → Option Bytes → Float64
  fraction_value n none = n
  fraction_value n (some s) = fraction_from n 0 s

  abbrev pub sign : Bool → Float64
  sign true = literal64 (negsuc 0) 0
  sign false = literal64 (pos 1) 0

  abbrev pub decimal_value : Decimal → Float32
  decimal_value d =
      narrow (mul64 (sign d.negative) (fraction_value (whole_value d.whole) d.fraction))

  abbrev pub stamp_value : Stamp → Time
  stamp_value t = date t.year t.month t.day t.hour t.minute t.second

  abbrev pub with_last : Option (Stamp × Decimal) → Request go → Request go
  with_last none r = record r { has_last_transaction = false }
  with_last (some (t, km)) r =
      let l : LastTransaction go = record {
        timestamp = stamp_value t;
        km_from_current = decimal_value km;
      } in
      record r { last_transaction = l; has_last_transaction = true }

  abbrev pub transaction_value : Document → Transaction go
  transaction_value d = record {
    amount = decimal_value d.amount;
    installments = int32_value d.installments;
    requested_at = stamp_value d.requested_at;
  }

  abbrev pub customer_value : Document → Customer go
  customer_value d = record {
    avg_amount = decimal_value d.customer_avg;
    tx_count_24h = int32_value d.tx_count_24h;
    known_merchants = d.known_merchants;
  }

  abbrev pub merchant_value : Document → Merchant go
  merchant_value d = record {
    id = d.merchant_id;
    mcc = d.mcc;
    avg_amount = decimal_value d.merchant_avg;
  }

  abbrev pub terminal_value : Document → Terminal go
  terminal_value d = record {
    is_online = d.is_online;
    card_present = d.card_present;
    km_from_home = decimal_value d.km_from_home;
  }

  -- The request that the document stands for; without a last transaction that of `r` stays.
  abbrev pub document_value : Document → Request go → Request go
  document_value d r =
      let filled : Request go = record r {
        id = d.id;
        transaction = transaction_value d;
        customer = customer_value d;
        merchant = merchant_value d;
        terminal = terminal_value d;
      } in
      with_last d.last_transaction filled
