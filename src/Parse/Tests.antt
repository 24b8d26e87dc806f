-- ===== src/Parse/Tests.antt =====
-- The parser's theorems at a payload of docs/API.md, over exact fractions.
use fraud_detection_api.Base.{Bytes, pos, ℕ, ◌≡◌, refl, true, false, some, List, [], ◌∷◌, arith}
use fraud_detection_api.Config.{codes}
use fraud_detection_api.Exact.{exact}
use fraud_detection_api.Parse.Accepted.{parse_fixed_utc-accepts}
use fraud_detection_api.Parse.Cursor.{skip_spaces, expect_byte, expect_key_at, read_string_at}
use fraud_detection_api.Parse.Document.{
  Space, blank_space, line_feed, tab, Decimal, Stamp, Document, DecimalOk, DocumentOk,
}
use fraud_detection_api.Parse.Document.Meaning.{number, stamp_value, document_value}
use fraud_detection_api.Parse.Document.Text.{blank, decimal, stamp_text, document_text}
use fraud_detection_api.Parse.Exactness.{IsWritten, read_float32_at-IsWritten}
use fraud_detection_api.Parse.Grammar.{payload}
use fraud_detection_api.Parse.Number.{int32_loop, read_int32_at, read_float32_at}
use fraud_detection_api.Parse.Payload.{parse_strict_request}
use fraud_detection_api.Parse.Position.{At}
use fraud_detection_api.Parse.Refinement.{parse_strict_request-checked}
use fraud_detection_api.Parse.RoundTrip.{parse_strict_request-document_text}
use fraud_detection_api.Parse.Stamps.{Written, accepts, parse_fixed_utc-stamp_text}
use fraud_detection_api.Parse.Time.{checked, parse_fixed_utc}
use fraud_detection_api.Request.{zero_request}
use fraud_detection_api.Run.{Returns, err, ok}

abbrev amount : Bytes → Decimal
amount whole = record { negative = false; whole = whole; fraction = some (codes "12") }

abbrev noon : Stamp
noon = record { year = 2026; month = 3; day = 11; hour = 12; minute = 0; second = 59 }

abbrev sample : Document
sample = record {
  id = codes "tx-1";
  amount = amount (codes "41");
  installments = codes "2";
  requested_at = noon;
  customer_avg = amount (codes "82");
  tx_count_24h = codes "3";
  known_merchants = codes "M-1" ∷ codes "M-2" ∷ [];
  merchant_id = codes "M-2";
  mcc = codes "5411";
  merchant_avg = amount (codes "60");
  is_online = false;
  card_present = true;
  km_from_home = amount (codes "29");
  last_transaction = some (noon, amount (codes "18"));
}

abbrev gaps : ℕ → List Space
gaps _ = blank_space ∷ line_feed ∷ []

noon-Written : Written noon
noon-Written = record {
  year_lt = omega arith;
  month_lt = omega arith;
  day_lt = omega arith;
  hour_lt = omega arith;
  minute_lt = omega arith;
  second_lt = omega arith;
}

sample-DocumentOk : DocumentOk sample
sample-DocumentOk = ground arith

parse_fixed_utc-stamp_text_example :
    parse_fixed_utc exact (stamp_text noon) ≡ some (stamp_value exact noon)
parse_fixed_utc-stamp_text_example = parse_fixed_utc-stamp_text exact noon noon-Written

parse_fixed_utc-accepts_example :
    (t : Stamp) × Written t
    × (accepts t ≡ true)
    × (stamp_text noon ≡ stamp_text t)
    × (stamp_value exact noon ≡ stamp_value exact t)
parse_fixed_utc-accepts_example =
    parse_fixed_utc-accepts exact (stamp_text noon) (stamp_value exact noon)
      (parse_fixed_utc-stamp_text exact noon noon-Written)

abbrev below_zero : Decimal
below_zero = record { negative = true; whole = codes "07"; fraction = some (codes "250") }

abbrev below_zero_text : Bytes
below_zero_text = decimal (tab ∷ []) below_zero (codes " ,")

below_zero-DecimalOk : DecimalOk below_zero
below_zero-DecimalOk = ground arith

read_float32_at-IsWritten_example :
    Returns
      (λ (x, q). IsWritten below_zero x × At below_zero_text q (codes ","))
      (read_float32_at exact below_zero_text 0)
unfolding blank
read_float32_at-IsWritten_example =
    read_float32_at-IsWritten below_zero_text 0 (tab ∷ []) below_zero (codes " ,")
      (record { within = omega arith; left = refl }) below_zero-DecimalOk (refl, refl)

parse_strict_request-document_text_example :
    parse_strict_request exact (document_text gaps sample (codes "tail")) (zero_request exact)
    ≡ ok (document_value exact sample (zero_request exact))
parse_strict_request-document_text_example =
    parse_strict_request-document_text exact gaps sample (zero_request exact) (codes "tail")
      sample-DocumentOk

parse_strict_request-checked_example :
    parse_strict_request exact (codes "{\"id\": 7}") (zero_request exact)
    ≡ checked (payload exact (zero_request exact) (codes "{\"id\": 7}"))
parse_strict_request-checked_example =
    parse_strict_request-checked exact (codes "{\"id\": 7}") (zero_request exact)

leading_zero : number (codes "0412") ≡ 412
unfolding number
leading_zero = refl

-- No number is expected where a string stands.
bad_id : parse_strict_request exact (codes "{\"id\": 7}") (zero_request exact) ≡ err
unfolding parse_strict_request expect_byte expect_key_at read_string_at
bad_id = refl

-- `readInt32At` wraps around: 2 ^ 32 + 1 is read as 1.
wraps_around : read_int32_at (codes "4294967297") 0 ≡ ok (pos 1, 10)
unfolding read_int32_at skip_spaces int32_loop
wraps_around = refl
