-- ===== src/Parse/Payload.antt =====
-- internal/api/parse_strict.go: `parseStrictRequest`, one function for each object of the payload.
-- Each returns the request with the fields that it read, and the position behind the object.
-- After an error Go leaves the fields read so far in the pooled request; the caller drops them.
use fraud_detection_api.Base.{ℕ, ◌+◌, true, false, [], if◌then◌else◌, Bytes}
use fraud_detection_api.Run.{Run, ok, ◌>>=◌}
use fraud_detection_api.Runtime.{Runtime}
use fraud_detection_api.Config.{codes}
use fraud_detection_api.Request.{
  Transaction, Customer, Merchant, Terminal, LastTransaction, Request,
}
use fraud_detection_api.Parse.Cursor.{
  skip_spaces, has_prefix, slice_from, expect_byte, expect_comma, expect_key_at, read_string_at,
  read_string_array_at, read_bool_at,
}
use fraud_detection_api.Parse.Number.{read_int32_at, read_float32_at}
use fraud_detection_api.Parse.Time.{read_time_at}

-- A key with its quotes, as in `"id"`.
abbrev pub id_key : Bytes
id_key = codes "\"id\""

abbrev pub transaction_key : Bytes
transaction_key = codes "\"transaction\""

abbrev pub amount_key : Bytes
amount_key = codes "\"amount\""

abbrev pub installments_key : Bytes
installments_key = codes "\"installments\""

abbrev pub requested_at_key : Bytes
requested_at_key = codes "\"requested_at\""

abbrev pub customer_key : Bytes
customer_key = codes "\"customer\""

abbrev pub avg_amount_key : Bytes
avg_amount_key = codes "\"avg_amount\""

abbrev pub tx_count_24h_key : Bytes
tx_count_24h_key = codes "\"tx_count_24h\""

abbrev pub known_merchants_key : Bytes
known_merchants_key = codes "\"known_merchants\""

abbrev pub merchant_key : Bytes
merchant_key = codes "\"merchant\""

abbrev pub mcc_key : Bytes
mcc_key = codes "\"mcc\""

abbrev pub terminal_key : Bytes
terminal_key = codes "\"terminal\""

abbrev pub is_online_key : Bytes
is_online_key = codes "\"is_online\""

abbrev pub card_present_key : Bytes
card_present_key = codes "\"card_present\""

abbrev pub km_from_home_key : Bytes
km_from_home_key = codes "\"km_from_home\""

abbrev pub last_transaction_key : Bytes
last_transaction_key = codes "\"last_transaction\""

abbrev pub timestamp_key : Bytes
timestamp_key = codes "\"timestamp\""

abbrev pub km_from_current_key : Bytes
km_from_current_key = codes "\"km_from_current\""

module _ (go : Runtime) where
  unfoldable pub read_transaction : Bytes → ℕ → Request go → Run (Request go × ℕ)
  read_transaction body p r = do
    p ← expect_key_at body p transaction_key
    p ← expect_byte body p b'{'
    p ← expect_key_at body p amount_key
    (amount, p) ← read_float32_at go body p
    p ← expect_comma body p
    p ← expect_key_at body p installments_key
    (installments, p) ← read_int32_at body p
    p ← expect_comma body p
    p ← expect_key_at body p requested_at_key
    (requested_at, p) ← read_time_at go body p
    p ← expect_byte body p b'}'
    let t : Transaction go = record {
      amount = amount;
      installments = installments;
      requested_at = requested_at;
    }
    ok (record r { transaction = t }, p)

  unfoldable pub read_customer : Bytes → ℕ → Request go → Run (Request go × ℕ)
  read_customer body p r = do
    p ← expect_key_at body p customer_key
    p ← expect_byte body p b'{'
    p ← expect_key_at body p avg_amount_key
    (avg_amount, p) ← read_float32_at go body p
    p ← expect_comma body p
    p ← expect_key_at body p tx_count_24h_key
    (tx_count_24h, p) ← read_int32_at body p
    p ← expect_comma body p
    p ← expect_key_at body p known_merchants_key
    (known_merchants, p) ← read_string_array_at body p []
    p ← expect_byte body p b'}'
    let c : Customer go = record {
      avg_amount = avg_amount;
      tx_count_24h = tx_count_24h;
      known_merchants = known_merchants;
    }
    ok (record r { customer = c }, p)

  unfoldable pub read_merchant : Bytes → ℕ → Request go → Run (Request go × ℕ)
  read_merchant body p r = do
    p ← expect_key_at body p merchant_key
    p ← expect_byte body p b'{'
    p ← expect_key_at body p id_key
    (id, p) ← read_string_at body p
    p ← expect_comma body p
    p ← expect_key_at body p mcc_key
    (mcc, p) ← read_string_at body p
    p ← expect_comma body p
    p ← expect_key_at body p avg_amount_key
    (avg_amount, p) ← read_float32_at go body p
    p ← expect_byte body p b'}'
    let m : Merchant go = record { id = id; mcc = mcc; avg_amount = avg_amount }
    ok (record r { merchant = m }, p)

  unfoldable pub read_terminal : Bytes → ℕ → Request go → Run (Request go × ℕ)
  read_terminal body p r = do
    p ← expect_key_at body p terminal_key
    p ← expect_byte body p b'{'
    p ← expect_key_at body p is_online_key
    (is_online, p) ← read_bool_at body p
    p ← expect_comma body p
    p ← expect_key_at body p card_present_key
    (card_present, p) ← read_bool_at body p
    p ← expect_comma body p
    p ← expect_key_at body p km_from_home_key
    (km_from_home, p) ← read_float32_at go body p
    p ← expect_byte body p b'}'
    let t : Terminal go = record {
      is_online = is_online;
      card_present = card_present;
      km_from_home = km_from_home;
    }
    ok (record r { terminal = t }, p)

  -- The object behind `"last_transaction":`, from its opening brace.
  unfoldable pub read_last_object : Bytes → ℕ → Request go → Run (Request go × ℕ)
  read_last_object body p r = do
    p ← expect_byte body p b'{'
    p ← expect_key_at body p timestamp_key
    (timestamp, p) ← read_time_at go body p
    p ← expect_comma body p
    p ← expect_key_at body p km_from_current_key
    (km_from_current, p) ← read_float32_at go body p
    p ← expect_byte body p b'}'
    let l : LastTransaction go = record { timestamp = timestamp; km_from_current = km_from_current }
    ok (record r { last_transaction = l; has_last_transaction = true }, p)

  unfoldable pub read_last_transaction : Bytes → ℕ → Request go → Run (Request go × ℕ)
  read_last_transaction body p r = do
    p ← expect_key_at body p last_transaction_key
    let q = skip_spaces body p
    tail ← slice_from body q
    if has_prefix tail (codes "null")
        then ok (record r { has_last_transaction = false }, q + 4)
        else read_last_object body q r

  unfoldable pub parse_strict_request : Bytes → Request go → Run (Request go)
  parse_strict_request body r = do
    p ← expect_byte body (skip_spaces body 0) b'{'
    p ← expect_key_at body p id_key
    (id, p) ← read_string_at body p
    p ← expect_comma body p
    (r, p) ← read_transaction body p (record r { id = id })
    p ← expect_comma body p
    (r, p) ← read_customer body p r
    p ← expect_comma body p
    (r, p) ← read_merchant body p r
    p ← expect_comma body p
    (r, p) ← read_terminal body p r
    p ← expect_comma body p
    (r, p) ← read_last_transaction body p r
    p ← expect_byte body p b'}'
    ok r
