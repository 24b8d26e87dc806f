-- ===== src/Parse/Grammar.antt =====
-- The language that internal/api/parse_strict.go reads, as a reference parser: recursive descent on
-- the bytes that are left, with no positions, no index and no slice. The step for a digit and
-- `parse_fixed_utc` are those of the parser.
use fraud_detection_api.Base.{
  ℕ, zero, suc, ℤ, pos, signed32, Bool, true, false, List, [], ◌∷◌, ◌++◌, Option, none, some, ◌==◌,
  if◌then◌else◌, Bytes, length,
}
use fraud_detection_api.Maybe.{◌>>=◌}
use fraud_detection_api.Runtime.{Runtime}
use fraud_detection_api.Config.{codes}
use fraud_detection_api.Request.{
  Transaction, Customer, Merchant, Terminal, LastTransaction, Request,
}
use fraud_detection_api.Parse.Cursor.{is_space, is_digit}
use fraud_detection_api.Parse.Number.{next_int32, next_whole, next_fraction, next_scale, sign_of}
use fraud_detection_api.Parse.Time.{parse_fixed_utc}
use fraud_detection_api.Parse.Payload.{
  id_key, transaction_key, amount_key, installments_key, requested_at_key, customer_key,
  avg_amount_key, tx_count_24h_key, known_merchants_key, merchant_key, mcc_key, terminal_key,
  is_online_key, card_present_key, km_from_home_key, last_transaction_key, timestamp_key,
  km_from_current_key,
}

abbrev pub trim : Bytes → Bytes
trim [] = []
trim (c ∷ s) = if is_space c then trim s else c ∷ s

abbrev pub strip_prefix : Bytes → Bytes → Option Bytes
strip_prefix [] s = some s
strip_prefix (x ∷ key) [] = none
strip_prefix (x ∷ key) (c ∷ s) = if c == x then strip_prefix key s else none

-- The given byte at the front.
abbrev pub front : ℕ → Bytes → Option Bytes
front want [] = none
front want (c ∷ s) = if c == want then some s else none

abbrev pub starts : ℕ → Bytes → Bool
starts want [] = false
starts want (c ∷ s) = c == want

abbrev pub starts_digit : Bytes → Bool
starts_digit [] = false
starts_digit (c ∷ s) = is_digit c

unfoldable pub byte : ℕ → Bytes → Option Bytes
byte want s = do r ← front want (trim s); some (trim r)

unfoldable pub key : Bytes → Bytes → Option Bytes
key name s = do r ← strip_prefix name (trim s); t ← front b':' (trim r); some (trim t)

-- The text up to the closing quote, and what follows the quote.
unfoldable pub quoted : Bytes → Option (Bytes × Bytes)
quoted [] = none
quoted (c ∷ s) =
    let rest = (do (t, r) ← quoted s; some (c ∷ t, r)) in
    if c == b'\\' then none else if c == b'"' then some ([], s) else rest

unfoldable pub text : Bytes → Option (Bytes × Bytes)
text s = do r ← front b'"' (trim s); (t, u) ← quoted r; some (t, trim u)

-- Behind an item: a comma and the items that `again` reads, or the end.
abbrev pub next_item :
    (Bytes → Option (List Bytes × Bytes)) → List Bytes → Bytes → Option (List Bytes × Bytes)
next_item again dst [] = none
next_item again dst (d ∷ s) =
    let rest = again s in if d == b',' then rest else if d == b']' then some (dst, trim s) else none

-- The items of an array, in at most `k` rounds.
unfoldable pub items : ℕ → List Bytes → Bytes → Option (List Bytes × Bytes)
items zero dst s = none
items (suc k) dst s = elim (trim s) [
  | [] ↦ none
  | c ∷ r ↦
      if c == b']'
      then some (dst, trim r)
      else (do (t, u) ← text (c ∷ r); next_item (items k (dst ++ t ∷ [])) (dst ++ t ∷ []) (trim u))
]

unfoldable pub array : Bytes → Option (List Bytes × Bytes)
array s = do r ← front b'[' (trim s); items (suc (length r)) [] r

unfoldable pub truth : Bytes → Option (Bool × Bytes)
truth s = elim (strip_prefix (codes "true") (trim s)) [
  | some r ↦ some (true, trim r)
  | none ↦ (do r ← strip_prefix (codes "false") (trim s); some (false, trim r))
]

-- Digits folded by `next` from the left, and what follows them.
unfoldable pub digits {ℓ} : {A : Type ℓ} → (A → ℕ → A) → A → Bytes → A × Bytes
digits next n [] = (n, [])
digits next n (c ∷ s) =
    let rest = digits next (next n c) s in if is_digit c then rest else (n, c ∷ s)

unfoldable pub integer : Bytes → Option (ℤ × Bytes)
integer s =
    let (n, r) = digits next_int32 0 (trim s) in
    if starts_digit (trim s) then some (signed32 n, trim r) else none

module _ (go : Runtime) where
  open go use {Float32, Float64, Time, literal64, narrow, mul64}

  -- A fraction carries its value and the weight of the next digit.
  abbrev pub next_fraction_digit : Float64 × Float64 → ℕ → Float64 × Float64
  next_fraction_digit (n, scale) c = (next_fraction go n scale c, next_scale go scale)

  -- The fraction, if a point follows the integral part `n`.
  unfoldable pub fraction : Float64 → Bytes → Float64 × Bytes
  fraction n [] = (n, [])
  fraction n (c ∷ s) =
      let (m, r) = digits next_fraction_digit (n, literal64 (pos 1) 1) s in
      if c == b'.' then (m.0, r) else (n, c ∷ s)

  -- Behind the sign.
  unfoldable pub unsigned : Bytes → Option (Float64 × Bytes)
  unfolding fraction
  unsigned s =
      let (n, r) = digits (next_whole go) (literal64 (pos 0) 0) s in
      if starts_digit s then some (fraction n r) else none

  abbrev pub minus : Bytes → Bool × Bytes
  minus [] = (false, [])
  minus (c ∷ s) = if c == b'-' then (true, s) else (false, c ∷ s)

  unfoldable pub float : Bytes → Option (Float32 × Bytes)
  unfolding unsigned
  float s =
      let (negative, t) = minus (trim s) in
      do (m, r) ← unsigned t; some (narrow (mul64 (sign_of go negative) m), trim r)

  unfoldable pub instant : Bytes → Option (Time × Bytes)
  instant s = do (t, r) ← text s; u ← parse_fixed_utc go t; some (u, r)

  unfoldable pub transaction_object : Request go → Bytes → Option (Request go × Bytes)
  transaction_object r s = do
    s ← key transaction_key s
    s ← byte b'{' s
    s ← key amount_key s
    (amount, s) ← float s
    s ← byte b',' s
    s ← key installments_key s
    (installments, s) ← integer s
    s ← byte b',' s
    s ← key requested_at_key s
    (requested_at, s) ← instant s
    s ← byte b'}' s
    let t : Transaction go = record {
      amount = amount;
      installments = installments;
      requested_at = requested_at;
    }
    some (record r { transaction = t }, s)

  unfoldable pub customer_object : Request go → Bytes → Option (Request go × Bytes)
  customer_object r s = do
    s ← key customer_key s
    s ← byte b'{' s
    s ← key avg_amount_key s
    (avg_amount, s) ← float s
    s ← byte b',' s
    s ← key tx_count_24h_key s
    (tx_count_24h, s) ← integer s
    s ← byte b',' s
    s ← key known_merchants_key s
    (known_merchants, s) ← array s
    s ← byte b'}' s
    let c : Customer go = record {
      avg_amount = avg_amount;
      tx_count_24h = tx_count_24h;
      known_merchants = known_merchants;
    }
    some (record r { customer = c }, s)

  unfoldable pub merchant_object : Request go → Bytes → Option (Request go × Bytes)
  merchant_object r s = do
    s ← key merchant_key s
    s ← byte b'{' s
    s ← key id_key s
    (id, s) ← text s
    s ← byte b',' s
    s ← key mcc_key s
    (mcc, s) ← text s
    s ← byte b',' s
    s ← key avg_amount_key s
    (avg_amount, s) ← float s
    s ← byte b'}' s
    let m : Merchant go = record { id = id; mcc = mcc; avg_amount = avg_amount }
    some (record r { merchant = m }, s)

  unfoldable pub terminal_object : Request go → Bytes → Option (Request go × Bytes)
  terminal_object r s = do
    s ← key terminal_key s
    s ← byte b'{' s
    s ← key is_online_key s
    (is_online, s) ← truth s
    s ← byte b',' s
    s ← key card_present_key s
    (card_present, s) ← truth s
    s ← byte b',' s
    s ← key km_from_home_key s
    (km_from_home, s) ← float s
    s ← byte b'}' s
    let t : Terminal go = record {
      is_online = is_online;
      card_present = card_present;
      km_from_home = km_from_home;
    }
    some (record r { terminal = t }, s)

  -- The object behind `"last_transaction":`, from its opening brace.
  unfoldable pub last_object : Request go → Bytes → Option (Request go × Bytes)
  last_object r s = do
    s ← byte b'{' s
    s ← key timestamp_key s
    (timestamp, s) ← instant s
    s ← byte b',' s
    s ← key km_from_current_key s
    (km_from_current, s) ← float s
    s ← byte b'}' s
    let l : LastTransaction go = record { timestamp = timestamp; km_from_current = km_from_current }
    some (record r { last_transaction = l; has_last_transaction = true }, s)

  -- A null, if that is what `null` found, or else the object in `s`.
  abbrev pub last_value : Request go → Bytes → Option Bytes → Option (Request go × Bytes)
  last_value r s (some t) = some (record r { has_last_transaction = false }, t)
  last_value r s none = last_object r s

  unfoldable pub last_member : Request go → Bytes → Option (Request go × Bytes)
  last_member r s = do
    s ← key last_transaction_key s
    last_value r (trim s) (strip_prefix (codes "null") (trim s))

  unfoldable pub payload : Request go → Bytes → Option (Request go)
  payload r s = do
    s ← byte b'{' (trim s)
    s ← key id_key s
    (id, s) ← text s
    s ← byte b',' s
    (r, s) ← transaction_object (record r { id = id }) s
    s ← byte b',' s
    (r, s) ← customer_object r s
    s ← byte b',' s
    (r, s) ← merchant_object r s
    s ← byte b',' s
    (r, s) ← terminal_object r s
    s ← byte b',' s
    (r, s) ← last_member r s
    s ← byte b'}' s
    some r
