-- ===== src/Parse/Document/Text.antt =====
-- The bytes of a document: each token behind its own white space, `g k` before the k-th token.
use fraud_detection_api.Base.{
  ℕ, ◌+◌, ◌/◌, ◌%◌, Bool, List, [], ◌∷◌, ◌++◌, Option, none, some, if◌then◌else◌, Bytes,
}
use fraud_detection_api.Config.{codes}
use fraud_detection_api.Parse.Payload.{
  id_key, transaction_key, amount_key, installments_key, requested_at_key, customer_key,
  avg_amount_key, tx_count_24h_key, known_merchants_key, merchant_key, mcc_key, terminal_key,
  is_online_key, card_present_key, km_from_home_key, last_transaction_key, timestamp_key,
  km_from_current_key,
}
use fraud_detection_api.Parse.Document.{
  Space, blank_space, line_feed, carriage_return, tab, Decimal, Stamp, Document,
}

unfoldable pub blank : List Space → Bytes
blank [] = []
blank (blank_space ∷ w) = b' ' ∷ blank w
blank (line_feed ∷ w) = b'\n' ∷ blank w
blank (carriage_return ∷ w) = b'\r' ∷ blank w
blank (tab ∷ w) = b'\t' ∷ blank w

-- Each piece stands in front of what follows it.
abbrev pub chain : List (Bytes → Bytes) → Bytes → Bytes
chain [] rest = rest
chain (f ∷ fs) rest = f (chain fs rest)

abbrev pub word : List Space → Bytes → Bytes → Bytes
word w t rest = blank w ++ (t ++ rest)

abbrev pub mark : List Space → ℕ → Bytes → Bytes
mark w c rest = blank w ++ (c ∷ rest)

abbrev pub quote : List Space → Bytes → Bytes → Bytes
quote w t rest = blank w ++ (b'"' ∷ (t ++ (b'"' ∷ rest)))

abbrev pub point : Option Bytes → Bytes → Bytes
point none rest = rest
point (some s) rest = b'.' ∷ (s ++ rest)

abbrev pub unsigned_text : Decimal → Bytes → Bytes
unsigned_text d rest = d.whole ++ point d.fraction rest

abbrev pub decimal : List Space → Decimal → Bytes → Bytes
decimal w d rest =
    blank w ++ (if d.negative then b'-' ∷ unsigned_text d rest else unsigned_text d rest)

abbrev pub digit : ℕ → ℕ
digit n = b'0' + n % 10

abbrev pub stamp_text : Stamp → Bytes
stamp_text t =
    digit (t.year / 1000)
    ∷ digit (t.year / 100)
    ∷ digit (t.year / 10)
    ∷ digit t.year
    ∷ b'-'
    ∷ digit (t.month / 10)
    ∷ digit t.month
    ∷ b'-'
    ∷ digit (t.day / 10)
    ∷ digit t.day
    ∷ b'T'
    ∷ digit (t.hour / 10)
    ∷ digit t.hour
    ∷ b':'
    ∷ digit (t.minute / 10)
    ∷ digit t.minute
    ∷ b':'
    ∷ digit (t.second / 10)
    ∷ digit t.second
    ∷ b'Z'
    ∷ []

abbrev pub truth_text : Bool → Bytes
truth_text b = if b then codes "true" else codes "false"

-- The items and the closing bracket, with the white space `w` before each token.
unfoldable pub items_text : List Space → List Bytes → Bytes → Bytes
items_text w [] rest = mark w b']' rest
items_text w (t ∷ []) rest = quote w t (mark w b']' rest)
items_text w (t ∷ u ∷ ts) rest = quote w t (mark w b',' (items_text w (u ∷ ts) rest))

unfoldable pub transaction_text : (ℕ → List Space) → Document → Bytes → Bytes
transaction_text g d = chain (
    word (g 0) transaction_key
    ∷ mark (g 1) b':'
    ∷ mark (g 2) b'{'
    ∷ word (g 3) amount_key
    ∷ mark (g 4) b':'
    ∷ decimal (g 5) d.amount
    ∷ mark (g 6) b','
    ∷ word (g 7) installments_key
    ∷ mark (g 8) b':'
    ∷ word (g 9) d.installments
    ∷ mark (g 10) b','
    ∷ word (g 11) requested_at_key
    ∷ mark (g 12) b':'
    ∷ quote (g 13) (stamp_text d.requested_at)
    ∷ mark (g 14) b'}'
    ∷ [])

unfoldable pub customer_text : (ℕ → List Space) → Document → Bytes → Bytes
customer_text g d = chain (
    word (g 15) customer_key
    ∷ mark (g 16) b':'
    ∷ mark (g 17) b'{'
    ∷ word (g 18) avg_amount_key
    ∷ mark (g 19) b':'
    ∷ decimal (g 20) d.customer_avg
    ∷ mark (g 21) b','
    ∷ word (g 22) tx_count_24h_key
    ∷ mark (g 23) b':'
    ∷ word (g 24) d.tx_count_24h
    ∷ mark (g 25) b','
    ∷ word (g 26) known_merchants_key
    ∷ mark (g 27) b':'
    ∷ mark (g 28) b'['
    ∷ items_text (g 29) d.known_merchants
    ∷ mark (g 30) b'}'
    ∷ [])

unfoldable pub merchant_text : (ℕ → List Space) → Document → Bytes → Bytes
merchant_text g d = chain (
    word (g 31) merchant_key
    ∷ mark (g 32) b':'
    ∷ mark (g 33) b'{'
    ∷ word (g 34) id_key
    ∷ mark (g 35) b':'
    ∷ quote (g 36) d.merchant_id
    ∷ mark (g 37) b','
    ∷ word (g 38) mcc_key
    ∷ mark (g 39) b':'
    ∷ quote (g 40) d.mcc
    ∷ mark (g 41) b','
    ∷ word (g 42) avg_amount_key
    ∷ mark (g 43) b':'
    ∷ decimal (g 44) d.merchant_avg
    ∷ mark (g 45) b'}'
    ∷ [])

unfoldable pub terminal_text : (ℕ → List Space) → Document → Bytes → Bytes
terminal_text g d = chain (
    word (g 46) terminal_key
    ∷ mark (g 47) b':'
    ∷ mark (g 48) b'{'
    ∷ word (g 49) is_online_key
    ∷ mark (g 50) b':'
    ∷ word (g 51) (truth_text d.is_online)
    ∷ mark (g 52) b','
    ∷ word (g 53) card_present_key
    ∷ mark (g 54) b':'
    ∷ word (g 55) (truth_text d.card_present)
    ∷ mark (g 56) b','
    ∷ word (g 57) km_from_home_key
    ∷ mark (g 58) b':'
    ∷ decimal (g 59) d.km_from_home
    ∷ mark (g 60) b'}'
    ∷ [])

unfoldable pub last_text : (ℕ → List Space) → Option (Stamp × Decimal) → Bytes → Bytes
last_text g none = word (g 61) (codes "null")
last_text g (some (t, km)) = chain (
    mark (g 62) b'{'
    ∷ word (g 63) timestamp_key
    ∷ mark (g 64) b':'
    ∷ quote (g 65) (stamp_text t)
    ∷ mark (g 66) b','
    ∷ word (g 67) km_from_current_key
    ∷ mark (g 68) b':'
    ∷ decimal (g 69) km
    ∷ mark (g 70) b'}'
    ∷ [])

-- The payload, and whatever follows it in the body.
unfoldable pub document_text : (ℕ → List Space) → Document → Bytes → Bytes
document_text g d = chain (
    mark (g 71) b'{'
    ∷ word (g 72) id_key
    ∷ mark (g 73) b':'
    ∷ quote (g 74) d.id
    ∷ mark (g 75) b','
    ∷ transaction_text g d
    ∷ mark (g 76) b','
    ∷ customer_text g d
    ∷ mark (g 77) b','
    ∷ merchant_text g d
    ∷ mark (g 78) b','
    ∷ terminal_text g d
    ∷ mark (g 79) b','
    ∷ word (g 80) last_transaction_key
    ∷ mark (g 81) b':'
    ∷ last_text g d.last_transaction
    ∷ mark (g 82) b'}'
    ∷ [])
