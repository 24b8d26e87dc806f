-- ===== src/Parse/Refinement.antt =====
-- Each object of the payload, and the whole payload, against the reference.
use fraud_detection_api.Base.{ℕ, ◌≡◌, refl, ap, Option, Bytes, inl, inr, arith}
use fraud_detection_api.Run.{Run, ok}
use fraud_detection_api.Follows.{Follows, gives, refuses, Follows-bind}
use fraud_detection_api.Runtime.{Runtime}
use fraud_detection_api.Config.{codes}
use fraud_detection_api.Request.{Request}
use fraud_detection_api.Parse.Payload.{
  id_key, transaction_key, amount_key, installments_key, requested_at_key, customer_key,
  avg_amount_key, tx_count_24h_key, known_merchants_key, merchant_key, mcc_key, terminal_key,
  is_online_key, card_present_key, km_from_home_key, last_transaction_key, timestamp_key,
  km_from_current_key, read_transaction, read_customer, read_merchant, read_terminal,
  read_last_object, read_last_transaction, parse_strict_request,
}
use fraud_detection_api.Parse.Time.{checked}
use fraud_detection_api.Parse.Grammar.{
  trim, transaction_object, customer_object, merchant_object, terminal_object, last_object,
  last_member, payload,
}
use fraud_detection_api.Parse.Position.{
  At, At-add, skip_spaces-At, slice_from-At, prefix_loop-strip_prefix, has_prefix-prefix_loop,
  expect_byte-byte, expect_comma-byte, expect_key_at-key,
}
use fraud_detection_api.Parse.Values.{
  Reads, read_string_at-text, read_string_array_at-array, read_bool_at-truth, read_int32_at-integer,
  read_float32_at-float, read_time_at-instant,
}

module _ (go : Runtime) where
  read_transaction-transaction_object :
      {body : Bytes} {p : ℕ} {s : Bytes} (r : Request go)
      → At body p s
      → Follows (Reads body) (read_transaction go body p r) (transaction_object go r s)
  unfolding read_transaction transaction_object
  read_transaction-transaction_object r a =
      Follows-bind (expect_key_at-key transaction_key a) λ p s a.
        Follows-bind (expect_byte-byte b'{' a) λ p s a.
          Follows-bind (expect_key_at-key amount_key a) λ p s a.
            Follows-bind (read_float32_at-float go a) λ (x1, p) (y1, s) (e1, a).
              Follows-bind (expect_comma-byte a) λ p s a.
                Follows-bind (expect_key_at-key installments_key a) λ p s a.
                  Follows-bind (read_int32_at-integer a) λ (x2, p) (y2, s) (e2, a).
                    Follows-bind (expect_comma-byte a) λ p s a.
                      Follows-bind (expect_key_at-key requested_at_key a) λ p s a.
                        Follows-bind (read_time_at-instant go a) λ (x3, p) (y3, s) (e3, a).
                          Follows-bind (expect_byte-byte b'}' a) λ p s a. gives (cc, a)

  read_customer-customer_object :
      {body : Bytes} {p : ℕ} {s : Bytes} (r : Request go)
      → At body p s
      → Follows (Reads body) (read_customer go body p r) (customer_object go r s)
  unfolding read_customer customer_object
  read_customer-customer_object r a = Follows-bind (expect_key_at-key customer_key a) λ p s a.
      Follows-bind (expect_byte-byte b'{' a) λ p s a.
        Follows-bind (expect_key_at-key avg_amount_key a) λ p s a.
          Follows-bind (read_float32_at-float go a) λ (x1, p) (y1, s) (e1, a).
            Follows-bind (expect_comma-byte a) λ p s a.
              Follows-bind (expect_key_at-key tx_count_24h_key a) λ p s a.
                Follows-bind (read_int32_at-integer a) λ (x2, p) (y2, s) (e2, a).
                  Follows-bind (expect_comma-byte a) λ p s a.
                    Follows-bind (expect_key_at-key known_merchants_key a) λ p s a.
                      Follows-bind (read_string_array_at-array a) λ (x3, p) (y3, s) (e3, a).
                        Follows-bind (expect_byte-byte b'}' a) λ p s a. gives (cc, a)

  read_merchant-merchant_object :
      {body : Bytes} {p : ℕ} {s : Bytes} (r : Request go)
      → At body p s
      → Follows (Reads body) (read_merchant go body p r) (merchant_object go r s)
  unfolding read_merchant merchant_object
  read_merchant-merchant_object r a = Follows-bind (expect_key_at-key merchant_key a) λ p s a.
      Follows-bind (expect_byte-byte b'{' a) λ p s a.
        Follows-bind (expect_key_at-key id_key a) λ p s a.
          Follows-bind (read_string_at-text a) λ (x1, p) (y1, s) (e1, a).
            Follows-bind (expect_comma-byte a) λ p s a.
              Follows-bind (expect_key_at-key mcc_key a) λ p s a.
                Follows-bind (read_string_at-text a) λ (x2, p) (y2, s) (e2, a).
                  Follows-bind (expect_comma-byte a) λ p s a.
                    Follows-bind (expect_key_at-key avg_amount_key a) λ p s a.
                      Follows-bind (read_float32_at-float go a) λ (x3, p) (y3, s) (e3, a).
                        Follows-bind (expect_byte-byte b'}' a) λ p s a. gives (cc, a)

  read_terminal-terminal_object :
      {body : Bytes} {p : ℕ} {s : Bytes} (r : Request go)
      → At body p s
      → Follows (Reads body) (read_terminal go body p r) (terminal_object go r s)
  unfolding read_terminal terminal_object
  read_terminal-terminal_object r a = Follows-bind (expect_key_at-key terminal_key a) λ p s a.
      Follows-bind (expect_byte-byte b'{' a) λ p s a.
        Follows-bind (expect_key_at-key is_online_key a) λ p s a.
          Follows-bind (read_bool_at-truth a) λ (x1, p) (y1, s) (e1, a).
            Follows-bind (expect_comma-byte a) λ p s a.
              Follows-bind (expect_key_at-key card_present_key a) λ p s a.
                Follows-bind (read_bool_at-truth a) λ (x2, p) (y2, s) (e2, a).
                  Follows-bind (expect_comma-byte a) λ p s a.
                    Follows-bind (expect_key_at-key km_from_home_key a) λ p s a.
                      Follows-bind (read_float32_at-float go a) λ (x3, p) (y3, s) (e3, a).
                        Follows-bind (expect_byte-byte b'}' a) λ p s a. gives (cc, a)

  read_last_object-last_object :
      {body : Bytes} {p : ℕ} {s : Bytes} (r : Request go)
      → At body p s
      → Follows (Reads body) (read_last_object go body p r) (last_object go r s)
  unfolding read_last_object last_object
  read_last_object-last_object r a = Follows-bind (expect_byte-byte b'{' a) λ p s a.
      Follows-bind (expect_key_at-key timestamp_key a) λ p s a.
        Follows-bind (read_time_at-instant go a) λ (x1, p) (y1, s) (e1, a).
          Follows-bind (expect_comma-byte a) λ p s a.
            Follows-bind (expect_key_at-key km_from_current_key a) λ p s a.
              Follows-bind (read_float32_at-float go a) λ (x2, p) (y2, s) (e2, a).
                Follows-bind (expect_byte-byte b'}' a) λ p s a. gives (cc, a)

  read_last_transaction-last_member :
      {body : Bytes} {p : ℕ} {s : Bytes} (r : Request go)
      → At body p s
      → Follows (Reads body) (read_last_transaction go body p r) (last_member go r s)
  unfolding read_last_transaction last_member
  read_last_transaction-last_member r a =
      Follows-bind (expect_key_at-key last_transaction_key a) λ p s a.
        let b = skip_spaces-At a in
        rw (slice_from-At b, has_prefix-prefix_loop)
          (elim (prefix_loop-strip_prefix (codes "null") (trim s)) [
            | inr (t, f, g, l, d) ↦ rw (f, g) (gives (refl, At-add 4 b l d))
            | inl (f, g) ↦ rw (f, g) (read_last_object-last_object r b)
          ])

  parse_strict_request-payload :
      (body : Bytes) (r : Request go)
      → Follows ◌≡◌ (parse_strict_request go body r) (payload go r body)
  unfolding parse_strict_request payload
  parse_strict_request-payload body r =
      let start : At body 0 body = record { within = omega arith; left = refl } in
      Follows-bind (expect_byte-byte b'{' (skip_spaces-At start)) λ p s a.
        Follows-bind (expect_key_at-key id_key a) λ p s a.
          Follows-bind (read_string_at-text a) λ (x, p) (y, s) (e, a).
            Follows-bind (expect_comma-byte a) λ p s a. rw e (
              Follows-bind (read_transaction-transaction_object (record r { id = y }) a)
                λ (x, p) (y, s) (e, a). Follows-bind (expect_comma-byte a) λ p s a. rw e (
                  Follows-bind (read_customer-customer_object y a) λ (x, p) (y, s) (e, a).
                    Follows-bind (expect_comma-byte a) λ p s a. rw e (
                      Follows-bind (read_merchant-merchant_object y a) λ (x, p) (y, s) (e, a).
                        Follows-bind (expect_comma-byte a) λ p s a. rw e (
                          Follows-bind (read_terminal-terminal_object y a) λ (x, p) (y, s) (e, a).
                            Follows-bind (expect_comma-byte a) λ p s a. rw e (
                              Follows-bind (read_last_transaction-last_member y a)
                                λ (x, p) (y, s) (e, a).
                                  Follows-bind (expect_byte-byte b'}' a) λ p s a. gives e)))))

  -- The parser is the reference parser, for every body: it accepts the same bodies with the same
  -- request, and refuses all others with an error. It never panics, and no loop lacks rounds.
  pub parse_strict_request-checked :
      (body : Bytes) (r : Request go) → parse_strict_request go body r ≡ checked (payload go r body)
  parse_strict_request-checked body r = Follows-checked (parse_strict_request-payload body r)
    where
      Follows-checked :
          {m : Run (Request go)} {n : Option (Request go)} → Follows ◌≡◌ m n → m ≡ checked n
      Follows-checked (gives e) = ap ok e
      Follows-checked refuses = refl
