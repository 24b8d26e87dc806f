-- ===== src/Parse/RoundTrip.antt =====
-- The parser on a document: whatever the white space, it reads the values, and it ignores what
-- follows the closing brace.
use fraud_detection_api.Base.{ℕ, ◌≡◌, refl, ◌∙◌, ap, List, [], ◌∷◌, ◌++◌, Option, none, some, Bytes}
use fraud_detection_api.Run.{ok}
use fraud_detection_api.Runtime.{Runtime}
use fraud_detection_api.Config.{codes}
use fraud_detection_api.Request.{Request}
use fraud_detection_api.Parse.Time.{checked}
use fraud_detection_api.Parse.Stamps.{instant-quote}
use fraud_detection_api.Parse.Payload.{last_transaction_key, parse_strict_request}
use fraud_detection_api.Parse.Grammar.{
  trim, transaction_object, customer_object, merchant_object, terminal_object, last_object,
  last_member, payload,
}
use fraud_detection_api.Parse.Refinement.{parse_strict_request-checked}
use fraud_detection_api.Parse.Document.{Space, Decimal, Stamp, Document, LastOk, DocumentOk}
use fraud_detection_api.Parse.Document.Text.{
  blank, word, mark, transaction_text, customer_text, merchant_text, terminal_text, last_text,
  document_text,
}
use fraud_detection_api.Parse.Document.Meaning.{
  with_last, transaction_value, customer_value, merchant_value, terminal_value, document_value,
}
use fraud_detection_api.Parse.Tokens.{
  trim-blank, trim-trim, trim-mark, step, byte-mark, byte-left, key-word, text-quote, truth-word,
  mark-Stops, integer-word, float-decimal, array-items,
}

module _ (go : Runtime) (g : ℕ → List Space) (d : Document) (h : DocumentOk d) where
  transaction_object-text :
      (r : Request go) (rest : Bytes)
      → transaction_object go r (trim (transaction_text g d rest))
        ≡ some (record r { transaction = transaction_value go d }, trim rest)
  unfolding transaction_object transaction_text
  transaction_object-text r rest = step _ (key-word (g 0) (g 1) _ _ _ refl) (
      step _ (byte-mark (g 2) b'{' _ refl) (
        step _ (key-word (g 3) (g 4) _ _ _ refl) (
          step _ (float-decimal go (g 5) d.amount _ h.amount_ok (mark-Stops (g 6) b',' _ refl refl))
            (step _ (byte-mark (g 6) b',' _ refl) (
              step _ (key-word (g 7) (g 8) _ _ _ refl) (
                step _
                  (integer-word (g 9) d.installments _ h.installments_ok
                    (mark-Stops (g 10) b',' _ refl refl))
                  (step _ (byte-mark (g 10) b',' _ refl) (
                    step _ (key-word (g 11) (g 12) _ _ _ refl) (
                      step _ (instant-quote go (g 13) d.requested_at _ h.requested_at_ok)
                        (step _ (byte-mark (g 14) b'}' _ refl) refl))))))))))

  customer_object-text :
      (r : Request go) (rest : Bytes)
      → customer_object go r (trim (customer_text g d rest))
        ≡ some (record r { customer = customer_value go d }, trim rest)
  unfolding customer_object customer_text
  customer_object-text r rest = step _ (key-word (g 15) (g 16) _ _ _ refl) (
      step _ (byte-mark (g 17) b'{' _ refl) (
        step _ (key-word (g 18) (g 19) _ _ _ refl) (
          step _
            (float-decimal go (g 20) d.customer_avg _ h.customer_avg_ok
              (mark-Stops (g 21) b',' _ refl refl))
            (step _ (byte-mark (g 21) b',' _ refl) (
              step _ (key-word (g 22) (g 23) _ _ _ refl) (
                step _
                  (integer-word (g 24) d.tx_count_24h _ h.tx_count_24h_ok
                    (mark-Stops (g 25) b',' _ refl refl))
                  (step _ (byte-mark (g 25) b',' _ refl) (
                    step _ (key-word (g 26) (g 27) _ _ _ refl) (
                      step _ (array-items (g 28) (g 29) _ _ h.known_merchants_ok)
                        (step _ (byte-mark (g 30) b'}' _ refl) refl))))))))))

  merchant_object-text :
      (r : Request go) (rest : Bytes)
      → merchant_object go r (trim (merchant_text g d rest))
        ≡ some (record r { merchant = merchant_value go d }, trim rest)
  unfolding merchant_object merchant_text
  merchant_object-text r rest = step _ (key-word (g 31) (g 32) _ _ _ refl) (
      step _ (byte-mark (g 33) b'{' _ refl) (
        step _ (key-word (g 34) (g 35) _ _ _ refl) (
          step _ (text-quote (g 36) d.merchant_id _ h.merchant_id_ok) (
            step _ (byte-mark (g 37) b',' _ refl) (
              step _ (key-word (g 38) (g 39) _ _ _ refl) (
                step _ (text-quote (g 40) d.mcc _ h.mcc_ok) (
                  step _ (byte-mark (g 41) b',' _ refl) (
                    step _ (key-word (g 42) (g 43) _ _ _ refl) (
                      step _
                        (float-decimal go (g 44) d.merchant_avg _ h.merchant_avg_ok
                          (mark-Stops (g 45) b'}' _ refl refl))
                        (step _ (byte-mark (g 45) b'}' _ refl) refl))))))))))

  terminal_object-text :
      (r : Request go) (rest : Bytes)
      → terminal_object go r (trim (terminal_text g d rest))
        ≡ some (record r { terminal = terminal_value go d }, trim rest)
  unfolding terminal_object terminal_text
  terminal_object-text r rest = step _ (key-word (g 46) (g 47) _ _ _ refl) (
      step _ (byte-mark (g 48) b'{' _ refl) (
        step _ (key-word (g 49) (g 50) _ _ _ refl) (
          step _ (truth-word (g 51) d.is_online _) (
            step _ (byte-mark (g 52) b',' _ refl) (
              step _ (key-word (g 53) (g 54) _ _ _ refl) (
                step _ (truth-word (g 55) d.card_present _) (
                  step _ (byte-mark (g 56) b',' _ refl) (
                    step _ (key-word (g 57) (g 58) _ _ _ refl) (
                      step _
                        (float-decimal go (g 59) d.km_from_home _ h.km_from_home_ok
                          (mark-Stops (g 60) b'}' _ refl refl))
                        (step _ (byte-mark (g 60) b'}' _ refl) refl))))))))))

  -- Behind a null the rest is left as it is.
  last_member-text :
      (r : Request go) (l : Option (Stamp × Decimal)) (rest : Bytes) (w v : List Space)
      → LastOk l
      → (left : Bytes) × (last_member go r
            (trim (word w last_transaction_key (mark v b':' (last_text g l rest))))
          ≡ some (with_last go l r, left))
        × (trim left ≡ trim rest)
  unfolding last_member last_text last_object blank
  last_member-text r none rest w v k =
      let front : trim (trim (word (g 61) (codes "null") rest)) ≡ codes "null" ++ rest =
        trim-mark (g 61) b'n' (codes "ull" ++ rest) refl in
      (rest, step _ (key-word w v _ _ _ refl) (rw front), refl)
  last_member-text r (some (t, km)) rest w v (ht, hk) = (
    trim rest,
    step _ (key-word w v _ _ _ refl) (
        rw (trim-mark (g 62) b'{' _ refl) (
          step _ (byte-mark [] b'{' _ refl) (
            step _ (key-word (g 63) (g 64) _ _ _ refl) (
              step _ (instant-quote go (g 65) t _ ht) (
                step _ (byte-mark (g 66) b',' _ refl) (
                  step _ (key-word (g 67) (g 68) _ _ _ refl) (
                    step _ (float-decimal go (g 69) km _ hk (mark-Stops (g 70) b'}' _ refl refl))
                      (step _ (byte-mark (g 70) b'}' _ refl) refl)))))))),
    trim-trim rest,
  )

  -- The whole document, with anything behind it.
  payload-document_text :
      (r : Request go) (rest : Bytes)
      → payload go r (document_text g d rest) ≡ some (document_value go d r)
  unfolding payload document_text
  payload-document_text r rest =
      let (left, read, same) =
        last_member-text _ d.last_transaction (mark (g 82) b'}' rest) (g 80) (g 81)
          h.last_transaction_ok in
      step _ (byte-mark (g 71) b'{' _ refl) (
        step _ (key-word (g 72) (g 73) _ _ _ refl) (
          step _ (text-quote (g 74) d.id _ h.id_ok) (
            step _ (byte-mark (g 75) b',' _ refl) (
              step _ (transaction_object-text _ _) (
                step _ (byte-mark (g 76) b',' _ refl) (
                  step _ (customer_object-text _ _) (
                    step _ (byte-mark (g 77) b',' _ refl) (
                      step _ (merchant_object-text _ _) (
                        step _ (byte-mark (g 78) b',' _ refl) (
                          step _ (terminal_object-text _ _) (
                            step _ (byte-mark (g 79) b',' _ refl) (
                              step _ read (
                                step _
                                  (byte-left left b'}' rest
                                    (same ∙ trim-blank (g 82) (b'}' ∷ rest)))
                                  refl)))))))))))))

-- Every well-formed payload is read: from any request, with any white space between the tokens and
-- anything behind the closing brace, the parser succeeds with the request that the document stands
-- for. Its texts, truth values and times are those written. An integer is the number that its digits
-- write, modulo 2 ^ 32 and as an int32, so that number itself below 2 ^ 31. A float is what its digits
-- give in float64 arithmetic: from the left, ten times the value before plus the digit, behind the
-- point each digit times a product of tenths, then the sign, then the conversion to float32. For a
-- null, the last transaction of the request before stays, with its flag off.
pub parse_strict_request-document_text :
    (go : Runtime) (g : ℕ → List Space) (d : Document) (r : Request go) (rest : Bytes)
    → DocumentOk d
    → parse_strict_request go (document_text g d rest) r ≡ ok (document_value go d r)
parse_strict_request-document_text go g d r rest h =
    parse_strict_request-checked go (document_text g d rest) r
    ∙ ap checked (payload-document_text go g d h r rest)
