-- ===== src/Parse/Stamps.antt =====
-- The times of a document: what `parseFixedUTC` reads where a stamp is written.
use fraud_detection_api.Base.{
  ℕ, ◌/◌, ◌<◌, ◌≡◌, refl, true, List, [], ◌∷◌, none, some, ◌==◌, leb, not, ◌&&◌, Bool, Bool-cases,
  inl, inr, if◌then◌else◌, Bytes, arith,
}
use fraud_detection_api.Runtime.{Runtime}
use fraud_detection_api.Parse.Cursor.{is_digit}
use fraud_detection_api.Parse.Time.{atoi2, atoi4, out_of_range, parse_fixed_utc}
use fraud_detection_api.Parse.Grammar.{trim, instant}
use fraud_detection_api.Parse.Document.{Space, Stamp, StampOk, IsPlain}
use fraud_detection_api.Parse.Document.Text.{digit, quote, stamp_text}
use fraud_detection_api.Parse.Document.Meaning.{stamp_value}
use fraud_detection_api.Parse.Tokens.{text-quote}

digit-is_digit : (n : ℕ) → is_digit (digit n) ≡ true
digit-is_digit n = ground arith

digit_plain : (n : ℕ) → (not (digit n == b'"') && not (digit n == b'\\')) ≡ true
digit_plain n = ground arith

atoi2-digit : (n : ℕ) → n < 100 → atoi2 (digit (n / 10) ∷ digit n ∷ []) ≡ some n
unfolding atoi2
atoi2-digit n h = rw (digit-is_digit (n / 10), digit-is_digit n) (ground arith)

atoi4-digit :
    (n : ℕ)
    → n < 10000
    → atoi4 (digit (n / 1000) ∷ digit (n / 100) ∷ digit (n / 10) ∷ digit n ∷ []) ≡ some n
unfolding atoi4
atoi4-digit n h =
    rw
      (
        digit-is_digit (n / 1000),
        digit-is_digit (n / 100),
        digit-is_digit (n / 10),
        digit-is_digit n,
      )
      (ground arith)

-- The fields that are accepted: no field is above its greatest value, and the month and the day
-- are not 0.
abbrev pub accepts : Stamp → Bool
accepts t =
    leb 1 t.month
    && leb t.month 12
    && leb 1 t.day
    && leb t.day 31
    && leb t.hour 23
    && leb t.minute 59
    && leb t.second 59

-- The fields fit in their digits.
pub record Written (t : Stamp) : Type 0 where
  pub year_lt : t.year < 10000
  pub month_lt : t.month < 100
  pub day_lt : t.day < 100
  pub hour_lt : t.hour < 100
  pub minute_lt : t.minute < 100
  pub second_lt : t.second < 100

pub out_of_range-accepts :
    (t : Stamp) → out_of_range t.month t.day t.hour t.minute t.second ≡ not (accepts t)
out_of_range-accepts t = ground arith

StampOk-accepts : (t : Stamp) → StampOk t → accepts t ≡ true
StampOk-accepts t h = ground arith

StampOk-Written : (t : Stamp) → StampOk t → Written t
StampOk-Written t h = ground arith

stamp_text-IsPlain : (t : Stamp) → IsPlain (stamp_text t)
stamp_text-IsPlain t = (
  digit_plain (t.year / 1000),
  (
    digit_plain (t.year / 100),
    (
      digit_plain (t.year / 10),
      (
        digit_plain t.year,
        (
          refl,
          (
            digit_plain (t.month / 10),
            (
              digit_plain t.month,
              (
                refl,
                (
                  digit_plain (t.day / 10),
                  (
                    digit_plain t.day,
                    (
                      refl,
                      (
                        digit_plain (t.hour / 10),
                        (
                          digit_plain t.hour,
                          (
                            refl,
                            (
                              digit_plain (t.minute / 10),
                              (
                                digit_plain t.minute,
                                (
                                  refl,
                                  (digit_plain (t.second / 10), (digit_plain t.second, (refl, tt))),
                                ),
                              ),
                            ),
                          ),
                        ),
                      ),
                    ),
                  ),
                ),
              ),
            ),
          ),
        ),
      ),
    ),
  ),
)

module _ (go : Runtime) where
  -- A time in the fixed format, with a year of four digits and other fields of two, whatever their
  -- values, is read as the time of these fields if the month is from 1 to 12, the day from 1 to 31,
  -- the hour at most 23, and the minute and the second at most 59. It is refused otherwise. The day
  -- need not exist in the month.
  pub parse_fixed_utc-stamp_text :
      (t : Stamp)
      → Written t
      → parse_fixed_utc go (stamp_text t) ≡ (if accepts t then some (stamp_value go t) else none)
  unfolding parse_fixed_utc
  parse_fixed_utc-stamp_text t h =
      rw
        (
          atoi4-digit t.year h.year_lt,
          atoi2-digit t.month h.month_lt,
          atoi2-digit t.day h.day_lt,
          atoi2-digit t.hour h.hour_lt,
          atoi2-digit t.minute h.minute_lt,
          atoi2-digit t.second h.second_lt,
          out_of_range-accepts t,
        )
        (elim (Bool-cases (accepts t)) [ inl e ↦ rw e refl | inr e ↦ rw e refl ])

  pub instant-quote :
      (w : List Space) (t : Stamp) (rest : Bytes)
      → StampOk t
      → instant go (trim (quote w (stamp_text t) rest)) ≡ some (stamp_value go t, trim rest)
  unfolding instant
  instant-quote w t rest h = rw (
    text-quote w (stamp_text t) rest (stamp_text-IsPlain t),
    parse_fixed_utc-stamp_text t (StampOk-Written t h),
    StampOk-accepts t h,
  )
