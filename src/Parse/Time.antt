-- ===== src/Parse/Time.antt =====
-- internal/api/parse_strict.go: `parseFixedUTC`, `atoi2`, `atoi4` and `readTimeAt`.
use fraud_detection_api.Base.{
  ℕ, ◌+◌, ◌-◌, ◌*◌, Bool, ◌&&◌, ◌||◌, [], ◌∷◌, Option, none, some, ◌==◌, ltb, if◌then◌else◌, Bytes,
  length,
}
use fraud_detection_api.Run.{Run, ok, err, ◌>>=◌}
use fraud_detection_api.Maybe
use fraud_detection_api.Runtime.{Runtime}
use fraud_detection_api.Parse.Cursor.{is_digit, slice, byte_is, read_string_at}

-- `none` is the result `(0, false)`.
unfoldable pub atoi2 : Bytes → Option ℕ
atoi2 (a ∷ b ∷ []) = if is_digit a && is_digit b then some ((a - b'0') * 10 + (b - b'0')) else none
atoi2 _ = none

-- The loop of `atoi4`.
unfoldable pub digits_loop : ℕ → Bytes → Option ℕ
digits_loop n [] = some n
digits_loop n (c ∷ s) =
    let rest = digits_loop (n * 10 + (c - b'0')) s in if is_digit c then rest else none

unfoldable pub atoi4 : Bytes → Option ℕ
unfolding digits_loop
atoi4 s = if length s == 4 then digits_loop 0 s else none

-- A result `(x, err)` that the caller hands on.
abbrev pub checked {ℓ} : {A : Type ℓ} → Option A → Run A
checked (some a) = ok a
checked none = err

abbrev pub punctuated : Bytes → Bool
punctuated s =
    length s == 20
    && byte_is s 4 b'-'
    && byte_is s 7 b'-'
    && byte_is s 10 b'T'
    && byte_is s 13 b':'
    && byte_is s 16 b':'
    && byte_is s 19 b'Z'

-- `month < 1 || month > 12 || ...`
abbrev pub out_of_range : ℕ → ℕ → ℕ → ℕ → ℕ → Bool
out_of_range month day hour minute second =
    ltb month 1
    || ltb 12 month
    || ltb day 1
    || ltb 31 day
    || ltb 23 hour
    || ltb 59 minute
    || ltb 59 second

module _ (go : Runtime) where
  open go use {Time, date}

  -- `none` is the error.
  unfoldable pub parse_fixed_utc : Bytes → Option Time
  parse_fixed_utc s =
      let fields = Maybe.◌>>=◌ (atoi4 (slice s 0 4)) λ year.
        Maybe.◌>>=◌ (atoi2 (slice s 5 7)) λ month. Maybe.◌>>=◌ (atoi2 (slice s 8 10)) λ day.
          Maybe.◌>>=◌ (atoi2 (slice s 11 13)) λ hour. Maybe.◌>>=◌ (atoi2 (slice s 14 16)) λ minute.
            Maybe.◌>>=◌ (atoi2 (slice s 17 19)) λ second.
              (if out_of_range month day hour minute second
                then none
                else some (date year month day hour minute second)) in
      if punctuated s then fields else none

  unfoldable pub read_time_at : Bytes → ℕ → Run (Time × ℕ)
  read_time_at body p = do
    (s, next) ← read_string_at body p
    t ← checked (parse_fixed_utc s)
    ok (t, next)
