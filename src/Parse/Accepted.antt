-- ===== src/Parse/Accepted.antt =====
-- The strings that `parseFixedUTC` accepts.
use mathlib.Core.Path.{ap₂}
use mathlib.Core.Option.{some-injective}
use native.Mathlib.Nat.{add-zero, add-suc}
use fraud_detection_api.Parse.Fields.{
  bind_some, if_some, if_none, and_true, unnegated, atoi2-some, atoi4-some,
}
use fraud_detection_api.Base.{
  Bytes, length, take, drop, ℕ, zero, suc, ◌+◌, ◌-◌, ◌/◌, ◌≡◌, refl, sym, ap, ◌∙◌, true, false, not,
  ◌==◌, some, [], ◌∷◌, ◌++◌, arith,
}
use fraud_detection_api.Parse.Cursor.{byte_is}
use fraud_detection_api.Parse.Document.Text.{digit, stamp_text}
use fraud_detection_api.Parse.Time.{atoi2, atoi4, out_of_range, punctuated, parse_fixed_utc}
use fraud_detection_api.Runtime.{Runtime}
use fraud_detection_api.Parse.Cursor.{slice}
use fraud_detection_api.Parse.Document.{Stamp}
use fraud_detection_api.Parse.Document.Meaning.{stamp_value}
use fraud_detection_api.Parse.Stamps.{Written, accepts, out_of_range-accepts}

take-drop : (k : ℕ) (s : Bytes) → s ≡ take k s ++ drop k s
take-drop zero s = refl
take-drop (suc k) [] = refl
take-drop (suc k) (x ∷ s) = ap (◌∷◌ x) (take-drop k s)

drop_nil : (k : ℕ) → drop {A = ℕ} k [] ≡ []
drop_nil zero = refl
drop_nil (suc k) = refl

drop-drop : (k p : ℕ) (s : Bytes) → drop k (drop p s) ≡ drop (k + p) s
drop-drop k zero s = rw add-zero refl
drop-drop k (suc p) [] = drop_nil k ∙ sym (drop_nil (k + suc p))
drop-drop k (suc p) (x ∷ s) = rw add-suc (drop-drop k p s)

-- The bytes from `p` on: `k` of them, then the others.
slice-next :
    (s : Bytes) (p k : ℕ) {t r : Bytes}
    → take k (drop p s) ≡ t
    → drop (k + p) s ≡ r
    → drop p s ≡ t ++ r
slice-next s p k e h = take-drop k (drop p s) ∙ ap₂ ◌++◌ e (drop-drop k p s ∙ h)

byte_is-next :
    (s : Bytes) (p c : ℕ) {r : Bytes} → byte_is s p c ≡ true → drop (suc p) s ≡ r → drop p s ≡ c ∷ r
byte_is-next [] p c e h = cc
byte_is-next (x ∷ s) zero c e h = ap₂ ◌∷◌ (ground arith) h
byte_is-next (x ∷ s) (suc p) c e h = byte_is-next s p c e h

drop_all : (s : Bytes) → drop (length s) s ≡ []
drop_all [] = refl
drop_all (x ∷ s) = drop_all s

-- The two digits from `p` on.
pair-next :
    (s : Bytes) (p n : ℕ) {r : Bytes}
    → atoi2 (slice s p (2 + p)) ≡ some n
    → drop (2 + p) s ≡ r
    → drop p s ≡ digit (n / 10) ∷ digit n ∷ r
pair-next s p n e h =
    let width : 2 + p - p ≡ 2 = omega arith in
    slice-next s p 2
      (ap (λ k. take k (drop p s)) (sym width) ∙ (atoi2-some (slice s p (2 + p)) n e).1) h

-- The seven marks.
record Marks (s : Bytes) : Type 0 where
  end : drop 20 s ≡ []
  mark4 : byte_is s 4 b'-' ≡ true
  mark7 : byte_is s 7 b'-' ≡ true
  mark10 : byte_is s 10 b'T' ≡ true
  mark13 : byte_is s 13 b':' ≡ true
  mark16 : byte_is s 16 b':' ≡ true
  mark19 : byte_is s 19 b'Z' ≡ true

eq_twenty : (n : ℕ) → (n == 20) ≡ true → n ≡ 20
eq_twenty n e = ground arith

punctuated-Marks : (s : Bytes) → punctuated s ≡ true → Marks s
punctuated-Marks s e =
    let (e, z) = and_true _ (byte_is s 19 b'Z') e in
    let (e, m16) = and_true _ (byte_is s 16 b':') e in
    let (e, m13) = and_true _ (byte_is s 13 b':') e in
    let (e, m10) = and_true _ (byte_is s 10 b'T') e in
    let (e, m7) = and_true _ (byte_is s 7 b'-') e in
    let (sized, m4) = and_true (length s == 20) (byte_is s 4 b'-') e in
    let size = eq_twenty (length s) sized in
    record {
      end = ap (λ k. drop k s) (sym size) ∙ drop_all s;
      mark4 = m4;
      mark7 = m7;
      mark10 = m10;
      mark13 = m13;
      mark16 = m16;
      mark19 = z;
    }

-- The bytes of a string whose fields are read.
text_of_fields :
    (s : Bytes) (t : Stamp)
    → Marks s
    → atoi4 (slice s 0 4) ≡ some t.year
    → atoi2 (slice s 5 7) ≡ some t.month
    → atoi2 (slice s 8 10) ≡ some t.day
    → atoi2 (slice s 11 13) ≡ some t.hour
    → atoi2 (slice s 14 16) ≡ some t.minute
    → atoi2 (slice s 17 19) ≡ some t.second
    → s ≡ stamp_text t
text_of_fields s t m year month day hour minute second =
    slice-next s 0 4 (atoi4-some _ t.year year).1 (
      byte_is-next s 4 b'-' m.mark4 (
        pair-next s 5 t.month month (
          byte_is-next s 7 b'-' m.mark7 (
            pair-next s 8 t.day day (
              byte_is-next s 10 b'T' m.mark10 (
                pair-next s 11 t.hour hour (
                  byte_is-next s 13 b':' m.mark13 (
                    pair-next s 14 t.minute minute (
                      byte_is-next s 16 b':' m.mark16 (
                        pair-next s 17 t.second second
                          (byte_is-next s 19 b'Z' m.mark19 m.end)))))))))))

module _ (go : Runtime) where
  open go use {Time}

  -- Only these strings are accepted: a string that `parseFixedUTC` reads is the fixed format of
  -- fields that fit in their digits and are in range (month 1 to 12, day 1 to 31, hour at most 23,
  -- minute and second at most 59), and the result is the time of these fields.
  pub parse_fixed_utc-accepts :
      (s : Bytes) (u : Time)
      → parse_fixed_utc go s ≡ some u
      → (t : Stamp) × Written t × (accepts t ≡ true) × (s ≡ stamp_text t) × (u ≡ stamp_value go t)
  unfolding parse_fixed_utc
  parse_fixed_utc-accepts s u e =
      let (form, e) = if_some (punctuated s) _ e in
      let (year, y, e) = bind_some (atoi4 (slice s 0 4)) _ e in
      let (month, mo, e) = bind_some (atoi2 (slice s 5 7)) _ e in
      let (day, d, e) = bind_some (atoi2 (slice s 8 10)) _ e in
      let (hour, h, e) = bind_some (atoi2 (slice s 11 13)) _ e in
      let (minute, mi, e) = bind_some (atoi2 (slice s 14 16)) _ e in
      let (second, se, e) = bind_some (atoi2 (slice s 17 19)) _ e in
      let (fine, e) = if_none (out_of_range month day hour minute second) _ e in
      let t : Stamp = record {
        year = year;
        month = month;
        day = day;
        hour = hour;
        minute = minute;
        second = second;
      } in
      let range : not (accepts t) ≡ false = sym (out_of_range-accepts t) ∙ fine in
      (
        t,
        record {
          year_lt = (atoi4-some _ year y).0;
          month_lt = (atoi2-some _ month mo).0;
          day_lt = (atoi2-some _ day d).0;
          hour_lt = (atoi2-some _ hour h).0;
          minute_lt = (atoi2-some _ minute mi).0;
          second_lt = (atoi2-some _ second se).0;
        },
        unnegated (accepts t) range,
        text_of_fields s t (punctuated-Marks s form) y mo d h mi se,
        sym (some-injective _ _ e),
      )
