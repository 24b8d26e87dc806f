-- ===== src/Exact.antt =====
-- A runtime that the tests run on: exact fractions in place of floats, and times as seconds.
use fraud_detection_api.Base.{
  ℕ, ◌+◌, ◌-◌, ◌*◌, ◌/◌, ◌%◌, ◌^◌, ℤ, pos, pos_part, neg_part, ltb, leb, Bool, if◌then◌else◌,
}
use fraud_detection_api.Runtime.{Runtime}

-- The number (up - down) / den.
pub record Fraction : Type 0 where
  pub up : ℕ
  pub down : ℕ
  pub den : ℕ

abbrev pub scaled : ℤ → ℕ → Fraction
scaled m k = record { up = pos_part m; down = neg_part m; den = 10 ^ k }

abbrev add : Fraction → Fraction → Fraction
add x y = record {
  up = x.up * y.den + y.up * x.den;
  down = x.down * y.den + y.down * x.den;
  den = x.den * y.den;
}

abbrev mul : Fraction → Fraction → Fraction
mul x y = record {
  up = x.up * y.up + x.down * y.down;
  down = x.up * y.down + x.down * y.up;
  den = x.den * y.den;
}

-- By a positive number.
abbrev div : Fraction → Fraction → Fraction
div x y = record { up = x.up * y.den; down = x.down * y.den; den = x.den * (y.up - y.down) }

abbrev lt : Fraction → Fraction → Bool
lt x y = ltb (x.up * y.den + y.down * x.den) (y.up * x.den + x.down * y.den)

abbrev le : Fraction → Fraction → Bool
le x y = leb (x.up * y.den + y.down * x.den) (y.up * x.den + x.down * y.den)

-- Days since 1 March of the year 0, a Wednesday.
abbrev days : ℕ → ℕ → ℕ → ℕ
days year month day =
    let y = if ltb month 3 then year - 1 else year in
    365 * y + y / 4 - y / 100 + y / 400 + (153 * ((month + 9) % 12) + 2) / 5 + day - 1

abbrev pub exact : Runtime
exact = record {
  Float32 = Fraction;
  Float64 = Fraction;
  Time = ℕ;
  literal32 = scaled;
  literal64 = scaled;
  of_int32 = λ n. scaled n 0;
  of_byte = λ n. scaled (pos n) 0;
  narrow = λ x. x;
  to_uint8 = λ x. ((x.up - x.down) / x.den) % 256;
  add32 = add;
  mul32 = mul;
  div32 = div;
  lt32 = lt;
  le32 = le;
  add64 = add;
  mul64 = mul;
  date = λ year month day hour minute second.
      ((days year month day * 24 + hour) * 60 + minute) * 60 + second;
  zero_time = 0;
  hour = λ t. (t / 3600) % 24;
  weekday = λ t. (t / 86400 + 3) % 7;
  minutes_between = λ t u. record { up = t; down = u; den = 60 };
}
