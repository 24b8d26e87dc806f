-- ===== src/Runtime.antt =====
-- What the program takes from Go and its standard library: float32 and float64 arithmetic and
-- conversions, and package time. They are parameters of the model.
use fraud_detection_api.Base.{ℕ, ℤ, Bool}

pub record Runtime : Type 1 where
  pub Float32 : Type 0
  pub Float64 : Type 0
  pub Time : Type 0
  -- `literal32 m k` is the constant m / 10 ^ k
  pub literal32 : ℤ → ℕ → Float32
  pub literal64 : ℤ → ℕ → Float64
  -- float32(x) of an int32, float64(x) of a byte, float32(x) of a float64
  pub of_int32 : ℤ → Float32
  pub of_byte : ℕ → Float64
  pub narrow : Float64 → Float32
  -- uint8(x), the conversion that truncates
  pub to_uint8 : Float32 → ℕ
  pub add32 : Float32 → Float32 → Float32
  pub mul32 : Float32 → Float32 → Float32
  pub div32 : Float32 → Float32 → Float32
  -- x < y and x <= y, both false where an operand is not a number
  pub lt32 : Float32 → Float32 → Bool
  pub le32 : Float32 → Float32 → Bool
  pub add64 : Float64 → Float64 → Float64
  pub mul64 : Float64 → Float64 → Float64
  -- time.Date(year, month, day, hour, min, sec, 0, time.UTC), and time.Time{}
  pub date : ℕ → ℕ → ℕ → ℕ → ℕ → ℕ → Time
  pub zero_time : Time
  -- t.Hour(), int(t.Weekday()) and t.Sub(u).Minutes()
  pub hour : Time → ℕ
  pub weekday : Time → ℕ
  pub minutes_between : Time → Time → Float64
