-- ===== src/Parse/Number.antt =====
-- internal/api/parse_strict.go: the readers of numbers. An int32 is accumulated as its bit pattern
-- below 2 ^ 32, with the wrap-around of `n*10 + d`. The sign is read as `body[p] == '-'`.
use fraud_detection_api.Base.{
  ℕ, zero, suc, ◌+◌, ◌-◌, ◌*◌, ◌%◌, ◌^◌, ℤ, pos, negsuc, signed32, Bool, none, some, if◌then◌else◌,
  Bytes, length, get_elem?,
}
use fraud_detection_api.Run.{Run, ok, err}
use fraud_detection_api.Runtime.{Runtime}
use fraud_detection_api.Parse.Cursor.{is_digit, skip_spaces, byte_is}

-- `n*10 + int32(c-'0')` on int32
abbrev pub next_int32 : ℕ → ℕ → ℕ
next_int32 n c = (n * 10 + (c - b'0')) % 2 ^ 32

-- `p < len(body) && body[p] >= '0' && body[p] <= '9'`
abbrev pub digit_at : Bytes → ℕ → Bool
digit_at body p = elim (get_elem? body p) [ none ↦ Bool.false | some c ↦ is_digit c ]

unfoldable pub int32_loop : ℕ → Bytes → ℕ → ℕ → ℕ × ℕ
int32_loop zero body p n = (n, p)
int32_loop (suc k) body p n = elim (get_elem? body p) [
  | none ↦ (n, p)
  | some c ↦
      let rest = int32_loop k body (p + 1) (next_int32 n c) in if is_digit c then rest else (n, p)
]

unfoldable pub read_int32_at : Bytes → ℕ → Run (ℤ × ℕ)
read_int32_at body p =
    let q = skip_spaces body p in
    let (n, e) = int32_loop (length body - q) body q 0 in
    if digit_at body q then ok (signed32 n, skip_spaces body e) else err

module _ (go : Runtime) where
  open go use {Float32, Float64, literal64, of_byte, narrow, add64, mul64}

  -- `n*10 + float64(c-'0')`
  abbrev pub next_whole : Float64 → ℕ → Float64
  next_whole n c = add64 (mul64 n (literal64 (pos 10) 0)) (of_byte (c - b'0'))

  unfoldable pub whole_loop : ℕ → Bytes → ℕ → Float64 → Float64 × ℕ
  whole_loop zero body p n = (n, p)
  whole_loop (suc k) body p n = elim (get_elem? body p) [
    | none ↦ (n, p)
    | some c ↦
        let rest = whole_loop k body (p + 1) (next_whole n c) in if is_digit c then rest else (n, p)
  ]

  -- `n += float64(c-'0') * scale`
  abbrev pub next_fraction : Float64 → Float64 → ℕ → Float64
  next_fraction n scale c = add64 n (mul64 (of_byte (c - b'0')) scale)

  abbrev pub next_scale : Float64 → Float64
  next_scale scale = mul64 scale (literal64 (pos 1) 1)

  unfoldable pub fraction_loop : ℕ → Bytes → ℕ → Float64 → Float64 → Float64 × ℕ
  fraction_loop zero body p n scale = (n, p)
  fraction_loop (suc k) body p n scale = elim (get_elem? body p) [
    | none ↦ (n, p)
    | some c ↦
        let rest = fraction_loop k body (p + 1) (next_fraction n scale c) (next_scale scale) in
        if is_digit c then rest else (n, p)
  ]

  -- The fraction, from the point at `e` on, if there is one.
  unfoldable pub fraction_at : Bytes → ℕ → Float64 → Float64 × ℕ
  fraction_at body e n =
      let rest = fraction_loop (length body - (e + 1)) body (e + 1) n (literal64 (pos 1) 1) in
      if byte_is body e b'.' then rest else (n, e)

  abbrev pub sign_of : Bool → Float64
  sign_of negative = literal64 (if negative then negsuc 0 else pos 1) 0

  unfoldable pub read_float32_at : Bytes → ℕ → Run (Float32 × ℕ)
  read_float32_at body p =
      let q = skip_spaces body p in
      let negative = byte_is body q b'-' in
      let start = if negative then q + 1 else q in
      let (n, e) = whole_loop (length body - start) body start (literal64 (pos 0) 0) in
      let (m, f) = fraction_at body e n in
      if digit_at body start
      then ok (narrow (mul64 (sign_of negative) m), skip_spaces body f)
      else err
