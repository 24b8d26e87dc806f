-- ===== src/Parse/Cursor.antt =====
-- internal/api/parse_strict.go: positions in the body, and the readers of one byte, key, string or
-- truth value. `get_elem? body p` is `body[p]` behind the test `p < len(body)`. A loop up to
-- `len(body)` has as many rounds as there are bytes left.
use fraud_detection_api.Base.{
  ℕ, zero, suc, ◌+◌, ◌-◌, Bool, true, false, ◌&&◌, ◌||◌, List, [], ◌∷◌, ◌++◌, none, some, ◌==◌, ltb,
  leb, if◌then◌else◌, Bytes, length, get_elem?, take, drop,
}
use fraud_detection_api.Run.{Run, ok, err, panic, out_of_fuel, ◌>>=◌}
use fraud_detection_api.Config.{codes}

abbrev pub is_space : ℕ → Bool
is_space c = c == b' ' || c == b'\n' || c == b'\r' || c == b'\t'

abbrev pub is_digit : ℕ → Bool
is_digit c = leb b'0' c && leb c b'9'

unfoldable pub skip_loop : ℕ → Bytes → ℕ → ℕ
skip_loop zero body p = p
skip_loop (suc k) body p = elim (get_elem? body p) [
  | none ↦ p
  | some c ↦ let rest = skip_loop k body (p + 1) in if is_space c then rest else p
]

unfoldable pub skip_spaces : Bytes → ℕ → ℕ
unfolding skip_loop
skip_spaces body p = skip_loop (length body - p) body p

-- The loop of `hasPrefix`, on the bytes of `body` and of `s`; the first is not the shorter.
unfoldable pub prefix_loop : Bytes → Bytes → Bool
prefix_loop body [] = true
prefix_loop [] (x ∷ s) = false
prefix_loop (b ∷ body) (x ∷ s) = if b == x then prefix_loop body s else false

unfoldable pub has_prefix : Bytes → Bytes → Bool
unfolding prefix_loop
has_prefix body s = if ltb (length body) (length s) then false else prefix_loop body s

-- `body[p:]`
abbrev pub slice_from : Bytes → ℕ → Run Bytes
slice_from body p = if leb p (length body) then ok (drop p body) else panic

-- `body[a:b]`, for a ≤ b ≤ len(body)
abbrev pub slice : Bytes → ℕ → ℕ → Bytes
slice body a b = take (b - a) (drop a body)

-- `!(p >= len(body) || body[p] != c)`
abbrev pub byte_is : Bytes → ℕ → ℕ → Bool
byte_is body p c = elim (get_elem? body p) [ none ↦ false | some b ↦ b == c ]

unfoldable pub expect_byte : Bytes → ℕ → ℕ → Run ℕ
unfolding skip_spaces
expect_byte body p want =
    let q = skip_spaces body p in if byte_is body q want then ok (skip_spaces body (q + 1)) else err

unfoldable pub expect_comma : Bytes → ℕ → Run ℕ
unfolding expect_byte
expect_comma body p = expect_byte body p b','

unfoldable pub expect_key_at : Bytes → ℕ → Bytes → Run ℕ
unfolding skip_spaces has_prefix
expect_key_at body p key =
    let q = skip_spaces body p in
    do
      tail ← slice_from body q
      let colon = skip_spaces body (q + length key)
      if has_prefix tail key
          then (if byte_is body colon b':' then ok (skip_spaces body (colon + 1)) else err)
          else err

-- The loop of `readStringAt`: the index of the closing quote.
unfoldable pub string_end : ℕ → Bytes → ℕ → Run ℕ
string_end zero body i = err
string_end (suc k) body i = elim (get_elem? body i) [
  | none ↦ err
  | some c ↦
      let rest = string_end k body (i + 1) in
      if c == b'\\' then err else if c == b'"' then ok i else rest
]

unfoldable pub read_string_at : Bytes → ℕ → Run (Bytes × ℕ)
unfolding skip_spaces string_end
read_string_at body p =
    let q = skip_spaces body p in
    let start = q + 1 in
    if byte_is body q b'"'
    then (do
      i ← string_end (length body - start) body start
      ok (slice body start i, skip_spaces body (i + 1)))
    else err

-- The loop of `readStringArrayAt`, with fuel.
unfoldable pub array_loop : ℕ → Bytes → ℕ → List Bytes → Run (List Bytes × ℕ)
array_loop zero body p dst = out_of_fuel
array_loop (suc k) body p dst =
    let q = skip_spaces body p in
    let next = λ (s : Bytes) (r : ℕ).
      let t = skip_spaces body r in
      let again = array_loop k body (t + 1) (dst ++ s ∷ []) in
      if byte_is body t b','
      then again
      else if byte_is body t b']'
      then ok (dst ++ s ∷ [], skip_spaces body (t + 1))
      else err in
    elim (get_elem? body q) [
      | none ↦ err
      | some c ↦
          if c == b']'
          then ok (dst, skip_spaces body (q + 1))
          else (read_string_at body q >>= λ (s, r). next s r)
    ]

unfoldable pub read_string_array_at : Bytes → ℕ → List Bytes → Run (List Bytes × ℕ)
unfolding skip_spaces array_loop read_string_at
read_string_array_at body p dst =
    let q = skip_spaces body p in
    if byte_is body q b'[' then array_loop (suc (length body)) body (q + 1) dst else err

unfoldable pub read_bool_at : Bytes → ℕ → Run (Bool × ℕ)
unfolding skip_spaces has_prefix
read_bool_at body p =
    let q = skip_spaces body p in
    do
      tail ← slice_from body q
      if has_prefix tail (codes "true")
          then ok (true, skip_spaces body (q + 4))
          else if has_prefix tail (codes "false")
          then ok (false, skip_spaces body (q + 5))
          else err
