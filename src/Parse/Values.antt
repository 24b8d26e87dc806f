-- ===== src/Parse/Values.antt =====
-- The readers of values against the reference: strings, arrays of strings, truth values, numbers
-- and times.
use mathlib.Core.Path.{ap₂}
use fraud_detection_api.Base.{
  ℕ, zero, suc, ◌+◌, ◌-◌, ◌≤◌, ◌<◌, ◌≡◌, refl, ◌∙◌, ap, Bool, List, [], ◌∷◌, Option, none, some,
  ◌==◌, if◌then◌else◌, Bool-cases, Bytes, length, get_elem?, arith, inl, inr, subst, Option-cases,
  List-cases, pos, signed32,
}
use fraud_detection_api.Maybe
use fraud_detection_api.Follows.{
  Follows, gives, refuses, Follows-bind, Follows-if, Follows-right, Follows-bind_eq,
}
use fraud_detection_api.Runtime.{Runtime}
use fraud_detection_api.Config.{codes}
use fraud_detection_api.Parse.Cursor.{
  is_digit, skip_spaces, slice, byte_is, string_end, read_string_at, array_loop,
  read_string_array_at, read_bool_at,
}
use fraud_detection_api.Parse.Number.{
  int32_loop, next_int32, digit_at, read_int32_at, whole_loop, next_whole, fraction_loop,
  fraction_at, sign_of, read_float32_at,
}
use fraud_detection_api.Parse.Time.{checked, parse_fixed_utc, read_time_at}
use fraud_detection_api.Parse.Grammar.{
  trim, front, starts_digit, quoted, text, next_item, items, array, truth, digits, integer,
  next_fraction_digit, fraction, unsigned, minus, float, instant,
}
use fraud_detection_api.Parse.Position.{
  At, At-nil, At-head, At-tail, At-length, At-add, byte_is-front, skip_spaces-At,
  prefix_loop-strip_prefix, has_prefix-prefix_loop, slice_from-At,
}

-- The same value, and a position that leaves what the reference leaves.
abbrev pub Reads {ℓ} : {A : Type ℓ} → Bytes → A × ℕ → A × Bytes → Type ℓ
Reads body (a, p) (b, s) = (a ≡ b) × At body p s

slice-cons :
    {body : Bytes} {i : ℕ} {c : ℕ} {s : Bytes} (j : ℕ)
    → At body i (c ∷ s)
    → i + 1 ≤ j
    → slice body i j ≡ c ∷ slice body (i + 1) j
slice-cons {body} {i} {c} {s} j a h =
    let e : j - i ≡ suc (j - (i + 1)) = omega arith in rw (e, a.left, (At-tail a).left)

slice_empty : (body : Bytes) (i : ℕ) → slice body i i ≡ []
slice_empty body i = let e : i - i ≡ 0 = omega arith in rw e

abbrev Ends : Bytes → ℕ → ℕ → Bytes × Bytes → Type 0
Ends body i j (t, r) = (slice body i j ≡ t) × (i ≤ j) × At body (j + 1) r

string_end-quoted :
    (s : Bytes) {body : Bytes} (i : ℕ)
    → At body i s
    → Follows (Ends body i) (string_end (length s) body i) (quoted s)
unfolding string_end quoted
string_end-quoted [] i a = refuses
string_end-quoted (c ∷ s) {body} i a =
    rw (string_end, At-head a)
      (Follows-if (c == b'\\') (λ _. refuses)
        λ _.
          Follows-if (c == b'"') (λ _. gives (slice_empty body i, omega arith, At-tail a))
            λ _.
              Follows-right (string_end-quoted s (i + 1) (At-tail a))
                λ j (t, r) (e, h, b). gives (slice-cons j a h ∙ ap (◌∷◌ c) e, omega arith, b))

pub read_string_at-text :
    {body : Bytes} {p : ℕ} {s : Bytes}
    → At body p s
    → Follows (Reads body) (read_string_at body p) (text s)
unfolding read_string_at text
read_string_at-text {body} a = byte_is-front b'"' (skip_spaces-At a) λ r b.
    rw (At-length b)
      (Follows-bind (string_end-quoted r _ b) λ j (t, u) (e, h, c). gives (e, skip_spaces-At c))

pub length-trim : (s : Bytes) → length (trim s) ≤ length s
length-trim [] = omega arith
length-trim (c ∷ s) = ground (arith, length-trim s)

quoted_shorter : (s : Bytes) {t r : Bytes} → quoted s ≡ some (t, r) → length r < length s
unfolding quoted
quoted_shorter [] e = cc
quoted_shorter (c ∷ s) e = elim (Option-cases (quoted s)) [
  | inl n ↦ ground (arith, n)
  | inr (u, n) ↦ ground (arith, n, quoted_shorter s n)
]

text_shorter_front :
    (z : Bytes) {t r : Bytes}
    → Maybe.◌>>=◌ {B = Bytes × Bytes}
        (front b'"' z)
        (λ u. Maybe.◌>>=◌ {B = Bytes × Bytes} (quoted u) (λ (v, w). some (v, trim w)))
      ≡ some (t, r)
    → length r < length z
text_shorter_front [] e = cc
text_shorter_front (c ∷ z) e = elim (Option-cases (quoted z)) [
  | inl n ↦ ground (arith, n)
  | inr (u, n) ↦ ground (arith, n, quoted_shorter z n, length-trim u.1)
]

-- A text takes at least a byte.
text_shorter : (s : Bytes) {t r : Bytes} → text s ≡ some (t, r) → length r < length s
unfolding text
text_shorter s e = omega (arith, text_shorter_front (trim s) e, length-trim s)

array_loop-items :
    (k m : ℕ) (dst : List Bytes) {body : Bytes} {p : ℕ} (s : Bytes)
    → At body p s
    → length s < k
    → length s < m
    → Follows (Reads body) (array_loop k body p dst) (items m dst s)
unfolding array_loop items
array_loop-items zero m dst s a h h' = absurd (omega arith)
array_loop-items (suc k) zero dst s a h h' = absurd (omega arith)
array_loop-items (suc k) (suc m) dst {body} {p} s a h h' = elim (List-cases (trim s)) [
  | inl e ↦
      let b = subst (At body (skip_spaces body p)) e (skip_spaces-At a) in
      rw (At-nil b, array_loop, e, items) refuses
  | inr (c, r, e) ↦
      let b = subst (At body (skip_spaces body p)) e (skip_spaces-At a) in
      rw (At-head b, array_loop, e, items)
        (Follows-if (c == b']') (λ _. gives (refl, skip_spaces-At (At-tail b)))
          λ _. Follows-bind_eq (read_string_at-text b) λ (t, q) (t', u) (same, d) read.
            elim (List-cases (trim u)) [
              | inl f ↦
                  let z = subst (At body (skip_spaces body q)) f (skip_spaces-At d) in
                  rw (byte_is, At-nil z, f, next_item) refuses
              | inr (v, w, f) ↦
                  let z = subst (At body (skip_spaces body q)) f (skip_spaces-At d) in
                  let left : (length w < k) × (length w < m) = omega (
                    arith,
                    length-trim s,
                    ap length e,
                    text_shorter _ read,
                    length-trim u,
                    ap length f,
                  ) in
                  rw (byte_is, At-head z, f, same, next_item)
                    (Follows-if (v == b',')
                      (λ _. array_loop-items k m _ w (At-tail z) left.0 left.1)
                      λ _.
                        Follows-if (v == b']') (λ _. gives (refl, skip_spaces-At (At-tail z)))
                          λ _. refuses)
            ])
]

pub read_string_array_at-array :
    {body : Bytes} {p : ℕ} {s : Bytes}
    → At body p s
    → Follows (Reads body) (read_string_array_at body p []) (array s)
unfolding read_string_array_at array
read_string_array_at-array {body} {p} {s} a = byte_is-front b'[' (skip_spaces-At a) λ r b.
    array_loop-items (suc (length body)) (suc (length r)) [] r b
      (omega (arith, At-length b, b.within)) (omega arith)

pub read_bool_at-truth :
    {body : Bytes} {p : ℕ} {s : Bytes}
    → At body p s
    → Follows (Reads body) (read_bool_at body p) (truth s)
unfolding read_bool_at truth
read_bool_at-truth {body} {p} {s} a =
    let b = skip_spaces-At a in
    rw (slice_from-At b, has_prefix-prefix_loop, has_prefix-prefix_loop)
      (elim (prefix_loop-strip_prefix (codes "true") (trim s)) [
        | inr (r, f, g, l, d) ↦ rw (f, g, truth) (gives (refl, skip_spaces-At (At-add 4 b l d)))
        | inl (f, g) ↦
            rw (f, g, truth)
              (elim (prefix_loop-strip_prefix (codes "false") (trim s)) [
                | inr (r, f, g, l, d) ↦ rw (f, g) (gives (refl, skip_spaces-At (At-add 5 b l d)))
                | inl (f, g) ↦ rw (f, g) refuses
              ])
      ])

module _ {ℓ} {A : Type ℓ} where
  -- The loops over digits end where the reference does.
  pub Reads-digits :
      (loop : ℕ → Bytes → ℕ → A → A × ℕ) (next : A → ℕ → A)
      → ((body : Bytes) (p : ℕ) (n : A) → loop 0 body p n ≡ (n, p))
      → ((k : ℕ) (body : Bytes) (p c : ℕ) (n : A)
          → get_elem? body p ≡ some c
          → loop (suc k) body p n ≡ (if is_digit c then loop k body (p + 1) (next n c) else (n, p)))
      → {body : Bytes} (s : Bytes) (p : ℕ) (n : A) → At body p s
      → Reads body (loop (length s) body p n) (digits next n s)
  unfolding digits
  Reads-digits loop next done step [] p n a = rw done (refl, a)
  Reads-digits loop next done step {body} (c ∷ s) p n a = elim (Bool-cases (is_digit c)) [
    | inl e ↦
        rw (step (length s) body p c n (At-head a), e, digits)
          (Reads-digits loop next done step s (p + 1) (next n c) (At-tail a))
    | inr e ↦ rw (step (length s) body p c n (At-head a), e, digits) (refl, a)
  ]

digit_at-starts_digit :
    {body : Bytes} {p : ℕ} (s : Bytes) → At body p s → digit_at body p ≡ starts_digit s
digit_at-starts_digit [] a = rw (digit_at, At-nil a)
digit_at-starts_digit (c ∷ s) a = rw (digit_at, At-head a)

int32_loop-digits :
    {body : Bytes} (s : Bytes) (p n : ℕ)
    → At body p s
    → Reads body (int32_loop (length s) body p n) (digits next_int32 n s)
unfolding int32_loop
int32_loop-digits =
    Reads-digits int32_loop next_int32 (λ body p n. refl) λ k body p c n e. rw (e, int32_loop)

pub read_int32_at-integer :
    {body : Bytes} {p : ℕ} {s : Bytes}
    → At body p s
    → Follows (Reads body) (read_int32_at body p) (integer s)
unfolding read_int32_at integer
read_int32_at-integer {body} {p} {s} a =
    let b = skip_spaces-At a in
    let (same, c) = int32_loop-digits (trim s) _ 0 b in
    rw (digit_at-starts_digit (trim s) b, At-length b)
      (Follows-if (starts_digit (trim s)) (λ _. gives (ap signed32 same, skip_spaces-At c))
        λ _. refuses)

checked-Follows {ℓ} : {A : Type ℓ} (o : Option A) → Follows ◌≡◌ (checked o) o
checked-Follows (some a) = gives refl
checked-Follows none = refuses

module _ (go : Runtime) where
  open go use {Float64, literal64, narrow, mul64}

  whole_loop-digits :
      {body : Bytes} (s : Bytes) (p : ℕ) (n : Float64)
      → At body p s
      → Reads body (whole_loop go (length s) body p n) (digits (next_whole go) n s)
  unfolding whole_loop
  whole_loop-digits =
      Reads-digits (whole_loop go) (next_whole go) (λ body p n. refl)
        λ k body p c n e. rw (e, whole_loop)

  fraction_loop-digits :
      {body : Bytes} (s : Bytes) (p : ℕ) (n scale : Float64)
      → At body p s
      → (let (m, q) = fraction_loop go (length s) body p n scale in
          let (d, r) = digits (next_fraction_digit go) (n, scale) s in (m ≡ d.0) × At body q r)
  unfolding fraction_loop digits
  fraction_loop-digits [] p n scale a = (refl, a)
  fraction_loop-digits (c ∷ s) p n scale a = elim (Bool-cases (is_digit c)) [
    | inl e ↦
        rw (At-head a, fraction_loop, e, digits) (fraction_loop-digits s (p + 1) _ _ (At-tail a))
    | inr e ↦ rw (At-head a, fraction_loop, e, digits) (refl, a)
  ]

  fraction_at-fraction :
      {body : Bytes} (e : ℕ) (r : Bytes) (n : Float64)
      → At body e r
      → Reads body (fraction_at go body e n) (fraction go n r)
  unfolding fraction_at fraction
  fraction_at-fraction e [] n a = rw (byte_is, At-nil a) (refl, a)
  fraction_at-fraction e (c ∷ r) n a = elim (Bool-cases (c == b'.')) [
    | inl h ↦
        rw (byte_is, At-head a, h, At-length (At-tail a))
          (fraction_loop-digits r (e + 1) n _ (At-tail a))
    | inr h ↦ rw (byte_is, At-head a, h) (refl, a)
  ]

  fraction_at-fraction_of_eq :
      {body : Bytes} {e : ℕ} {r : Bytes} {n m : Float64}
      → n ≡ m
      → At body e r
      → Reads body (fraction_at go body e n) (fraction go m r)
  fraction_at-fraction_of_eq {body} {e} {r} {n} same a =
      subst (λ m. Reads body (fraction_at go body e n) (fraction go m r)) same
        (fraction_at-fraction e r n a)

  minus-At :
      {body : Bytes} (p : ℕ) (s : Bytes)
      → At body p s
      → (byte_is body p b'-' ≡ (minus go s).0)
        × At body (if byte_is body p b'-' then p + 1 else p) (minus go s).1
  minus-At p [] a = rw (byte_is, At-nil a) (refl, a)
  minus-At p (c ∷ s) a = elim (Bool-cases (c == b'-')) [
    | inl h ↦ rw (byte_is, At-head a, h) (refl, At-tail a)
    | inr h ↦ rw (byte_is, At-head a, h) (refl, a)
  ]

  pub read_float32_at-float :
      {body : Bytes} {p : ℕ} {s : Bytes}
      → At body p s
      → Follows (Reads body) (read_float32_at go body p) (float go s)
  unfolding read_float32_at float unsigned
  read_float32_at-float {body} {p} {s} a =
      let (signs, b) = minus-At _ (trim s) (skip_spaces-At a) in
      let t = (minus go (trim s)).1 in
      let (same, c) = whole_loop-digits t _ (literal64 (pos 0) 0) b in
      let (number, d) = fraction_at-fraction_of_eq same c in
      let value = λ (m : Float64) (negative : Bool). narrow (mul64 (sign_of go negative) m) in
      elim (Bool-cases (starts_digit t)) [
        | inl e ↦
            rw (digit_at-starts_digit t b, At-length b, e)
              (gives (ap₂ value number signs, skip_spaces-At d))
        | inr e ↦ rw (digit_at-starts_digit t b, At-length b, e) refuses
      ]

  pub read_time_at-instant :
      {body : Bytes} {p : ℕ} {s : Bytes}
      → At body p s
      → Follows (Reads body) (read_time_at go body p) (instant go s)
  unfolding read_time_at instant
  read_time_at-instant a = Follows-bind (read_string_at-text a) λ (t, q) (t', r) (same, b).
      rw (same) (Follows-bind (checked-Follows (parse_fixed_utc go t')) λ u v e. gives (e, b))
