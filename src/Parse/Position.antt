-- ===== src/Parse/Position.antt =====
-- A position in the body and the bytes that it leaves, and the readers of one byte, key, string or
-- truth value against the reference.
use native.Mathlib.Numerals.{add-one}
use Prim.Native.Nat.add
use fraud_detection_api.Base.{
  ℕ, zero, suc, ◌+◌, ◌-◌, ◌≤◌, ◌<◌, ◌≡◌, refl, sym, ◌∙◌, ap, true, false, [], ◌∷◌, Option, none,
  some, ◌==◌, leb, if◌then◌else◌, Bool-cases, Bytes, length, get_elem?, drop, length-drop, arith,
  inl, inr, ◌⊎◌,
}
use fraud_detection_api.Run.{Run, ok, err}
use fraud_detection_api.Maybe
use fraud_detection_api.Follows.{Follows, gives, refuses}
use fraud_detection_api.Parse.Cursor.{
  is_space, skip_loop, skip_spaces, prefix_loop, has_prefix, slice_from, byte_is, expect_byte,
  expect_comma, expect_key_at,
}
use fraud_detection_api.Parse.Grammar.{trim, strip_prefix, front, byte, key}

-- `p` is a position of `body`, and `s` is `body[p:]`.
pub record At (body : Bytes) (p : ℕ) (s : Bytes) : Type 0 where
  pub within : p ≤ length body
  pub left : drop p body ≡ s

drop_cons :
    (body : Bytes) (p c : ℕ) (s : Bytes)
    → drop p body ≡ c ∷ s
    → (p < length body) × (get_elem? body p ≡ some c) × (drop (suc p) body ≡ s)
drop_cons [] zero c s e = cc
drop_cons [] (suc p) c s e = cc
drop_cons (x ∷ body) zero c s e = (omega arith, ground arith, ground arith)
drop_cons (x ∷ body) (suc p) c s e = let (a, b, d) = drop_cons body p c s e in (omega arith, b, d)

drop_nil : (body : Bytes) (p : ℕ) → drop p body ≡ [] → get_elem? body p ≡ none
drop_nil [] zero e = refl
drop_nil [] (suc p) e = refl
drop_nil (x ∷ body) zero e = cc
drop_nil (x ∷ body) (suc p) e = drop_nil body p e

module _ {body : Bytes} {p : ℕ} where
  pub At-nil : At body p [] → get_elem? body p ≡ none
  At-nil a = drop_nil body p a.left

  pub At-head : {c : ℕ} {s : Bytes} → At body p (c ∷ s) → get_elem? body p ≡ some c
  At-head a = (drop_cons body p _ _ a.left).1

  pub At-tail : {c : ℕ} {s : Bytes} → At body p (c ∷ s) → At body (p + 1) s
  At-tail a =
      let (inside, at, rest) = drop_cons body p _ _ a.left in
      record { within = omega arith; left = rw add-one rest }

  pub At-length : {s : Bytes} → At body p s → length body - p ≡ length s
  At-length a = sym (length-drop p body) ∙ ap length a.left

-- A byte test, and what is done behind the byte.
pub byte_is-front {ℓ κ ν} :
    {A : Type ℓ} {B : Type κ} {R : A → B → Type ν} {body : Bytes} {p : ℕ} {s : Bytes} (c : ℕ)
    {x : Run A} {g : Bytes → Option B}
    → At body p s
    → ((r : Bytes) → At body (p + 1) r → Follows R x (g r))
    → Follows R (if byte_is body p c then x else err) (Maybe.◌>>=◌ (front c s) g)
byte_is-front {s = []} c a k = rw (byte_is, At-nil a) refuses
byte_is-front {body} {p} {s = b ∷ s} c a k = elim (Bool-cases (b == c)) [
  | inl e ↦ rw (byte_is, At-head a, e) (k s (At-tail a))
  | inr e ↦ rw (byte_is, At-head a, e) refuses
]

skip_loop-At :
    (s : Bytes) {body : Bytes} {p : ℕ}
    → At body p s
    → At body (skip_loop (length s) body p) (trim s)
unfolding skip_loop
skip_loop-At [] a = a
skip_loop-At (c ∷ s) {body} {p} a = elim (Bool-cases (is_space c)) [
  | inl e ↦ rw (At-head a, skip_loop, e) (skip_loop-At s (At-tail a))
  | inr e ↦ rw (At-head a, skip_loop, e) a
]

-- Skipping spaces is trimming.
pub skip_spaces-At :
    {body : Bytes} {p : ℕ} {s : Bytes} → At body p s → At body (skip_spaces body p) (trim s)
unfolding skip_spaces
skip_spaces-At {s} a = rw (At-length a) (skip_loop-At s a)

pub expect_byte-byte :
    {body : Bytes} {p : ℕ} {s : Bytes} (c : ℕ)
    → At body p s
    → Follows (At body) (expect_byte body p c) (byte c s)
unfolding expect_byte byte
expect_byte-byte c a = byte_is-front c (skip_spaces-At a) λ r b. gives (skip_spaces-At b)

pub expect_comma-byte :
    {body : Bytes} {p : ℕ} {s : Bytes}
    → At body p s
    → Follows (At body) (expect_comma body p) (byte b',' s)
unfolding expect_comma
expect_comma-byte a = expect_byte-byte b',' a

-- The prefix test, and where the prefix ends.
pub prefix_loop-strip_prefix :
    (name s : Bytes)
    → ((prefix_loop s name ≡ false) × (strip_prefix name s ≡ none))
      ⊎ ((r : Bytes) × (prefix_loop s name ≡ true)
          × (strip_prefix name s ≡ some r)
          × (length name ≤ length s)
          × (drop (length name) s ≡ r))
unfolding prefix_loop
prefix_loop-strip_prefix [] s = inr (s, refl, refl, omega arith, refl)
prefix_loop-strip_prefix (x ∷ name) [] = inl (refl, refl)
prefix_loop-strip_prefix (x ∷ name) (c ∷ s) = elim (Bool-cases (c == x)) [
  | inl e ↦ elim (prefix_loop-strip_prefix name s) [
    | inl (f, g) ↦ inl (rw e f, rw e g)
    | inr (r, f, g, l, d) ↦ inr (r, rw e f, rw e g, omega arith, d)
  ]
  | inr e ↦ inl (rw e, rw e)
]

prefix_loop_short : (name s : Bytes) → length s < length name → prefix_loop s name ≡ false
unfolding prefix_loop
prefix_loop_short [] s h = absurd (omega arith)
prefix_loop_short (x ∷ name) [] h = refl
prefix_loop_short (x ∷ name) (c ∷ s) h = ground (arith, prefix_loop_short name s)

-- The length test does not change the result.
pub has_prefix-prefix_loop : (s name : Bytes) → has_prefix s name ≡ prefix_loop s name
unfolding has_prefix
has_prefix-prefix_loop s name = ground (arith, prefix_loop_short name s)

drop-add : (a b : ℕ) (body : Bytes) → drop (a + b) body ≡ drop b (drop a body)
drop-add zero b body = rw add.zero
drop-add (suc a) zero [] = rw add.suc
drop-add (suc a) (suc b) [] = rw add.suc
drop-add (suc a) b (x ∷ body) = rw add.suc (drop-add a b body)

-- Behind a prefix of what is left.
pub At-add :
    {body : Bytes} {p : ℕ} {s r : Bytes} (n : ℕ)
    → At body p s
    → n ≤ length s
    → drop n s ≡ r
    → At body (p + n) r
At-add {body} {p} n a h e = record {
  within = omega (arith, At-length a, a.within);
  left = drop-add p n body ∙ ap (drop n) a.left ∙ e;
}

-- The slice behind a position of the body.
pub slice_from-At : {body : Bytes} {p : ℕ} {s : Bytes} → At body p s → slice_from body p ≡ ok s
slice_from-At {body} {p} a =
    let inside : leb p (length body) ≡ true = (let h = a.within in ground arith) in
    rw (inside) (ap ok a.left)

pub expect_key_at-key :
    {body : Bytes} {p : ℕ} {s : Bytes} (name : Bytes)
    → At body p s
    → Follows (At body) (expect_key_at body p name) (key name s)
unfolding expect_key_at key
expect_key_at-key {body} {p} {s} name a =
    let b = skip_spaces-At a in
    rw (slice_from-At b, has_prefix-prefix_loop)
      (elim (prefix_loop-strip_prefix name (trim s)) [
        | inl (f, g) ↦ rw (f, g) refuses
        | inr (r, f, g, l, d) ↦
            rw (f, g)
              (byte_is-front b':' (skip_spaces-At (At-add (length name) b l d))
                λ t c. gives (skip_spaces-At c))
      ])
