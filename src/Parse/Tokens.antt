-- ===== src/Parse/Tokens.antt =====
-- The reference readers on the tokens that a document is written in: each returns what was written,
-- and leaves the bytes behind the token, trimmed.
use mathlib.Core.List.{foldl, append-nil, append_assoc}
use fraud_detection_api.Base.{
  ℕ, zero, suc, ◌≡◌, refl, ◌∙◌, ap, Bool, true, false, List, [], ◌∷◌, ◌++◌, Option, none, some,
  ◌==◌, ==_refl, Bool-cases, Bytes, length, arith, All, ◌<◌, length-append, pos, inl, inr,
  length-append,
}
use fraud_detection_api.Maybe.{◌>>=◌}
use fraud_detection_api.Runtime.{Runtime}
use fraud_detection_api.Config.{codes}
use fraud_detection_api.Parse.Cursor.{is_space, is_digit}
use fraud_detection_api.Parse.Number.{next_int32, next_whole}
use fraud_detection_api.Parse.Grammar.{
  trim, strip_prefix, starts, starts_digit, byte, key, quoted, text, next_item, items, array, truth,
  digits, integer, next_fraction_digit, fraction, unsigned, float,
}
use fraud_detection_api.Parse.Document.{
  Space, blank_space, line_feed, carriage_return, tab, Decimal, IsPlain, IsNumeral, FractionOk,
  DecimalOk,
}
use fraud_detection_api.Parse.Document.Text.{
  blank, word, mark, quote, point, decimal, truth_text, items_text,
}
use fraud_detection_api.Parse.Document.Meaning.{
  int32_value, whole_value, tenths, fraction_value, decimal_value,
}
use fraud_detection_api.Parse.Numerals.{
  foldl-next_int32, foldl-next_whole, foldl-next_fraction_digit,
}

pub trim-blank : (w : List Space) (s : Bytes) → trim (blank w ++ s) ≡ trim s
unfolding blank
trim-blank [] s = refl
trim-blank (blank_space ∷ w) s = trim-blank w s
trim-blank (line_feed ∷ w) s = trim-blank w s
trim-blank (carriage_return ∷ w) s = trim-blank w s
trim-blank (tab ∷ w) s = trim-blank w s

pub trim-trim : (s : Bytes) → trim (trim s) ≡ trim s
trim-trim [] = refl
trim-trim (c ∷ s) = elim (Bool-cases (is_space c)) [
  | inl e ↦ rw e (trim-trim s)
  | inr e ↦ rw (e, trim) (rw e)
]

-- White space in front of a byte that is none.
pub trim-mark :
    (w : List Space) (c : ℕ) (s : Bytes)
    → is_space c ≡ false
    → trim (trim (blank w ++ (c ∷ s))) ≡ c ∷ s
trim-mark w c s e = trim-trim (blank w ++ (c ∷ s)) ∙ trim-blank w (c ∷ s) ∙ rw e

-- One step of a chain of readers.
pub step {ℓ κ} :
    {A : Type ℓ} {B : Type κ} {m : Option A} {a : A} {r : Option B} (f : A → Option B)
    → m ≡ some a
    → f a ≡ r
    → (m >>= f) ≡ r
step f e h = rw e h

pub byte-mark :
    (w : List Space) (c : ℕ) (rest : Bytes)
    → is_space c ≡ false
    → byte c (trim (mark w c rest)) ≡ some (trim rest)
unfolding byte
byte-mark w c rest e = rw (trim-mark w c rest e, ==_refl)

pub byte-left : (s : Bytes) (c : ℕ) (rest : Bytes) → trim s ≡ c ∷ rest → byte c s ≡ some (trim rest)
unfolding byte
byte-left s c rest e = rw (e, ==_refl)

strip_prefix-append : (name s : Bytes) → strip_prefix name (name ++ s) ≡ some s
strip_prefix-append [] s = refl
strip_prefix-append (x ∷ name) s = ground (arith, strip_prefix-append name s)

pub key-word :
    (w v : List Space) (c : ℕ) (name rest : Bytes)
    → is_space c ≡ false
    → key (c ∷ name) (trim (word w (c ∷ name) (mark v b':' rest))) ≡ some (trim rest)
unfolding key
key-word w v c name rest e =
    rw (trim-mark w c (name ++ mark v b':' rest) e, ==_refl, strip_prefix-append, trim-blank)

quoted-text : (t rest : Bytes) → IsPlain t → quoted (t ++ (b'"' ∷ rest)) ≡ some (t, rest)
unfolding quoted
quoted-text [] rest h = refl
quoted-text (c ∷ t) rest h = ground (arith, quoted-text t rest)

pub text-quote :
    (w : List Space) (t rest : Bytes)
    → IsPlain t
    → text (trim (quote w t rest)) ≡ some (t, trim rest)
unfolding text
text-quote w t rest h = rw (trim-mark w b'"' (t ++ (b'"' ∷ rest)) refl, quoted-text t rest h)

pub truth-word :
    (w : List Space) (b : Bool) (rest : Bytes)
    → truth (trim (word w (truth_text b) rest)) ≡ some (b, trim rest)
unfolding truth
truth-word w true rest = rw (trim-mark w b't' (codes "rue" ++ rest) refl, truth)
truth-word w false rest =
    let front : trim (trim (word w (codes "false") rest)) ≡ codes "false" ++ rest =
      trim-mark w b'f' (codes "alse" ++ rest) refl in
    rw (front, truth) (rw front)

-- Digits are read up to the first byte that is none.
digits-append {ℓ} :
    {A : Type ℓ} (next : A → ℕ → A) (n : A) (ds rest : Bytes)
    → All (λ d. is_digit d ≡ true) ds
    → starts_digit rest ≡ false
    → digits next n (ds ++ rest) ≡ (foldl next n ds, rest)
unfolding digits
digits-append next n [] [] h e = refl
digits-append next n [] (c ∷ rest) h e = rw e
digits-append next n (d ∷ ds) rest h e = rw (h.0) (digits-append next (next n d) ds rest h.1 e)

-- What follows a number: neither a digit nor a point.
abbrev pub Stops : Bytes → Type 0
Stops rest = (starts_digit rest ≡ false) × (starts b'.' rest ≡ false)

pub mark-Stops :
    (w : List Space) (c : ℕ) (rest : Bytes)
    → is_digit c ≡ false
    → (c == b'.') ≡ false
    → Stops (mark w c rest)
unfolding blank
mark-Stops [] c rest h k = (h, k)
mark-Stops (blank_space ∷ w) c rest h k = (refl, refl)
mark-Stops (line_feed ∷ w) c rest h k = (refl, refl)
mark-Stops (carriage_return ∷ w) c rest h k = (refl, refl)
mark-Stops (tab ∷ w) c rest h k = (refl, refl)

digit_not_space : (c : ℕ) → is_digit c ≡ true → is_space c ≡ false
digit_not_space c h = ground arith

pub integer-word :
    (w : List Space) (ds rest : Bytes)
    → IsNumeral ds
    → Stops rest
    → integer (trim (word w ds rest)) ≡ some (int32_value ds, trim rest)
unfolding integer
integer-word w [] rest h e = absurd h
integer-word w (c ∷ ds) rest h e = rw (
  trim-mark w c (ds ++ rest) (digit_not_space c h.0),
  h.0,
  digits-append next_int32 0 (c ∷ ds) rest h e.0,
  foldl-next_int32 (c ∷ ds),
)

module _ (go : Runtime) where
  open go use {Float64, literal64}

  fraction-point :
      (n : Float64) (f : Option Bytes) (rest : Bytes)
      → FractionOk f
      → Stops rest
      → fraction go n (point f rest) ≡ (fraction_value go n f, rest)
  unfolding fraction tenths
  fraction-point n none [] h e = refl
  fraction-point n none (c ∷ rest) h e = rw (e.1)
  fraction-point n (some s) rest h e =
      rw (digits-append (next_fraction_digit go) (n, tenths go 0) s rest h e.0)
        (ap (λ m. (m, rest)) (foldl-next_fraction_digit go n 0 s))

  point-starts_digit :
      (f : Option Bytes) (rest : Bytes) → Stops rest → starts_digit (point f rest) ≡ false
  point-starts_digit none rest e = e.0
  point-starts_digit (some s) rest e = refl

  unsigned-text :
      (c : ℕ) (ds : Bytes) (f : Option Bytes) (rest : Bytes)
      → IsNumeral (c ∷ ds)
      → FractionOk f
      → Stops rest
      → unsigned go (c ∷ (ds ++ point f rest))
        ≡ some (fraction_value go (whole_value go (c ∷ ds)) f, rest)
  unfolding unsigned
  unsigned-text c ds f rest h k e = rw (
    h.0,
    digits-append (next_whole go) (literal64 (pos 0) 0) (c ∷ ds) (point f rest) h
        (point-starts_digit f rest e),
    foldl-next_whole go (literal64 (pos 0) 0) (c ∷ ds),
    fraction-point _ f rest k e,
  )

  float-text :
      (w : List Space) (negative : Bool) (whole : Bytes) (f : Option Bytes) (rest : Bytes)
      → IsNumeral whole
      → FractionOk f
      → Stops rest
      → (let d : Decimal = record { negative = negative; whole = whole; fraction = f } in
          float go (trim (decimal w d rest)) ≡ some (decimal_value go d, trim rest))
  unfolding float
  float-text w negative [] f rest h k e = absurd h
  float-text w true (c ∷ ds) f rest h k e =
      rw (trim-mark w b'-' (c ∷ (ds ++ point f rest)) refl, unsigned-text c ds f rest h k e)
  float-text w false (c ∷ ds) f rest h k e =
      let minus_not : (c == b'-') ≡ false = (let digit = h.0 in ground arith) in
      rw (
        trim-mark w c (ds ++ point f rest) (digit_not_space c h.0),
        minus_not,
        unsigned-text c ds f rest h k e,
      )

  pub float-decimal :
      (w : List Space) (d : Decimal) (rest : Bytes)
      → DecimalOk d
      → Stops rest
      → float go (trim (decimal w d rest)) ≡ some (decimal_value go d, trim rest)
  float-decimal w d rest h e =
      float-text w d.negative d.whole d.fraction rest h.whole_ok h.fraction_ok e

text-front : (t rest : Bytes) → IsPlain t → text (b'"' ∷ (t ++ (b'"' ∷ rest))) ≡ some (t, trim rest)
unfolding text
text-front t rest h = rw (quoted-text t rest h)

items-text :
    (k : ℕ) (w : List Space) (dst ts : List Bytes) (rest : Bytes)
    → All IsPlain ts
    → length (items_text w ts rest) < k
    → items k dst (items_text w ts rest) ≡ some (dst ++ ts, trim rest)
unfolding items items_text
items-text zero w dst ts rest h l = absurd (omega arith)
items-text (suc k) w dst [] rest h l = rw (trim-blank, items, append-nil)
items-text (suc k) w dst (t ∷ []) rest h l =
    rw (trim-blank, items, text-front t (mark w b']' rest) h.0)
      (rw (trim-mark w b']' rest refl, next_item))
items-text (suc k) w dst (t ∷ u ∷ ts) rest h l =
    let more = items_text w (u ∷ ts) rest in
    let shorter : length more < k = omega (
      arith,
      length-append {0} (blank w) (b'"' ∷ (t ++ (b'"' ∷ mark w b',' more))),
      length-append {0} t (b'"' ∷ mark w b',' more),
      length-append {0} (blank w) (b',' ∷ more),
    ) in
    rw (trim-blank, items, text-front t (mark w b',' more) h.0)
      (rw (trim-mark w b',' more refl, next_item)
        (items-text k w (dst ++ t ∷ []) (u ∷ ts) rest h.1 shorter
          ∙ rw (append_assoc dst (t ∷ []) (u ∷ ts))))

pub array-items :
    (v w : List Space) (ts : List Bytes) (rest : Bytes)
    → All IsPlain ts
    → array (trim (mark v b'[' (items_text w ts rest))) ≡ some (ts, trim rest)
unfolding array
array-items v w ts rest h =
    rw (trim-mark v b'[' (items_text w ts rest) refl) (items-text _ w [] ts rest h (omega arith))
