-- ===== src/Persist/Codec.antt =====
-- Reading back what is written: numbers, int32 sections and the header.
use mathlib.Core.List.{append_assoc}
use fraud_detection_api.Base.{
  unsigned32, ℕ, zero, suc, ◌+◌, ◌*◌, ◌/◌, ◌%◌, ◌^◌, ◌<◌, ◌≡◌, refl, sym, ◌∙◌, ap, ℤ, pos, negsuc,
  signed32, List, [], ◌∷◌, ◌++◌, length, length-append, All, Bytes, arith,
}
use fraud_detection_api.Run.{Run, ok, ◌>>=◌}
use fraud_detection_api.Persist.{Span, Header, le, int32_bytes, concat, header_bytes}
use fraud_detection_api.Persist.Load.{read_le, read_raw, read_span, read_header, int32s}

pub length-le : (k x : ℕ) → length (le k x) ≡ k
unfolding le
length-le zero x = refl
length-le (suc k) x = ap suc (length-le k (x / 256))

read_le-le : (k x : ℕ) (rest : Bytes) → x < 256 ^ k → read_le k (le k x ++ rest) ≡ ok (x, rest)
unfolding read_le le
read_le-le zero x rest h = ap (λ y. ok (y, rest)) (ground arith)
read_le-le (suc k) x rest h =
    let power : 256 ^ suc k ≡ 256 * 256 ^ k = ground arith in
    let value : x % 256 + 256 * (x / 256) ≡ x = omega arith in
    rw (read_le-le k (x / 256) rest (omega arith)) (ap (λ y. ok (y, rest)) value)

pub read_raw-append : (s rest : Bytes) → read_raw (length s) (s ++ rest) ≡ ok (s, rest)
unfolding read_raw
read_raw-append [] rest = refl
read_raw-append (b ∷ s) rest = rw (read_raw-append s rest) refl

-- An int32.
abbrev pub IsInt32 : ℤ → Type 0
IsInt32 (pos n) = n < 2 ^ 31
IsInt32 (negsuc n) = n < 2 ^ 31

pub signed32-unsigned32 : (x : ℤ) → IsInt32 x → signed32 (unsigned32 x) ≡ x
signed32-unsigned32 (pos n) h = ground arith
signed32-unsigned32 (negsuc n) h = ground arith

pub unsigned32-lt : (x : ℤ) → unsigned32 x < 2 ^ 32
unsigned32-lt (pos n) = omega arith
unsigned32-lt (negsuc n) = omega arith

pub int32s-int32_bytes : (xs : List ℤ) → All IsInt32 xs → int32s (int32_bytes xs) ≡ xs
unfolding int32s int32_bytes le
int32s-int32_bytes [] h = refl
int32s-int32_bytes (x ∷ xs) h =
    let small = unsigned32-lt x in
    let u = unsigned32 x in
    let value : u % 256
          + 256 * (u / 256 % 256 + 256 * (u / 256 / 256 % 256 + 256 * (u / 256 / 256 / 256 % 256)))
        ≡ u =
      omega arith in
    rw (value, signed32-unsigned32 x h.0, int32s-int32_bytes xs h.1) refl

pub length-int32_bytes : (xs : List ℤ) → length (int32_bytes xs) ≡ 4 * length xs
unfolding int32_bytes le
length-int32_bytes [] = refl
length-int32_bytes (x ∷ xs) = omega (arith, length-int32_bytes xs)

-- One field in front of others.
field :
    (k x : ℕ) (fields : List Bytes) (rest : Bytes)
    → x < 256 ^ k
    → read_le k (concat (le k x ∷ fields) ++ rest) ≡ ok (x, concat fields ++ rest)
unfolding concat
field k x fields rest h =
    ap (read_le k) (append_assoc (le k x) (concat fields) rest)
    ∙ read_le-le k x (concat fields ++ rest) h

step :
    {A B : Type 0} {r : Run A} {a : A} {b : Run B} (f : A → Run B)
    → r ≡ ok a
    → f a ≡ b
    → (r >>= f) ≡ b
step f e g = ap (λ r. r >>= f) e ∙ g

span :
    (s : Span) (fields : List Bytes) (rest : Bytes)
    → (s.off < 2 ^ 64) × (s.len < 2 ^ 64)
    → read_span (concat (le 8 s.off ∷ le 8 s.len ∷ fields) ++ rest) ≡ ok (s, concat fields ++ rest)
unfolding read_span
span s fields rest (h, k) =
    step _ (field 8 s.off (le 8 s.len ∷ fields) rest h) (step _ (field 8 s.len fields rest k) refl)

-- The offset and the length fit their fields.
abbrev pub SpanFits : Span → Type 0
SpanFits s = (s.off < 2 ^ 64) × (s.len < 2 ^ 64)

-- Every field of the header fits.
pub record HeaderFits (h : Header) : Type 0 where
  pub magic_size : length h.magic ≡ 8
  pub version_lt : h.version < 2 ^ 32
  pub n_lt : h.n < 2 ^ 32
  pub m_lt : h.m < 2 ^ 32
  pub m0_lt : h.m0 < 2 ^ 32
  pub entry_lt : h.entry_point < 2 ^ 32
  pub max_layer_ok : IsInt32 h.max_layer
  pub vectors_fit : SpanFits h.vectors
  pub conn0_cnt_fit : SpanFits h.conn0_cnt
  pub conn0_fit : SpanFits h.conn0
  pub labels_fit : SpanFits h.labels
  pub upper_off_fit : SpanFits h.upper_off
  pub upper_nodes_fit : SpanFits h.upper_nodes
  pub upper_cnt_fit : SpanFits h.upper_cnt
  pub upper_conn_fit : SpanFits h.upper_conn

raw :
    (s : Bytes) (fields : List Bytes) (rest : Bytes)
    → length s ≡ 8
    → read_raw 8 (concat (s ∷ fields) ++ rest) ≡ ok (s, concat fields ++ rest)
unfolding concat
raw s fields rest e =
    ap (λ k. read_raw k (s ++ concat fields ++ rest)) (sym e)
    ∙ ap (read_raw (length s)) (append_assoc s (concat fields) rest)
    ∙ read_raw-append s (concat fields ++ rest)

pub read_header-header_bytes :
    (h : Header) (rest : Bytes) → HeaderFits h → read_header (header_bytes h ++ rest) ≡ ok h
unfolding read_header header_bytes
read_header-header_bytes h rest f =
    let t0 : List Bytes = [] in
    let t1 = le 8 h.upper_conn.off ∷ le 8 h.upper_conn.len ∷ t0 in
    let t2 = le 8 h.upper_cnt.off ∷ le 8 h.upper_cnt.len ∷ t1 in
    let t3 = le 8 h.upper_nodes.off ∷ le 8 h.upper_nodes.len ∷ t2 in
    let t4 = le 8 h.upper_off.off ∷ le 8 h.upper_off.len ∷ t3 in
    let t5 = le 8 h.labels.off ∷ le 8 h.labels.len ∷ t4 in
    let t6 = le 8 h.conn0.off ∷ le 8 h.conn0.len ∷ t5 in
    let t7 = le 8 h.conn0_cnt.off ∷ le 8 h.conn0_cnt.len ∷ t6 in
    let t8 = le 8 h.vectors.off ∷ le 8 h.vectors.len ∷ t7 in
    let t9 = le 4 (unsigned32 h.max_layer) ∷ t8 in
    let t10 = le 4 h.entry_point ∷ t9 in
    let t11 = le 4 h.m0 ∷ t10 in
    let t12 = le 4 h.m ∷ t11 in
    let t13 = le 4 h.n ∷ t12 in
    let t14 = le 4 h.version ∷ t13 in
    step _ (raw h.magic t14 rest f.magic_size) (
      step _ (field 4 h.version t13 rest f.version_lt) (
        step _ (field 4 h.n t12 rest f.n_lt) (
          step _ (field 4 h.m t11 rest f.m_lt) (
            step _ (field 4 h.m0 t10 rest f.m0_lt) (
              step _ (field 4 h.entry_point t9 rest f.entry_lt) (
                step _ (field 4 (unsigned32 h.max_layer) t8 rest (unsigned32-lt h.max_layer)) (
                  step _ (span h.vectors t7 rest f.vectors_fit) (
                    step _ (span h.conn0_cnt t6 rest f.conn0_cnt_fit) (
                      step _ (span h.conn0 t5 rest f.conn0_fit) (
                        step _ (span h.labels t4 rest f.labels_fit) (
                          step _ (span h.upper_off t3 rest f.upper_off_fit) (
                            step _ (span h.upper_nodes t2 rest f.upper_nodes_fit) (
                              step _ (span h.upper_cnt t1 rest f.upper_cnt_fit) (
                                step _ (span h.upper_conn t0 rest f.upper_conn_fit) (
                                  ap (λ x. ok (record h { max_layer = x }))
                                    (signed32-unsigned32 h.max_layer f.max_layer_ok))))))))))))))))

pub length-header_bytes : (h : Header) → length h.magic ≡ 8 → length (header_bytes h) ≡ 160
unfolding header_bytes concat le
length-header_bytes h e = omega (arith, length-append {0} h.magic)
