-- ===== src/Persist/Checked.antt =====
-- What the loader has checked of a graph that it accepts, and when it cannot panic.
use fraud_detection_api.Base.{
  ℕ, zero, suc, ◌+◌, ◌*◌, ◌/◌, ◌%◌, ◌^◌, ◌<◌, ◌≡◌, refl, ℤ, inl, inr, Bool, true, false, not,
  Bool-cases, List, [], ◌∷◌, length, take, Bytes, bytes_eq, arith, ltb, ◌==◌, if◌then◌else◌,
}
use fraud_detection_api.Run.{Run, ok, err, ◌>>=◌}
use fraud_detection_api.Graph.{Graph}
use fraud_detection_api.Graph.WellFormed.{cut-take}
use fraud_detection_api.Persist.{magic_str, Span, Header}
use fraud_detection_api.Persist.Load.{
  read_le, read_raw, read_span, read_header, bind_bytes, bind_int32, require, sizes_ok,
  bind_sections, load_from_bytes,
}

-- The run returns a value that satisfies `P`, or an error value: it does not panic.
pub data Settles {ℓ κ} {A : Type ℓ} (P : A → Type κ) : Run A → Type (ℓ ⊔ κ) where
  settles : {a : A} → P a → Settles P (ok a)
  fails : Settles P err

Settles-bind {ℓ κ ℓ' κ'} :
    {A : Type ℓ} {P : A → Type κ} {B : Type ℓ'} {Q : B → Type κ'} {r : Run A} {f : A → Run B}
    → Settles P r
    → ((a : A) → P a → r ≡ ok a → Settles Q (f a))
    → Settles Q (r >>= f)
Settles-bind (settles p) k = k _ p refl
Settles-bind fails k = fails

Settles-require {ℓ κ} :
    {A : Type ℓ} {P : A → Type κ} {r : Run A} (test : Bool)
    → (test ≡ true → Settles P r)
    → Settles P (require test r)
Settles-require true k = k refl
Settles-require false k = fails

eq_of : (x y : ℕ) → (x == y) ≡ true → x ≡ y
eq_of x y h = ground arith

abbrev Any {ℓ} : {A : Type ℓ} → A → Type 0
Any _ = Unit {0}

-- The sum of offset and length stays below 2 ^ 64.
abbrev pub Unwrapped : Span → Type 0
Unwrapped s = s.off + s.len < 2 ^ 64

pub record HeaderUnwrapped (h : Header) : Type 0 where
  pub vectors_ok : Unwrapped h.vectors
  pub conn0_cnt_ok : Unwrapped h.conn0_cnt
  pub conn0_ok : Unwrapped h.conn0
  pub labels_ok : Unwrapped h.labels
  pub upper_off_ok : Unwrapped h.upper_off
  pub upper_nodes_ok : Unwrapped h.upper_nodes
  pub upper_cnt_ok : Unwrapped h.upper_cnt
  pub upper_conn_ok : Unwrapped h.upper_conn

-- The sizes that the loader compares.
pub record SizesChecked (g : Graph) : Type 0 where
  pub vectors_size : length g.vectors ≡ (g.n * 14) % 2 ^ 64
  pub conn0_size : length g.conn0 ≡ (g.n * g.m0) % 2 ^ 64
  pub conn0_cnt_size : length g.conn0_cnt ≡ g.n
  pub labels_size : length g.labels ≡ ((g.n + 7) % 2 ^ 32) / 8

read_le-Settles : (k : ℕ) (bytes : Bytes) → Settles Any (read_le k bytes)
unfolding read_le
read_le-Settles zero bytes = settles tt
read_le-Settles (suc k) [] = fails
read_le-Settles (suc k) (b ∷ bytes) = Settles-bind (read_le-Settles k bytes) λ a p e. settles tt

read_raw-Settles : (k : ℕ) (bytes : Bytes) → Settles Any (read_raw k bytes)
unfolding read_raw
read_raw-Settles zero bytes = settles tt
read_raw-Settles (suc k) [] = fails
read_raw-Settles (suc k) (b ∷ bytes) = Settles-bind (read_raw-Settles k bytes) λ a p e. settles tt

read_span-Settles : (bytes : Bytes) → Settles Any (read_span bytes)
unfolding read_span
read_span-Settles bytes =
    Settles-bind (read_le-Settles 8 bytes)
      λ (off, bytes) p e. Settles-bind (read_le-Settles 8 bytes) λ a q f. settles tt

read_header-Settles : (bytes : Bytes) → Settles Any (read_header bytes)
unfolding read_header
read_header-Settles bytes = Settles-bind (read_raw-Settles 8 bytes) λ (_, b) _ _.
    Settles-bind (read_le-Settles 4 b) λ (_, b) _ _.
      Settles-bind (read_le-Settles 4 b) λ (_, b) _ _.
        Settles-bind (read_le-Settles 4 b) λ (_, b) _ _.
          Settles-bind (read_le-Settles 4 b) λ (_, b) _ _.
            Settles-bind (read_le-Settles 4 b) λ (_, b) _ _.
              Settles-bind (read_le-Settles 4 b) λ (_, b) _ _.
                Settles-bind (read_span-Settles b) λ (_, b) _ _.
                  Settles-bind (read_span-Settles b) λ (_, b) _ _.
                    Settles-bind (read_span-Settles b) λ (_, b) _ _.
                      Settles-bind (read_span-Settles b) λ (_, b) _ _.
                        Settles-bind (read_span-Settles b) λ (_, b) _ _.
                          Settles-bind (read_span-Settles b) λ (_, b) _ _.
                            Settles-bind (read_span-Settles b)
                              λ (_, b) _ _. Settles-bind (read_span-Settles b) λ _ _ _. settles tt

module _ (file : Bytes) where
  bind_bytes-Settles : (s : Span) → Unwrapped s → Settles Any (bind_bytes file s)
  unfolding bind_bytes
  bind_bytes-Settles s u =
      let end : (s.off + s.len) % 2 ^ 64 ≡ s.off + s.len = omega arith in
      rw end (elim (Bool-cases (ltb (length file) (s.off + s.len))) [
        | inl t ↦ rw t fails
        | inr f ↦
            rw (f, cut-take file s.off (s.off + s.len) (omega arith) (ground arith)) (settles tt)
      ])

  bind_int32-Settles : (s : Span) → Unwrapped s → Settles Any (bind_int32 file s)
  unfolding bind_int32
  bind_int32-Settles s u =
      let end : (s.off + s.len) % 2 ^ 64 ≡ s.off + s.len = omega arith in
      rw end (elim (Bool-cases (ltb (length file) (s.off + s.len))) [
        | inl t ↦ rw t fails
        | inr f ↦
            rw (f, cut-take file s.off (s.off + s.len) (omega arith) (ground arith))
              (unless (not (s.len % 4 == 0)) fails (
                unless (s.len == 0) (settles tt)
                  (unless (not (s.off % 4 == 0)) fails (settles tt))))
      ])
    where
      unless :
          {x y : Run (List ℤ)} (b : Bool)
          → Settles Any x
          → Settles Any y
          → Settles Any (if b then x else y)
      unless true p q = p
      unless false p q = q

  bind_sections-Settles : (h : Header) → HeaderUnwrapped h → Settles Any (bind_sections file h)
  unfolding bind_sections
  bind_sections-Settles h u = Settles-bind (bind_bytes-Settles h.vectors u.vectors_ok) λ _ _ _.
      Settles-bind (bind_bytes-Settles h.conn0_cnt u.conn0_cnt_ok) λ _ _ _.
        Settles-bind (bind_int32-Settles h.conn0 u.conn0_ok) λ _ _ _.
          Settles-bind (bind_bytes-Settles h.labels u.labels_ok) λ _ _ _.
            Settles-bind (bind_int32-Settles h.upper_off u.upper_off_ok) λ _ _ _.
              Settles-bind (bind_int32-Settles h.upper_nodes u.upper_nodes_ok) λ _ _ _.
                Settles-bind (bind_bytes-Settles h.upper_cnt u.upper_cnt_ok) λ _ _ _.
                  Settles-bind (bind_int32-Settles h.upper_conn u.upper_conn_ok) λ _ _ _. settles tt

  -- The loader neither panics nor runs forever on a file whose header, if it is read, has no
  -- section with an offset and a length that wrap around: it returns an error value, or a graph
  -- whose vectors, layer-0 tables and labels have the sizes that it compares.
  pub load_from_bytes-SizesChecked :
      ((h : Header) → read_header (take 256 file) ≡ ok h → HeaderUnwrapped h)
      → Settles SizesChecked (load_from_bytes file)
  unfolding load_from_bytes sizes_ok
  load_from_bytes-SizesChecked unwrapped = Settles-require (not (ltb (length file) 256)) λ _.
      Settles-bind (read_header-Settles (take 256 file)) λ h _ read.
        Settles-require (bytes_eq (take 7 h.magic) magic_str) λ _.
          Settles-require (h.version == 1) λ _.
            Settles-bind (bind_sections-Settles h (unwrapped h read)) λ g _ _.
              Settles-require (length g.vectors == (g.n * 14) % 2 ^ 64) λ vectors.
                Settles-require (length g.conn0 == (g.n * g.m0) % 2 ^ 64) λ conn0.
                  Settles-require (length g.conn0_cnt == g.n) λ counts.
                    Settles-require (length g.labels == ((g.n + 7) % 2 ^ 32) / 8) λ labels.
                      settles (record {
                        vectors_size = eq_of _ _ vectors;
                        conn0_size = eq_of _ _ conn0;
                        conn0_cnt_size = eq_of _ _ counts;
                        labels_size = eq_of _ _ labels;
                      })
