-- ===== src/Persist/Sections.antt =====
-- Where a section lies in the file, and that the loader finds it there.
use mathlib.Core.List.{append_assoc, append-nil}
use fraud_detection_api.Base.{
  ℕ, zero, suc, ◌+◌, ◌-◌, ◌*◌, ◌%◌, ◌^◌, ◌<◌, ◌≤◌, ◌≡◌, refl, sym, ◌∙◌, ap, ℤ, true, false,
  Bool-cases, inl, inr, List, [], ◌∷◌, ◌++◌, length, length-append, length-replicate, length-drop,
  take, drop, replicate, take-length_append, drop-length_append, All, Bytes, arith, ltb, ◌==◌,
}
use fraud_detection_api.Run.{ok}
use fraud_detection_api.Graph.{cut}
use fraud_detection_api.Graph.WellFormed.{cut-take}
use fraud_detection_api.Persist.{Span, write_section, int32_bytes}
use fraud_detection_api.Persist.Load.{bind_bytes, bind_int32}
use fraud_detection_api.Persist.Codec.{IsInt32, int32s-int32_bytes, length-int32_bytes}

-- The bytes `sec` stand in the file at `s`, behind the header.
pub record Holds (file sec : Bytes) (s : Span) : Type 0 where
  pub before : Bytes
  pub after : Bytes
  pub split : file ≡ before ++ (sec ++ after)
  pub off_is : length before ≡ s.off
  pub len_is : length sec ≡ s.len
  pub aligned : s.off % 16 ≡ 0
  pub behind : 256 ≤ s.off

-- The file has been appended to.
pub record Grows (file grown : Bytes) : Type 0 where
  pub more : Bytes
  pub is : grown ≡ file ++ more

pub Grows-trans : (a b c : Bytes) → Grows a b → Grows b c → Grows a c
Grows-trans a b c x y = record {
  more = x.more ++ y.more;
  is = y.is ∙ ap (λ f. f ++ y.more) x.is ∙ append_assoc a x.more y.more;
}

pub Holds-Grows : (a b sec : Bytes) (s : Span) → Holds a sec s → Grows a b → Holds b sec s
Holds-Grows a b sec s h g = record {
  before = h.before;
  after = h.after ++ g.more;
  split =
      g.is
      ∙ ap (λ f. f ++ g.more) h.split
      ∙ append_assoc h.before (sec ++ h.after) g.more
      ∙ ap (λ f. h.before ++ f) (append_assoc sec h.after g.more);
  off_is = h.off_is;
  len_is = h.len_is;
  aligned = h.aligned;
  behind = h.behind;
}

-- The effect of one `writeSection`.
pub write_section-Holds :
    (file buf : Bytes)
    → 256 ≤ length file
    → Grows file ((write_section file buf).0)
      × Holds ((write_section file buf).0) buf ((write_section file buf).1)
unfolding write_section
write_section-Holds file buf h = elim (Bool-cases (length file % 16 == 0)) [
  | inl e ↦ rw e (
    record { more = buf; is = refl },
    record {
      before = file;
      after = [];
      split = ap (λ f. file ++ f) (sym (append-nil buf));
      off_is = refl;
      len_is = refl;
      aligned = ground arith;
      behind = h;
    },
  )
  | inr e ↦
      let zeros : Bytes = replicate (16 - length file % 16) 0 in
      let size : length (file ++ zeros) ≡ length file + (16 - length file % 16) =
        length-append file zeros
        ∙ ap (λ k. length file + k) (length-replicate (16 - length file % 16) 0) in
      let on_line : length (file ++ zeros) % 16 ≡ 0 = omega arith in
      let far : 256 ≤ length (file ++ zeros) = omega arith in
      rw e (
        record { more = zeros ++ buf; is = append_assoc file zeros buf },
        record {
          before = file ++ zeros;
          after = [];
          split = ap (λ f. (file ++ zeros) ++ f) (sym (append-nil buf));
          off_is = refl;
          len_is = refl;
          aligned = on_line;
          behind = far;
        },
      )
]

drop-append {ℓ} :
    {A : Type ℓ} (n : ℕ) (xs ys : List A) → n ≤ length xs → drop n (xs ++ ys) ≡ drop n xs ++ ys
drop-append zero xs ys h = refl
drop-append (suc n) [] ys h = absurd (omega arith)
drop-append (suc n) (x ∷ xs) ys h = drop-append n xs ys (omega arith)

-- The header is written over bytes in front of the section.
pub Holds-header :
    (head file sec : Bytes) (s : Span)
    → length head ≤ 256
    → Holds file sec s
    → Holds (head ++ drop (length head) file) sec s
Holds-header head file sec s l h =
    let short = h.behind in
    let at = h.off_is in
    record {
      before = head ++ drop (length head) h.before;
      after = h.after;
      split =
          ap (λ f. head ++ drop (length head) f) h.split
          ∙ ap (λ f. head ++ f) (drop-append (length head) h.before (sec ++ h.after) (omega arith))
          ∙ sym (append_assoc head (drop (length head) h.before) (sec ++ h.after));
      off_is = omega (arith, length-append {0} head, length-drop {0} (length head) h.before);
      len_is = h.len_is;
      aligned = h.aligned;
      behind = h.behind;
    }

pub Holds-end : (file sec : Bytes) (s : Span) → Holds file sec s → s.off + s.len ≤ length file
Holds-end file sec s h =
    let at = h.off_is in
    let size = h.len_is in
    let all : length file ≡ length (h.before ++ (sec ++ h.after)) = ap length h.split in
    omega (arith, length-append {0} h.before (sec ++ h.after), length-append {0} sec h.after)

cut-Holds :
    (file sec : Bytes) (s : Span) → Holds file sec s → cut file s.off (s.off + s.len) ≡ ok sec
cut-Holds file sec s h =
    let width : s.off + s.len - s.off ≡ length sec = (let e = h.len_is in omega arith) in
    cut-take file s.off (s.off + s.len) (omega arith) (Holds-end file sec s h)
    ∙ ap ok (
        ap (λ n. take n (drop s.off file)) width
        ∙ ap (λ f. take (length sec) (drop s.off f)) h.split
        ∙ ap (λ n. take (length sec) (drop n (h.before ++ (sec ++ h.after)))) (sym h.off_is)
        ∙ ap (take (length sec)) (drop-length_append h.before (sec ++ h.after))
        ∙ take-length_append sec h.after)

empty_of {ℓ} : {A : Type ℓ} (xs : List A) → length xs ≡ 0 → xs ≡ []
empty_of [] h = refl
empty_of (x ∷ xs) h = absurd (omega arith)

module _ (file : Bytes) (small : length file < 2 ^ 64) where
  pub bind_bytes-Holds : (sec : Bytes) (s : Span) → Holds file sec s → bind_bytes file s ≡ ok sec
  unfolding bind_bytes
  bind_bytes-Holds sec s h =
      let stop = Holds-end file sec s h in
      let end : (s.off + s.len) % 2 ^ 64 ≡ s.off + s.len = omega arith in
      let inside : ltb (length file) (s.off + s.len) ≡ false = ground arith in
      rw (end, inside) (cut-Holds file sec s h)

  pub bind_int32-Holds :
      (xs : List ℤ) (s : Span)
      → All IsInt32 xs
      → Holds file (int32_bytes xs) s
      → bind_int32 file s ≡ ok xs
  unfolding bind_int32
  bind_int32-Holds xs s ok_xs h =
      let stop = Holds-end file (int32_bytes xs) s h in
      let size : s.len ≡ 4 * length xs = sym h.len_is ∙ length-int32_bytes xs in
      let line = h.aligned in
      let end : (s.off + s.len) % 2 ^ 64 ≡ s.off + s.len = omega arith in
      let inside : ltb (length file) (s.off + s.len) ≡ false = ground arith in
      let fours : (s.len % 4 == 0) ≡ true = ground arith in
      let on_line : (s.off % 4 == 0) ≡ true = ground arith in
      elim (Bool-cases (s.len == 0)) [
        | inl e ↦ rw (end, inside, fours, e) (ap ok (sym (empty_of xs (ground arith))))
        | inr e ↦
            rw (end, inside, fours, e, on_line, cut-Holds file (int32_bytes xs) s h)
              (ap ok (int32s-int32_bytes xs ok_xs))
      ]
