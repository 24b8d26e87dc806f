-- ===== src/Persist/Layout.antt =====
-- Where `Save` lays the sections.
use fraud_detection_api.Base.{
  ℕ, zero, suc, ◌-◌, ◌≤◌, ◌≡◌, ◌∙◌, ap, List, [], ◌∷◌, ◌++◌, length, length-replicate, take,
  replicate, Bytes, arith,
}
use fraud_detection_api.Graph.{Graph}
use fraud_detection_api.Persist.{Span, Header, write_section, sections, int32_bytes}
use fraud_detection_api.Persist.Sections.{
  Holds, Grows-trans, Holds-Grows, write_section-Holds, Holds-end,
}

-- Where the sections are.
pub record Laid (g : Graph) (file : Bytes) (h : Header) : Type 0 where
  pub vectors_at : Holds file g.vectors h.vectors
  pub conn0_cnt_at : Holds file g.conn0_cnt h.conn0_cnt
  pub conn0_at : Holds file (int32_bytes g.conn0) h.conn0
  pub labels_at : Holds file g.labels h.labels
  pub upper_off_at : Holds file (int32_bytes g.upper_off) h.upper_off
  pub upper_nodes_at : Holds file (int32_bytes g.upper_nodes) h.upper_nodes
  pub upper_cnt_at : Holds file g.upper_cnt h.upper_cnt
  pub upper_conn_at : Holds file (int32_bytes g.upper_conn) h.upper_conn

-- Behind a section there is room for the header.
pub long : (file sec : Bytes) (s : Span) → Holds file sec s → 256 ≤ length file
long file sec s h = let b = h.behind in omega (arith, Holds-end file sec s h)

module _ (g : Graph) where
  pub sections-Laid : Laid g (sections g).0 (sections g).1
  unfolding sections
  sections-Laid =
      let f0 : Bytes = replicate 256 0 in
      let (g1, h1) =
        write_section-Holds f0 g.vectors (omega (arith, length-replicate {0} {A = ℕ} 256 0)) in
      let w1 = write_section f0 g.vectors in
      let (g2, h2) = write_section-Holds w1.0 g.conn0_cnt (long _ _ _ h1) in
      let w2 = write_section w1.0 g.conn0_cnt in
      let (g3, h3) = write_section-Holds w2.0 (int32_bytes g.conn0) (long _ _ _ h2) in
      let w3 = write_section w2.0 (int32_bytes g.conn0) in
      let (g4, h4) = write_section-Holds w3.0 g.labels (long _ _ _ h3) in
      let w4 = write_section w3.0 g.labels in
      let (g5, h5) = write_section-Holds w4.0 (int32_bytes g.upper_off) (long _ _ _ h4) in
      let w5 = write_section w4.0 (int32_bytes g.upper_off) in
      let (g6, h6) = write_section-Holds w5.0 (int32_bytes g.upper_nodes) (long _ _ _ h5) in
      let w6 = write_section w5.0 (int32_bytes g.upper_nodes) in
      let (g7, h7) = write_section-Holds w6.0 g.upper_cnt (long _ _ _ h6) in
      let w7 = write_section w6.0 g.upper_cnt in
      let (g8, h8) = write_section-Holds w7.0 (int32_bytes g.upper_conn) (long _ _ _ h7) in
      let g68 = Grows-trans _ _ _ g7 g8 in
      let g58 = Grows-trans _ _ _ g6 g68 in
      let g48 = Grows-trans _ _ _ g5 g58 in
      let g38 = Grows-trans _ _ _ g4 g48 in
      let g28 = Grows-trans _ _ _ g3 g38 in
      let g18 = Grows-trans _ _ _ g2 g28 in
      record {
        vectors_at = Holds-Grows _ _ _ _ h1 g18;
        conn0_cnt_at = Holds-Grows _ _ _ _ h2 g28;
        conn0_at = Holds-Grows _ _ _ _ h3 g38;
        labels_at = Holds-Grows _ _ _ _ h4 g48;
        upper_off_at = Holds-Grows _ _ _ _ h5 g58;
        upper_nodes_at = Holds-Grows _ _ _ _ h6 g68;
        upper_cnt_at = Holds-Grows _ _ _ _ h7 g8;
        upper_conn_at = h8;
      }

pub take-append {ℓ} :
    {A : Type ℓ} (n : ℕ) (xs ys : List A)
    → length xs ≤ n
    → take n (xs ++ ys) ≡ xs ++ take (n - length xs) ys
take-append n [] ys h = ap (λ k. take k ys) (omega arith)
take-append zero (x ∷ xs) ys h = absurd (omega arith)
take-append (suc n) (x ∷ xs) ys h =
    ap (λ r. x ∷ r) (take-append n xs ys (omega arith))
    ∙ ap (λ k. x ∷ (xs ++ take k ys)) (omega arith)
