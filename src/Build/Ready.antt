-- ===== src/Build/Ready.antt =====
-- The builder between two insertions, and the storing of a node.
use fraud_detection_api.Base.{
  ◌==◌, if◌then◌else◌, length, set, get_or, replicate, All, length-set, length-replicate,
  All-replicate, ℤ, pos_part, neg_part, pos, negsuc, ℕ, zero, suc, ◌+◌, ◌*◌, ◌/◌, ◌%◌, ◌^◌, ◌≤◌,
  ◌<◌, ◌≡◌, refl, sym, ap, ◌∙◌, subst, List, [], ◌∷◌, arith,
}
use fraud_detection_api.Build.{Builder, new_builder, entries}
use fraud_detection_api.Build.Copy.{Copied, copy_at-Copied, copy_at-All, Returns-both}
use fraud_detection_api.Build.Insert.{store_node}
use fraud_detection_api.Build.Linked.{Linked}
use fraud_detection_api.Build.Links.{IsNode-le, All-LinksOk-le}
use fraud_detection_api.Build.Stored.{vector_at-new, vector_at-old, set_label-Labelled}
use fraud_detection_api.Config.{vector_dim}
use fraud_detection_api.Dist.Bounds.{IsByte}
use fraud_detection_api.Graph.{vector_at, is_fraud}
use fraud_detection_api.Graph.WellFormed.{InRange}
use fraud_detection_api.Query.Admit.{store-set}
use fraud_detection_api.Run.{Returns, Returns-bind, ok, returns}
use fraud_detection_api.Vector.{Vector, Each}

-- The nodes below `k` are inserted.
pub record Ready (k : ℕ) (b : Builder) : Type 0 where
  pub linked : Linked k b
  pub count : b.inserted ≡ k
  pub entry_ok : 0 < k → b.graph.entry_point < k
  pub top_ok : neg_part b.graph.max_layer ≡ 0
  pub top_le : pos_part b.graph.max_layer ≤ 31
  pub layers_enough : pos_part b.graph.max_layer ≤ length b.upper_conns

no_row : (n i j : ℕ) → j < get_or (replicate n 0) i 0 → ⊥
no_row zero i j h = omega arith
no_row (suc n) zero j h = omega arith
no_row (suc n) (suc i) j h = no_row n i j h

pub new_builder-Ready :
    (n m m0 ef : ℕ) → n < 2 ^ 31 → m ≤ 255 → m0 ≤ 255 → Ready 0 (new_builder n m m0 ef)
unfolding new_builder
new_builder-Ready n m m0 ef small m_le m0_le = record {
  linked = record {
    size_ok = small;
    bound = omega arith;
    m_le = m_le;
    m0_le = m0_le;
    vectors_ok = record {
      size = length-replicate (n * vector_dim) 0;
      bytes = All-replicate IsByte (n * vector_dim) 0 (omega arith);
    };
    counts_size = length-replicate n 0;
    counts_le = All-replicate (λ c. c ≤ m0) n 0 (omega arith);
    conns_size = length-replicate (n * m0) (negsuc 0);
    conns_ok = All-replicate (InRange 0) (n * m0) (negsuc 0) tt;
    rows_ok = λ i j h l. absurd (no_row n i j l);
    labels_size = length-replicate (((n + 7) % 2 ^ 32) / 8) 0 ∙ omega arith;
    upper_ok = tt;
    visited_size = length-replicate n 0;
    visited_le = All-replicate (λ x. x ≤ 0) n 0 (omega arith);
    gen_lt = omega arith;
    levels_size = length-replicate n (pos 0);
  };
  count = refl;
  entry_ok = λ h. absurd (omega arith);
  top_ok = refl;
  top_le = omega arith;
  layers_enough = omega arith;
}

-- What the first steps of an insertion do.
pub record Stored (k : ℕ) (b : Builder) (v : Vector ℕ) (label : ℕ) (b' : Builder) : Type 0 where
  pub linked : Linked (suc k) b'
  pub n_same : b'.graph.n ≡ b.graph.n
  pub entry_same : b'.graph.entry_point ≡ b.graph.entry_point
  pub top_same : b'.graph.max_layer ≡ b.graph.max_layer
  pub inserted_same : b'.inserted ≡ b.inserted
  pub layers_same : b'.upper_conns ≡ b.upper_conns
  pub new_vector : vector_at b'.graph k ≡ ok v
  pub old_vectors : (other : ℕ) → other < k → vector_at b'.graph other ≡ vector_at b.graph other
  pub labels :
      (other : ℕ)
      → other ≤ k
      → is_fraud b'.graph other ≡ (if k == other then ok (label == 1) else is_fraud b.graph other)

All-InRange-suc : (k : ℕ) (xs : List ℤ) → All (InRange k) xs → All (InRange (suc k)) xs
All-InRange-suc k [] h = tt
All-InRange-suc k (pos n ∷ xs) h = (let l = h.0 in omega arith, All-InRange-suc k xs h.1)
All-InRange-suc k (negsuc n ∷ xs) h = (tt, All-InRange-suc k xs h.1)

entries-All : (v : Vector ℕ) → Each IsByte v → All IsByte (entries v)
entries-All v h = (
  h.at0,
  (
    h.at1,
    (
      h.at2,
      (
        h.at3,
        (
          h.at4,
          (h.at5, (h.at6, (h.at7, (h.at8, (h.at9, (h.at10, (h.at11, (h.at12, (h.at13, tt))))))))),
        ),
      ),
    ),
  ),
)

module _ (k : ℕ) (b : Builder) (o : Linked k b) (room : k < b.graph.n) (v : Vector ℕ)
    (hv : Each IsByte v) (label : ℕ) (level : ℤ) where
  table_fits : k * 14 + 14 ≤ length b.graph.vectors
  table_fits = let s = o.vectors_ok.size in omega arith

  -- The builder with a new vector, new labels and new levels.
  Stored-tables :
      (vectors labels : List ℕ) (levels : List ℤ)
      → Copied b.graph.vectors (k * 14) (entries v) vectors
      → All IsByte vectors
      → length labels ≡ length b.graph.labels
      → length levels ≡ length b.levels
      → (let g = record b.graph { vectors = vectors } in
          ((other : ℕ)
            → other < b.graph.n
            → is_fraud (record g { labels = labels }) other
              ≡ (if k == other then ok (label == 1) else is_fraud g other))
          → Stored k b v label (record b { graph = record g { labels = labels }; levels = levels }))
  unfolding vector_at is_fraud
  Stored-tables vectors labels levels c bytes labels_len levels_len reads = record {
    linked = record {
      size_ok = o.size_ok;
      bound = room;
      m_le = o.m_le;
      m0_le = o.m0_le;
      vectors_ok = record { size = c.size ∙ o.vectors_ok.size; bytes = bytes };
      counts_size = o.counts_size;
      counts_le = o.counts_le;
      conns_size = o.conns_size;
      conns_ok = All-InRange-suc k b.graph.conn0 o.conns_ok;
      rows_ok = λ i j h l. IsNode-le k (suc k) _ (omega arith) (o.rows_ok i j h l);
      labels_size = labels_len ∙ o.labels_size;
      upper_ok = All-LinksOk-le k (suc k) b.upper_conns (omega arith) o.upper_ok;
      visited_size = o.visited_size;
      visited_le = o.visited_le;
      gen_lt = o.gen_lt;
      levels_size = levels_len ∙ o.levels_size;
    };
    n_same = refl;
    entry_same = refl;
    top_same = refl;
    inserted_same = refl;
    layers_same = refl;
    new_vector = vector_at-new b.graph vectors k v room o.vectors_ok.size c;
    old_vectors = λ other l.
        vector_at-old b.graph vectors k v room o.vectors_ok.size c other (omega arith)
          (λ e. absurd (omega arith));
    labels = λ other l. reads other (omega arith);
  }

  pub store_node-Stored : Returns (Stored k b v label) (store_node b k v label level)
  unfolding store_node
  store_node-Stored =
      let fits = table_fits in
      let levels_len = o.levels_size in
      Returns-bind
        (Returns-both (copy_at-Copied b.graph.vectors (k * 14) (entries v) fits) (
          copy_at-All IsByte b.graph.vectors (k * 14) (entries v) (omega arith) o.vectors_ok.bytes
            (entries-All v hv)))
        λ vectors (c, bytes).
          Returns-bind
            (set_label-Labelled (record b.graph { vectors = vectors }) k label room o.labels_size)
            λ g lab. rw (store-set b.levels k level (omega arith)) (
              returns (
                subst
                  (λ x. Stored k b v label (record b { graph = x; levels = set b.levels k level }))
                  (sym lab.others)
                  (Stored-tables vectors g.labels (set b.levels k level) c bytes lab.size
                    (length-set b.levels k level)
                    λ other l. ap (λ x. is_fraud x other) (sym lab.others) ∙ lab.reads other l)))
