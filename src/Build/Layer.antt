-- ===== src/Build/Layer.antt =====
-- The searches of the builder end, without a panic, and what they return.
use fraud_detection_api.Base.{
  ◌==◌, Bool-cases, length, replicate, All, length-replicate, All-replicate, ℕ, ◌+◌, ◌%◌, ◌^◌, ◌≤◌,
  ◌<◌, ◌≡◌, refl, ◌∙◌, inl, inr, List, [], ◌∷◌, arith,
}
use fraud_detection_api.Build.{Builder}
use fraud_detection_api.Build.Linked.{Linked, Step}
use fraud_detection_api.Build.Search.{reset_visited}

module _ (b : Builder) where
  -- A new generation that no node is marked with.
  pub record Renewed (k : ℕ) (c : Builder) : Type 0 where
    pub step : Step k b c
    pub seen_lt : All (λ x. x < c.vis_gen) c.visited
    pub graph_same : c.graph ≡ b.graph
    pub layers_same : c.upper_conns ≡ b.upper_conns
    pub rest_same : c ≡ record b { visited = c.visited; vis_gen = c.vis_gen }

  below_next : (xs : List ℕ) (n : ℕ) → All (λ x. x ≤ n) xs → All (λ x. x < n + 1) xs
  below_next [] n h = tt
  below_next (x ∷ xs) n h = (omega arith, below_next xs n h.1)

  pub up_to : (xs : List ℕ) (n : ℕ) → All (λ x. x < n) xs → All (λ x. x ≤ n) xs
  up_to [] n h = tt
  up_to (x ∷ xs) n h = (omega arith, up_to xs n h.1)

  -- Only the marks and the generation differ.
  pub remark :
      (k gen : ℕ) (seen : List ℕ)
      → Linked k b
      → length seen ≡ b.graph.n
      → All (λ x. x ≤ gen) seen
      → gen < 2 ^ 32
      → Step k b (record b { visited = seen; vis_gen = gen })
  remark k gen seen o size le lt = (
    record {
      size_ok = o.size_ok;
      bound = o.bound;
      m_le = o.m_le;
      m0_le = o.m0_le;
      vectors_ok = o.vectors_ok;
      counts_size = o.counts_size;
      counts_le = o.counts_le;
      conns_size = o.conns_size;
      conns_ok = o.conns_ok;
      rows_ok = o.rows_ok;
      labels_size = o.labels_size;
      upper_ok = o.upper_ok;
      visited_size = size;
      visited_le = le;
      gen_lt = lt;
      levels_size = o.levels_size;
    },
    record {
      n_kept = refl;
      m_kept = refl;
      m0_kept = refl;
      ef_kept = refl;
      entry_kept = refl;
      top_kept = refl;
      inserted_kept = refl;
      vectors_kept = refl;
      labels_kept = refl;
      layers_le = omega arith;
    },
  )

  pub reset_visited-Renewed : (k : ℕ) → Linked k b → Renewed k (reset_visited b)
  unfolding reset_visited
  reset_visited-Renewed k o =
      let size = o.visited_size in
      let gen_lt = o.gen_lt in
      elim (Bool-cases ((b.vis_gen + 1) % 2 ^ 32 == 0)) [
        | inl wraps ↦
            let zeros : List ℕ = replicate (length b.visited) 0 in
            let low = All-replicate (λ x. x < 1) (length b.visited) 0 (omega arith) in
            rw wraps (record {
              step =
                  remark k 1 zeros o (length-replicate (length b.visited) 0 ∙ size)
                    (up_to zeros 1 low) (omega arith);
              seen_lt = low;
              graph_same = refl;
              layers_same = refl;
              rest_same = refl;
            })
        | inr grows ↦
            let next : (b.vis_gen + 1) % 2 ^ 32 ≡ b.vis_gen + 1 = ground arith in
            let low = below_next b.visited b.vis_gen o.visited_le in
            rw (grows, next)
              (record {
                step =
                    remark k (b.vis_gen + 1) b.visited o size (up_to b.visited _ low)
                      (ground arith);
                seen_lt = low;
                graph_same = refl;
                layers_same = refl;
                rest_same = refl;
              })
      ]
