-- ===== src/Build/Finalized.antt =====
-- `Finalize`: from a sound builder it makes a well-formed graph.
use fraud_detection_api.Base.{
  le→leb, length, take, All, length-take, All-take, ℤ, pos_part, neg_part, pos, negsuc, ℕ, zero,
  suc, ◌*◌, ◌^◌, ◌≤◌, ◌<◌, ◌≡◌, refl, sym, ap, ◌∙◌, List, [], ◌∷◌, arith,
}
use fraud_detection_api.Build.{Links, Builder}
use fraud_detection_api.Build.Finalize.{
  offsets_from, flatten_nodes, flatten_counts, flatten_conns, finalize_at, finalize,
}
use fraud_detection_api.Build.Links.{LinksOk}
use fraud_detection_api.Build.Ready.{Ready}
use fraud_detection_api.Build.Sizes.{
  slots, slots-le, length-flatten_nodes, length-flatten_counts, flatten_counts-le,
  length-flatten_conns, flatten_conns-All, length-offsets_from, offset_at, offsets-nonneg,
  slots-take, slots-take-suc,
}
use fraud_detection_api.Graph.{vector_at, layer0_neighbors, is_fraud}
use fraud_detection_api.Graph.WellFormed.{InRange, UpperOk, WellFormed}
use fraud_detection_api.Run.{Returns, returns}

-- The graph that `Finalize` makes, and what it keeps.
pub record Finalized (b b' : Builder) : Type 0 where
  pub well_formed : WellFormed b'.graph
  pub n_same : b'.graph.n ≡ b.graph.n
  pub vectors_same : (id : ℕ) → vector_at b'.graph id ≡ vector_at b.graph id
  pub labels_same : (id : ℕ) → is_fraud b'.graph id ≡ is_fraud b.graph id
  pub rows_same : (id : ℕ) → layer0_neighbors b'.graph id ≡ layer0_neighbors b.graph id

All-InRange-le : (k n : ℕ) (xs : List ℤ) → k ≤ n → All (InRange k) xs → All (InRange n) xs
All-InRange-le k n [] l h = tt
All-InRange-le k n (pos x ∷ xs) l h = (let i = h.0 in omega arith, All-InRange-le k n xs l h.1)
All-InRange-le k n (negsuc x ∷ xs) l h = (tt, All-InRange-le k n xs l h.1)

module _ (k : ℕ) (b : Builder) (r : Ready k b) (some_node : 0 < k) where
  Finalized-upper :
      (off nodes conns : List ℤ) (cnts : List ℕ)
      → (let g = record b.graph {
        upper_off = off;
        upper_nodes = nodes;
        upper_cnt = cnts;
        upper_conn = conns;
      } in
          UpperOk g → Finalized b (record b { graph = g }))
  unfolding vector_at is_fraud layer0_neighbors
  Finalized-upper off nodes conns cnts u =
      let o = r.linked in
      let bound = o.bound in
      record {
        well_formed = record {
          entry_ok = (let e = r.entry_ok some_node in omega arith);
          size_ok = o.size_ok;
          vectors_size = o.vectors_ok.size;
          vectors_ok = o.vectors_ok.bytes;
          counts_size = o.counts_size;
          counts_le = o.counts_le;
          conns_size = o.conns_size;
          conns_ok = All-InRange-le k b.graph.n b.graph.conn0 bound o.conns_ok;
          labels_size = o.labels_size;
          upper_ok = u;
        };
        n_same = refl;
        vectors_same = λ id. refl;
        labels_same = λ id. refl;
        rows_same = λ id. refl;
      }

  module _ (layers : List Links) (fine : All (LinksOk k) layers)
      (enough : length layers ≡ pos_part b.graph.max_layer) (small : slots layers < 2 ^ 31) where
    pub flat_UpperOk : UpperOk (record b.graph {
      upper_off = pos 0 ∷ offsets_from 0 layers;
      upper_nodes = flatten_nodes layers;
      upper_cnt = flatten_counts b.graph.m layers;
      upper_conn = flatten_conns b.graph.m layers;
    })
    flat_UpperOk =
        let nodes = length-flatten_nodes layers in
        let at =
          λ (l : ℕ) (h : l ≤ length layers). ap pos_part (offset_at 0 layers l (omega arith) h) in
        record {
          top_ok = r.top_ok;
          offsets_size = ap suc (length-offsets_from 0 layers ∙ enough);
          offsets_ok = (refl, offsets-nonneg 0 layers (omega arith));
          offsets_le = λ l h. omega (arith, at l (omega arith), slots-take layers l);
          offsets_mono = λ l h.
              omega (arith, at l (omega arith), at (suc l) (omega arith), slots-take-suc layers l);
          counts_size = length-flatten_counts b.graph.m layers ∙ sym nodes;
          counts_le = flatten_counts-le b.graph.m layers;
          conns_size = length-flatten_conns b.graph.m layers ∙ ap (λ x. x * b.graph.m) (sym nodes);
          conns_ok =
              All-InRange-le k b.graph.n _ r.linked.bound
                (flatten_conns-All k b.graph.m layers fine);
        }

  pub flat_UpperOk_none :
      b.graph.max_layer ≡ pos 0
      → UpperOk (record b.graph {
        upper_off = pos 0 ∷ [];
        upper_nodes = [];
        upper_cnt = [];
        upper_conn = [];
      })
  flat_UpperOk_none e =
      let none_above = ap pos_part e in
      record {
        top_ok = r.top_ok;
        offsets_size = ap suc (sym none_above);
        offsets_ok = (refl, tt);
        offsets_le = λ l h. let z : l ≡ 0 = omega arith in ground arith;
        offsets_mono = λ l h. absurd (omega arith);
        counts_size = refl;
        counts_le = tt;
        conns_size = omega arith;
        conns_ok = tt;
      }

-- The layers that are flattened.
pub slots_small :
    (k : ℕ) (b : Builder) (l : ℕ)
    → Ready k b
    → b.graph.max_layer ≡ pos (suc l)
    → b.graph.n * 31 < 2 ^ 31
    → All (LinksOk k) (take (suc l) b.upper_conns)
      × (length (take (suc l) b.upper_conns) ≡ suc l)
      × (slots (take (suc l) b.upper_conns) < 2 ^ 31)
slots_small k b l r e small =
    let o = r.linked in
    let layers = take (suc l) b.upper_conns in
    let fine : All (LinksOk k) layers = All-take (LinksOk k) (suc l) b.upper_conns o.upper_ok in
    let top = ap pos_part e in
    let enough = r.layers_enough in
    let few = r.top_le in
    let bound = o.bound in
    let size : length layers ≡ suc l = omega (arith, length-take (suc l) b.upper_conns) in
    let most = slots-le k layers fine in
    let height : suc l ≤ 31 = omega arith in
    let wide : suc l * k ≤ 31 * b.graph.n = grind arith in
    let area : length layers * k ≡ suc l * k = ap (λ x. x * k) size in (fine, size, omega arith)

finalize_at-Finalized :
    (k : ℕ) (b : Builder)
    → Ready k b
    → 0 < k
    → b.graph.n * 31 < 2 ^ 31
    → (max_l : ℤ) → b.graph.max_layer ≡ max_l
    → Returns (Finalized b) (finalize_at b max_l)
unfolding finalize_at
finalize_at-Finalized k b r some_node small (negsuc x) e =
    absurd (let t = r.top_ok in let f = ap neg_part e in omega arith)
finalize_at-Finalized k b r some_node small (pos zero) e =
    returns
      (Finalized-upper k b r some_node (pos 0 ∷ []) [] [] [] (flat_UpperOk_none k b r some_node e))
finalize_at-Finalized k b r some_node small (pos (suc l)) e =
    let (fine, size, few) = slots_small k b l r e small in
    let enough = r.layers_enough in
    let top = ap pos_part e in
    let layers = take (suc l) b.upper_conns in
    rw (le→leb (suc l) (length b.upper_conns) (omega arith)) (
      returns (
        Finalized-upper k b r some_node (pos 0 ∷ offsets_from 0 layers) (flatten_nodes layers)
          (flatten_conns b.graph.m layers) (flatten_counts b.graph.m layers)
          (flat_UpperOk k b r some_node layers fine (size ∙ sym top) few)))

-- For a builder with the invariant `Ready k` (top layer from 0 to 31 and present, m and m0 at most
-- 255, tables of the right sizes, links to the `k` inserted nodes only), at least one inserted node
-- and 31 * N below 2 ^ 31, `Finalize` does not panic and the graph it makes is well formed: its
-- tables have the sizes that the accessors and the queries rely on, the offsets do not overflow, and
-- all ids are below N. Vectors, labels and the rows of layer 0 are those of the builder.
pub finalize-Finalized :
    (k : ℕ) (b : Builder)
    → Ready k b
    → 0 < k
    → b.graph.n * 31 < 2 ^ 31
    → Returns (Finalized b) (finalize b)
unfolding finalize
finalize-Finalized k b r some_node small =
    finalize_at-Finalized k b r some_node small b.graph.max_layer refl
