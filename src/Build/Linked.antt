-- ===== src/Build/Linked.antt =====
-- The invariant of the builder, and that its accessors keep to the nodes that are inserted.
use fraud_detection_api.Base.{
  leb, length, get_or, drop, All, length-cut, All-get_or, All-of_get_or, pos, negsuc, get_or-take,
  get_or-drop, ℕ, zero, suc, ◌+◌, ◌-◌, ◌*◌, ◌/◌, ◌^◌, ◌≤◌, ◌<◌, ◌≡◌, refl, sym, ◌∙◌, subst, [],
  arith,
}
use fraud_detection_api.Build.{Builder, neighbors_at}
use fraud_detection_api.Build.Links.{IsNode, All-IsNode, LinksOk, links_of-All}
use fraud_detection_api.Graph.{fetch, layer0_neighbors}
use fraud_detection_api.Graph.WellFormed.{InRange, VectorsOk, fetch-get_or, cut-take, row_end}
use fraud_detection_api.Run.{
  ◌>>=◌, Run, Returns, Returns-bind, Returns-if, Returns-map, ok, returns,
}

-- The tables of a builder for `n` nodes whose links lead to nodes below `k`.
pub record Linked (k : ℕ) (b : Builder) : Type 0 where
  pub size_ok : b.graph.n < 2 ^ 31
  pub bound : k ≤ b.graph.n
  pub m_le : b.graph.m ≤ 255
  pub m0_le : b.graph.m0 ≤ 255
  pub vectors_ok : VectorsOk b.graph
  pub counts_size : length b.graph.conn0_cnt ≡ b.graph.n
  pub counts_le : All (λ c. c ≤ b.graph.m0) b.graph.conn0_cnt
  pub conns_size : length b.graph.conn0 ≡ b.graph.n * b.graph.m0
  pub conns_ok : All (InRange k) b.graph.conn0
  pub rows_ok :
      (i j : ℕ)
      → i < b.graph.n
      → j < get_or b.graph.conn0_cnt i 0
      → IsNode k (get_or b.graph.conn0 (i * b.graph.m0 + j) (negsuc 0))
  pub labels_size : length b.graph.labels ≡ (b.graph.n + 7) / 8
  pub upper_ok : All (LinksOk k) b.upper_conns
  pub visited_size : length b.visited ≡ b.graph.n
  pub visited_le : All (λ mark. mark ≤ b.vis_gen) b.visited
  pub gen_lt : b.vis_gen < 2 ^ 32
  pub levels_size : length b.levels ≡ b.graph.n

-- What the steps of an insertion leave as it is.
pub record Kept (b b' : Builder) : Type 0 where
  pub n_kept : b'.graph.n ≡ b.graph.n
  pub m_kept : b'.graph.m ≡ b.graph.m
  pub m0_kept : b'.graph.m0 ≡ b.graph.m0
  pub ef_kept : b'.ef_c ≡ b.ef_c
  pub entry_kept : b'.graph.entry_point ≡ b.graph.entry_point
  pub top_kept : b'.graph.max_layer ≡ b.graph.max_layer
  pub inserted_kept : b'.inserted ≡ b.inserted
  pub vectors_kept : b'.graph.vectors ≡ b.graph.vectors
  pub labels_kept : b'.graph.labels ≡ b.graph.labels
  pub layers_le : length b.upper_conns ≤ length b'.upper_conns

pub Kept-refl : (b : Builder) → Kept b b
Kept-refl b = record {
  n_kept = refl;
  m_kept = refl;
  m0_kept = refl;
  ef_kept = refl;
  entry_kept = refl;
  top_kept = refl;
  inserted_kept = refl;
  vectors_kept = refl;
  labels_kept = refl;
  layers_le = omega arith;
}

pub Kept-trans : (b c d : Builder) → Kept b c → Kept c d → Kept b d
Kept-trans b c d x y = record {
  n_kept = y.n_kept ∙ x.n_kept;
  m_kept = y.m_kept ∙ x.m_kept;
  m0_kept = y.m0_kept ∙ x.m0_kept;
  ef_kept = y.ef_kept ∙ x.ef_kept;
  entry_kept = y.entry_kept ∙ x.entry_kept;
  top_kept = y.top_kept ∙ x.top_kept;
  inserted_kept = y.inserted_kept ∙ x.inserted_kept;
  vectors_kept = y.vectors_kept ∙ x.vectors_kept;
  labels_kept = y.labels_kept ∙ x.labels_kept;
  layers_le = (let p = x.layers_le in let q = y.layers_le in omega arith);
}

-- A step that keeps the invariant.
abbrev pub Step : ℕ → Builder → Builder → Type 0
Step k b b' = Linked k b' × Kept b b'

-- Two steps, one after the other.
pub Step-bind :
    (k : ℕ) (b : Builder) {first : Run Builder} {next : Builder → Run Builder}
    → Returns (Step k b) first
    → ((c : Builder) → Linked k c → Kept b c → Returns (Step k c) (next c))
    → Returns (Step k b) (first >>= next)
Step-bind k b run next =
    Returns-bind run λ c (o, x). Returns-map (next c o x) λ d (p, y). (p, Kept-trans b c d x y)

module _ (k : ℕ) (b : Builder) (o : Linked k b) where
  pub row-All :
      (id : ℕ)
      → id < k
      → Returns
          (λ row. All (IsNode k) row × (length row ≡ get_or b.graph.conn0_cnt id 0))
          (layer0_neighbors b.graph id)
  unfolding layer0_neighbors
  row-All id h =
      let g = b.graph in
      let l = o.bound in
      let inside : id < length g.conn0_cnt = (let e = o.counts_size in omega arith) in
      let cnt = get_or g.conn0_cnt id 0 in
      let fits = All-get_or (λ c. c ≤ g.m0) g.conn0_cnt id 0 o.counts_le inside in
      let stop : id * g.m0 + cnt ≤ length g.conn0 =
        (let e = o.conns_size in omega (arith, row_end id g.n g.m0 cnt (omega arith) fits)) in
      let size = length-cut g.conn0 (id * g.m0) (id * g.m0 + cnt) (omega arith) stop in
      let short : id * g.m0 + cnt - id * g.m0 ≡ cnt = omega arith in
      rw
        (
          fetch-get_or g.conn0_cnt id 0 inside,
          cut-take g.conn0 (id * g.m0) (id * g.m0 + cnt) (omega arith) stop,
        )
        (returns (
          All-of_get_or (IsNode k) _ (negsuc 0) λ j p.
              subst (IsNode k)
                (sym (
                  get_or-take (id * g.m0 + cnt - id * g.m0) (drop (id * g.m0) g.conn0) j (negsuc 0)
                    (omega arith)
                  ∙ get_or-drop (id * g.m0) g.conn0 j (negsuc 0)))
                (o.rows_ok id j (omega arith) (omega arith)),
          size ∙ short,
        ))

  pub links-All :
      (l : ℕ)
      → l < length b.upper_conns
      → (fetch b.upper_conns l ≡ ok (get_or b.upper_conns l []))
        × LinksOk k (get_or b.upper_conns l [])
  links-All l h =
      (fetch-get_or b.upper_conns l [] h, All-get_or (LinksOk k) b.upper_conns l [] o.upper_ok h)

  pub neighbors_at-All : (id l : ℕ) → id < k → Returns (All (InRange k)) (neighbors_at b id (pos l))
  unfolding neighbors_at
  neighbors_at-All id zero h =
      Returns-map (row-All id h) λ row (nodes, size). All-IsNode k row nodes
  neighbors_at-All id (suc l) h =
      Returns-if (leb (length b.upper_conns) l) (λ absent. returns tt)
        λ present.
          let (read, fine) = links-All l (ground arith) in
          rw read
            (returns (All-IsNode k _ (links_of-All k (get_or b.upper_conns l []) id fine.inside)))
