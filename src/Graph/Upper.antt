-- ===== src/Graph/Upper.antt =====
-- The layers above layer 0: the binary search for a node, and the neighbors that it has there.
use fraud_detection_api.Base.{
  ℕ, suc, ◌+◌, ◌-◌, ◌*◌, ◌<◌, ◌≤◌, ◌≡◌, inl, inr, ℤ, pos, neg_part, ltb_ℤ, eqb_ℤ, signed32, ltb,
  ◌||◌, List, [], length, get_elem?, get_or, take, drop, length-cut, All, All-take, All-drop,
  All-get_or, arith, Option, none, some, true, false, Bool-cases, Option-cases, if◌then◌else◌,
}
use fraud_detection_api.Run.{ok, Returns, returns, Returns-bind, ◌>>=◌}
use fraud_detection_api.Graph.{
  Graph, fetch, cut, index_of, upper_nodes_of, found_at, upper_local_index, upper_neighbors,
}
use fraud_detection_api.Graph.WellFormed.{
  InRange, offset, top, UpperOk, fetch-get_or, cut-take, index_of-pos_part, row_end,
}
use fraud_detection_api.Graph.Lookup.{
  lt-length_of_get_elem?, IsAscending, search_loop-Narrowed, layer_nodes, Locates, found_at-Locates,
}

module _ (g : Graph) (u : UpperOk g) where
  upper_nodes_of-layer : (l : ℕ) → l < top g → upper_nodes_of g (suc l) ≡ ok (layer_nodes g (suc l))
  unfolding upper_nodes_of
  upper_nodes_of-layer l h =
      let size = u.offsets_size in
      let below : suc l - 1 ≡ l = omega arith in
      let inside : ltb (suc l) 1 || ltb_ℤ g.max_layer (pos (suc l)) ≡ false =
        (let t = u.top_ok in ground arith) in
      rw (
        inside,
        below,
        fetch-get_or g.upper_off l (pos 0) (omega arith),
        fetch-get_or g.upper_off (suc l) (pos 0) (omega arith),
        index_of-pos_part _
            (All-get_or (λ x. neg_part x ≡ 0) g.upper_off l (pos 0) u.offsets_ok (omega arith)),
        index_of-pos_part _ (
            All-get_or (λ x. neg_part x ≡ 0) g.upper_off (suc l) (pos 0) u.offsets_ok
              (omega arith)),
        cut-take g.upper_nodes (offset g l) (offset g (suc l)) (u.offsets_mono l h)
            (u.offsets_le (suc l) h),
      )

  upper_nodes_of-above : (layer : ℕ) → top g < layer → upper_nodes_of g layer ≡ ok []
  unfolding upper_nodes_of
  upper_nodes_of-above layer h =
      let outside : ltb layer 1 || ltb_ℤ g.max_layer (pos layer) ≡ true =
        (let t = u.top_ok in ground arith) in
      rw outside

  -- On an ascending layer the binary search finds a node exactly when the layer has it: it returns
  -- the place of the id if the id is stored there, and -1 only if the id is stored nowhere. It
  -- never panics.
  pub upper_local_index-Locates :
      (id l : ℕ)
      → l < top g
      → IsAscending (layer_nodes g (suc l))
      → Returns (Locates (layer_nodes g (suc l)) (signed32 id)) (upper_local_index g id (suc l))
  unfolding upper_local_index
  upper_local_index-Locates id l h asc =
      let nodes = layer_nodes g (suc l) in
      rw (upper_nodes_of-layer l h) (
        Returns-bind
          (search_loop-Narrowed (suc (length nodes)) nodes (signed32 id) 0 (length nodes)
            (omega arith) (omega arith) (omega arith))
          λ lo n. returns (
            found_at-Locates nodes (signed32 id) lo asc (
              n.place asc (record {
                below = λ i p. absurd (omega arith);
                above = λ i p q. absurd (omega arith);
              }))))

  abbrev Within : ℕ → Option ℕ → Type 0
  Within n none = Unit {0}
  Within n (some i) = i < n

  found_at-Within :
      (nodes : List ℤ) (target : ℤ) (lo : ℕ)
      → Within (length nodes) (if found_at nodes target lo then some lo else none)
  found_at-Within nodes target lo = elim (Option-cases (get_elem? nodes lo)) [
    | inl e ↦ rw (found_at, e) tt
    | inr (x, e) ↦ elim (Bool-cases (eqb_ℤ x target)) [
      | inl same ↦ rw (found_at, e, same) (lt-length_of_get_elem? nodes lo e).0
      | inr other ↦ rw (found_at, e, other) tt
    ]
  ]

  upper_local_index-Within :
      (id l : ℕ)
      → l < top g
      → Returns (Within (length (layer_nodes g (suc l)))) (upper_local_index g id (suc l))
  unfolding upper_local_index
  upper_local_index-Within id l h =
      let nodes = layer_nodes g (suc l) in
      rw (upper_nodes_of-layer l h) (
        Returns-bind
          (search_loop-Narrowed (suc (length nodes)) nodes (signed32 id) 0 (length nodes)
            (omega arith) (omega arith) (omega arith))
          λ lo n. returns (found_at-Within nodes (signed32 id) lo))

  length-layer_nodes :
      (l : ℕ) → l < top g → length (layer_nodes g (suc l)) + offset g l ≡ offset g (suc l)
  length-layer_nodes l h =
      let below : suc l - 1 ≡ l = omega arith in
      rw below (
        omega (
          arith,
          u.offsets_mono l h,
          length-cut {0} g.upper_nodes (offset g l) (offset g (suc l)) (u.offsets_mono l h)
              (u.offsets_le (suc l) h),
        ))

  -- The neighbors of a node of the layer, read behind the place that the search found.
  read_row :
      (slot : ℕ)
      → slot < length g.upper_nodes
      → (let cnt = get_or g.upper_cnt slot 0 in
          cut g.upper_conn (slot * g.m) (slot * g.m + cnt)
          ≡ ok (take (slot * g.m + cnt - slot * g.m) (drop (slot * g.m) g.upper_conn)))
  read_row slot h =
      let c = u.counts_size in
      let s = u.conns_size in
      let fits = All-get_or (λ c. c ≤ g.m) g.upper_cnt slot 0 u.counts_le (omega arith) in
      cut-take g.upper_conn _ _ (omega arith)
        (omega (arith, row_end slot (length g.upper_nodes) g.m (get_or g.upper_cnt slot 0) h fits))

  pub upper_neighbors-All :
      (id l : ℕ) → l < top g → Returns (All (InRange g.n)) (upper_neighbors g id (suc l))
  unfolding upper_neighbors
  upper_neighbors-All id l h = Returns-bind (upper_local_index-Within id l h) row
    where
      row :
          (place : Option ℕ)
          → Within (length (layer_nodes g (suc l))) place
          → Returns (All (InRange g.n)) (elim place [
            | none ↦ ok []
            | some local ↦ (do
              from ← fetch g.upper_off (suc l - 1)
              base ← index_of from
              cnt ← fetch g.upper_cnt (base + local)
              cut g.upper_conn ((base + local) * g.m) ((base + local) * g.m + cnt))
          ])
      row none t = returns tt
      row (some local) t =
          let size = u.offsets_size in
          let below : suc l - 1 ≡ l = omega arith in
          let slot_ok : offset g l + local < length g.upper_nodes =
            omega (arith, length-layer_nodes l h, u.offsets_le (suc l) h) in
          let c = u.counts_size in
          rw
            (
              below,
              fetch-get_or g.upper_off l (pos 0) (omega arith),
              index_of-pos_part _ (
                  All-get_or (λ x. neg_part x ≡ 0) g.upper_off l (pos 0) u.offsets_ok
                    (omega arith)),
              fetch-get_or g.upper_cnt (offset g l + local) 0 (omega arith),
              read_row (offset g l + local) slot_ok,
            )
            (returns (All-take (InRange g.n) _ _ (All-drop (InRange g.n) _ _ u.conns_ok)))
