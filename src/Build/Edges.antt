-- ===== src/Build/Edges.antt =====
-- The edges of a new node: every step keeps the invariant of the builder.
use fraud_detection_api.Base.{
  ltb, leb, length, set, get_or, All, length-set, All-get_or, All-append, All-set, ℤ, signed32, pos,
  negsuc, ℕ, zero, suc, ◌+◌, ◌*◌, ◌%◌, ◌^◌, ◌≤◌, ◌<◌, ◌≡◌, refl, ap, List, [], ◌∷◌, ◌++◌, arith,
}
use fraud_detection_api.Build.{Links, Builder, links_of, put, ensure_layers}
use fraud_detection_api.Build.Chosen.{Within-append}
use fraud_detection_api.Build.Connect.{
  ids_of, measure_all, has_edge, relink_layer0, add_edge0, add_edge, prune_list,
  prune_if_over_capacity,
}
use fraud_detection_api.Build.Diverse.{Within}
use fraud_detection_api.Build.Linked.{Linked, Kept-refl, Step, row-All, links-All}
use fraud_detection_api.Build.Links.{
  IsNode, LinksOk, links_of-All, put-LinksOk, ensure_layers-LinksOk,
}
use fraud_detection_api.Build.Rows.{ids_of-All, write_row-Step, append_edge-Step}
use fraud_detection_api.Build.Select.{Sorter}
use fraud_detection_api.Build.Selected.{select-Selected}
use fraud_detection_api.Dist.{dist2}
use fraud_detection_api.Graph.{Graph}
use fraud_detection_api.Graph.WellFormed.{VectorsOk, fetch-get_or, row_end}
use fraud_detection_api.Query.Admit.{store-set}
use fraud_detection_api.Query.Heap.{DistItem}
use fraud_detection_api.Query.Near.{vec, vec-Each}
use fraud_detection_api.Run.{Returns, Returns-bind, Returns-if, returns}
use fraud_detection_api.Vector.{Vector}

module _ (sorter : Sorter) (k : ℕ) where
  -- The distances of a list of nodes.
  measure_all-Within :
      (g : Graph) (w : VectorsOk g) (src : Vector ℕ) (nbs : List ℤ)
      → k ≤ g.n
      → g.n < 2 ^ 31
      → All (IsNode k) nbs
      → Returns (λ r. Within k r × (length r ≡ length nbs)) (measure_all g src nbs)
  unfolding measure_all
  measure_all-Within g w src [] bound small h = returns (refl, refl)
  measure_all-Within g w src (pos n ∷ nbs) bound small h =
      let low = h.0 in
      let id : n % 2 ^ 32 ≡ n = omega arith in
      let (at, _) = vec-Each g w n (omega arith) in
      rw (id, at)
        (Returns-bind (measure_all-Within g w src nbs bound small h.1)
          λ r (within, size). returns (ground arith, ap suc size))
  measure_all-Within g w src (negsuc n ∷ nbs) bound small h = absurd h.0

  prune_list-Within :
      (b : Builder) (id : ℕ) (current : List ℤ) (limit : ℕ)
      → Linked k b
      → id < k
      → All (IsNode k) current
      → Returns (λ r. Within k r × (length r ≤ limit)) (prune_list sorter b.graph id current limit)
  unfolding prune_list
  prune_list-Within b id current limit o h nodes =
      let bound = o.bound in
      let (at, _) = vec-Each b.graph o.vectors_ok id (omega arith) in
      rw at (
        Returns-bind
          (measure_all-Within b.graph o.vectors_ok (vec b.graph id) current bound o.size_ok nodes)
          λ cands (within, size).
            Returns-bind (select-Selected sorter k b.graph o.vectors_ok bound cands limit within)
              λ r s. returns (s.within, s.few))

  relink_layer0-Step :
      (b : Builder) (src dst : ℕ)
      → Linked k b
      → src < k
      → dst < k
      → Returns (λ g. Step k b (record b { graph = g })) (relink_layer0 sorter b.graph src dst)
  unfolding relink_layer0
  relink_layer0-Step b src dst o h l =
      let bound = o.bound in
      let g = b.graph in
      let (at, _) = vec-Each g o.vectors_ok src (omega arith) in
      let (at', _) = vec-Each g o.vectors_ok dst (omega arith) in
      rw at (
        Returns-bind (row-All k b o src h) λ row (nodes, _).
          Returns-if (has_edge (signed32 dst) row) (λ old. returns (o, Kept-refl b))
            λ new.
              Returns-bind (measure_all-Within g o.vectors_ok (vec g src) row bound o.size_ok nodes)
                λ cands (within, _). rw at' (
                  let x : DistItem = record { id = dst; dist = dist2 (vec g src) (vec g dst) } in
                  let all_in : Within k (cands ++ x ∷ []) =
                    Within-append k g o.vectors_ok bound cands (x ∷ []) within (ground arith) in
                  Returns-bind
                    (select-Selected sorter k g o.vectors_ok bound (cands ++ x ∷ []) g.m0 all_in)
                    λ r s. write_row-Step k b o src r.0 h s.within s.few))

  add_edge0-Step :
      (b : Builder) (src dst : ℕ)
      → Linked k b
      → src < k
      → dst < k
      → Returns (λ g. Step k b (record b { graph = g })) (add_edge0 sorter b.graph src dst)
  unfolding add_edge0
  add_edge0-Step b src dst o h l =
      let bound = o.bound in
      let g = b.graph in
      let conns_len = o.conns_size in
      let cnts_len = o.counts_size in
      let m0_le = o.m0_le in
      let cnt = get_or g.conn0_cnt src 0 in
      rw (fetch-get_or g.conn0_cnt src 0 (omega arith)) (
        Returns-if (ltb cnt g.m0)
          (λ room.
            let free : cnt < g.m0 = ground arith in
            let stop = row_end src g.n g.m0 (suc cnt) (omega arith) (omega arith) in
            let exact : signed32 dst ≡ pos dst = (let s = o.size_ok in ground arith) in
            let small : (cnt + 1) % 256 ≡ suc cnt = omega arith in
            rw
              (
                exact,
                small,
                store-set g.conn0 (src * g.m0 + cnt) (pos dst) (omega arith),
                store-set g.conn0_cnt src (suc cnt) (omega arith),
              )
              (returns (append_edge-Step k b o src dst h l free)))
          λ full. relink_layer0-Step b src dst o h l)

  -- New layers that are sound, not fewer than before.
  pub layers-Step :
      (b : Builder) (layers : List Links)
      → Linked k b
      → All (LinksOk k) layers
      → length b.upper_conns ≤ length layers
      → Step k b (record b { upper_conns = layers })
  layers-Step b layers o fine more = (
    record {
      size_ok = o.size_ok;
      bound = o.bound;
      m_le = o.m_le;
      m0_le = o.m0_le;
      vectors_ok = o.vectors_ok;
      counts_size = o.counts_size;
      counts_le = o.counts_le;
      conns_size = o.conns_size;
      conns_ok = o.conns_ok;
      rows_ok = o.rows_ok;
      labels_size = o.labels_size;
      upper_ok = fine;
      visited_size = o.visited_size;
      visited_le = o.visited_le;
      gen_lt = o.gen_lt;
      levels_size = o.levels_size;
    },
    record {
      n_kept = refl;
      m_kept = refl;
      m0_kept = refl;
      ef_kept = refl;
      entry_kept = refl;
      top_kept = refl;
      inserted_kept = refl;
      vectors_kept = refl;
      labels_kept = refl;
      layers_le = more;
    },
  )

  put-Step :
      (b : Builder) (layers : List Links) (l id : ℕ) (nbs : List ℤ)
      → Linked k b
      → All (LinksOk k) layers
      → length b.upper_conns ≤ length layers
      → l < length layers
      → id < k
      → All (IsNode k) nbs
      → Step k b (record b { upper_conns = set layers l (put (get_or layers l []) id nbs) })
  put-Step b layers l id nbs o fine more inside h nodes =
      let links = get_or layers l [] in
      let size = length-set layers l (put links id nbs) in
      layers-Step b (set layers l (put links id nbs)) o
        (All-set (LinksOk k) layers l (put links id nbs) fine
          (put-LinksOk k links id nbs h nodes (All-get_or (LinksOk k) layers l [] fine inside)))
        (omega arith)

  pub add_edge-Step :
      (b : Builder) (src dst l : ℕ)
      → Linked k b
      → src < k
      → dst < k
      → Returns (Step k b) (add_edge sorter b src dst l)
  unfolding add_edge
  add_edge-Step b src dst zero o h l =
      Returns-bind (add_edge0-Step b src dst o h l) λ g s. returns s
  add_edge-Step b src dst (suc j) o h l =
      let layers = ensure_layers b.upper_conns (pos (suc j)) in
      let (fine, enough, more) = ensure_layers-LinksOk k b.upper_conns (pos (suc j)) o.upper_ok in
      let exact : signed32 dst ≡ pos dst =
        (let s = o.size_ok in let bound = o.bound in ground arith) in
      let links = get_or layers j [] in
      let old =
        links_of-All k links src ((All-get_or (LinksOk k) layers j [] fine (omega arith)).inside) in
      rw (fetch-get_or layers j [] (omega arith), exact)
        (returns (
          put-Step b layers j src (links_of links src ++ pos dst ∷ []) o fine more (omega arith) h
            (All-append (IsNode k) (links_of links src) (pos dst ∷ []) old (l, tt))))

  pub prune-Step :
      (b : Builder) (id l : ℕ)
      → Linked k b
      → id < k
      → Returns (Step k b) (prune_if_over_capacity sorter b id l)
  unfolding prune_if_over_capacity
  prune-Step b id zero o h = Returns-bind (row-All k b o id h) λ row (nodes, _).
      Returns-if (leb (length row) b.graph.m0) (λ fits. returns (o, Kept-refl b))
        λ long. Returns-bind (prune_list-Within b id row b.graph.m0 o h nodes) λ kept (within, few).
          Returns-bind (write_row-Step k b o id kept h within few) λ g s. returns s
  prune-Step b id (suc j) o h =
      Returns-if (leb (length b.upper_conns) j) (λ absent. returns (o, Kept-refl b))
        λ present.
          let inside : j < length b.upper_conns = ground arith in
          let (read, fine) = links-All k b o j inside in
          let links = get_or b.upper_conns j [] in
          let nodes = links_of-All k links id fine.inside in
          rw read (
            Returns-if (leb (length (links_of links id)) b.graph.m)
              (λ fits. returns (o, Kept-refl b))
              λ long.
                Returns-bind (prune_list-Within b id (links_of links id) b.graph.m o h nodes)
                  λ kept (within, few). returns (
                    put-Step b b.upper_conns j id (ids_of kept) o o.upper_ok (omega arith) inside h
                      (ids_of-All k b.graph.n kept o.bound o.size_ok within)))
