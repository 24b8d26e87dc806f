-- ===== src/Build/Connect.antt =====
-- internal/hnsw/hnsw.go: the edges of a new node, and the pruning of full neighbor lists. The
-- entries that a loop reads or writes one after the other are a slice.
use fraud_detection_api.Base.{
  ltb, leb, if◌then◌else◌, length, set, replicate, ℤ, eqb_ℤ, signed32, unsigned32, pos, negsuc, ℕ,
  zero, suc, ◌+◌, ◌-◌, ◌*◌, ◌%◌, Bool, false, ◌||◌, List, [], ◌∷◌, ◌++◌, map,
}
use fraud_detection_api.Build.{Builder, links_of, put, copy_at, ensure_layers}
use fraud_detection_api.Build.Select.{Sorter, select_neighbors_heuristic}
use fraud_detection_api.Dist.{dist2}
use fraud_detection_api.Graph.{Graph, fetch, vector_at, layer0_neighbors}
use fraud_detection_api.Parse.Grammar.{items}
use fraud_detection_api.Query.Heap.{DistItem}
use fraud_detection_api.Query.Slot.{store}
use fraud_detection_api.Run.{◌>>=◌, Run, ok}
use fraud_detection_api.Vector.{Vector}

-- `int32(k.id)` for each item.
abbrev pub ids_of : List DistItem → List ℤ
ids_of items = map (λ k. signed32 k.id) items

-- The items for a neighbor list, with their distances from `src`.
unfoldable pub measure_all : Graph → Vector ℕ → List ℤ → Run (List DistItem)
measure_all g src [] = ok []
measure_all g src (nb ∷ nbs) = do
  v ← vector_at g (unsigned32 nb)
  rest ← measure_all g src nbs
  ok (record { id = unsigned32 nb; dist = dist2 src v } ∷ rest)

-- The kept items, then sentinels, in the row of `id`; and the count.
unfoldable pub write_row : Graph → ℕ → List DistItem → Run Graph
unfolding copy_at
write_row g id kept = do
  conns ← copy_at g.conn0 (id * g.m0) (ids_of kept ++ replicate (g.m0 - length kept) (negsuc 0))
  cnts ← store g.conn0_cnt id (length kept % 256)
  ok (record g { conn0 = conns; conn0_cnt = cnts })

unfoldable pub has_edge : ℤ → List ℤ → Bool
has_edge x [] = false
has_edge x (y ∷ ys) = eqb_ℤ y x || has_edge x ys

unfoldable pub relink_layer0 : Sorter → Graph → ℕ → ℕ → Run Graph
unfolding measure_all write_row has_edge select_neighbors_heuristic
relink_layer0 sorter g src new_dst = do
  src_vec ← vector_at g src
  row ← layer0_neighbors g src
  let merge = do
    cands ← measure_all g src_vec row
    v ← vector_at g new_dst
    (kept, _) ←
        select_neighbors_heuristic sorter g
          (cands ++ record { id = new_dst; dist = dist2 src_vec v } ∷ []) g.m0
    write_row g src kept
  if has_edge (signed32 new_dst) row then ok g else merge

-- The case of layer 0.
unfoldable pub add_edge0 : Sorter → Graph → ℕ → ℕ → Run Graph
unfolding relink_layer0
add_edge0 sorter g src dst = do
  cnt ← fetch g.conn0_cnt src
  let append = do
    conns ← store g.conn0 (src * g.m0 + cnt) (signed32 dst)
    cnts ← store g.conn0_cnt src ((cnt + 1) % 256)
    ok (record g { conn0 = conns; conn0_cnt = cnts })
  let relink = relink_layer0 sorter g src dst
  if ltb cnt g.m0 then append else relink

unfoldable pub add_edge : Sorter → Builder → ℕ → ℕ → ℕ → Run Builder
unfolding add_edge0 links_of put ensure_layers
add_edge sorter b src dst zero = do
  g ← add_edge0 sorter b.graph src dst
  ok (record b { graph = g })
add_edge sorter b src dst (suc l) = do
  let layers = ensure_layers b.upper_conns (pos (suc l))
  links ← fetch layers l
  ok (record b {
    upper_conns = set layers l (put links src (links_of links src ++ signed32 dst ∷ []));
  })

-- The kept neighbors of a list that is too long.
unfoldable pub prune_list : Sorter → Graph → ℕ → List ℤ → ℕ → Run (List DistItem)
unfolding measure_all select_neighbors_heuristic
prune_list sorter g id current limit = do
  src ← vector_at g id
  cands ← measure_all g src current
  (kept, _) ← select_neighbors_heuristic sorter g cands limit
  ok kept

unfoldable pub prune_if_over_capacity : Sorter → Builder → ℕ → ℕ → Run Builder
unfolding prune_list write_row links_of put
prune_if_over_capacity sorter b id zero = do
  current ← layer0_neighbors b.graph id
  let prune = do
    kept ← prune_list sorter b.graph id current b.graph.m0
    g ← write_row b.graph id kept
    ok (record b { graph = g })
  if leb (length current) b.graph.m0 then ok b else prune
prune_if_over_capacity sorter b id (suc l) =
    let look = do
      links ← fetch b.upper_conns l
      let current = links_of links id
      let prune = do
        kept ← prune_list sorter b.graph id current b.graph.m
        ok (record b { upper_conns = set b.upper_conns l (put links id (ids_of kept)) })
      if leb (length current) b.graph.m then ok b else prune
    in if leb (length b.upper_conns) l then ok b else look

-- The edges from the new node.
unfoldable pub connect_out : Sorter → Builder → ℕ → ℕ → List DistItem → Run Builder
unfolding add_edge
connect_out sorter b new_id l [] = ok b
connect_out sorter b new_id l (s ∷ selected) = do
  b1 ← add_edge sorter b new_id s.id l
  connect_out sorter b1 new_id l selected

-- The edges to the new node.
unfoldable pub connect_back : Sorter → Builder → ℕ → ℕ → List DistItem → Run Builder
unfolding add_edge prune_if_over_capacity
connect_back sorter b new_id l [] = ok b
connect_back sorter b new_id l (s ∷ selected) = do
  b1 ← add_edge sorter b s.id new_id l
  b2 ← prune_if_over_capacity sorter b1 s.id l
  connect_back sorter b2 new_id l selected

unfoldable pub connect_bidirectional : Sorter → Builder → ℕ → List DistItem → ℕ → Run Builder
unfolding connect_out connect_back
connect_bidirectional sorter b new_id selected l = do
  b1 ← connect_out sorter b new_id l selected
  connect_back sorter b1 new_id l selected
