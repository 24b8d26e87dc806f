-- ===== src/Build/Insert.antt =====
-- internal/hnsw/hnsw.go: `Insert`. `draw` is the level that the random source gives,
-- `int8(-math.Log(u) * b.mL)`, before it is capped.
use fraud_detection_api.Base.{
  ◌==◌, if◌then◌else◌, ℤ, pos_part, neg_part, ltb_ℤ, add_ℕ, pos, negsuc, ℕ, zero, suc, ◌+◌, ◌-◌,
  ◌*◌, ◌%◌, ◌^◌, List, [], ◌∷◌,
}
use fraud_detection_api.Build.{
  Builder, set_label, copy_at, entries, ensure_layers, register_on_upper_layers,
}
use fraud_detection_api.Build.Connect.{connect_bidirectional}
use fraud_detection_api.Build.Search.{greedy_descend, search_layer}
use fraud_detection_api.Build.Select.{Sorter, select_neighbors_heuristic}
use fraud_detection_api.Config.{vector_dim}
use fraud_detection_api.Dist.Bounds.{widen}
use fraud_detection_api.Graph.{Graph}
use fraud_detection_api.Query.Heap.{DistItem}
use fraud_detection_api.Query.Slot.{store}
use fraud_detection_api.Run.{◌>>=◌, Run, ok}
use fraud_detection_api.Vector.{Vector}

-- The loop from `maxL` down to `level + 1`, in rounds.
unfoldable pub descend_above : ℕ → Builder → Vector ℤ → ℤ → ℕ → Run ℕ
unfolding greedy_descend
descend_above zero b q level entry = ok entry
descend_above (suc r) b q level entry = do
  next ← greedy_descend b q entry (add_ℕ level (suc r))
  descend_above r b q level next

-- The nearest item, for the entry to the next layer.
unfoldable pub best_of : DistItem → List DistItem → DistItem
best_of best [] = best
best_of best (c ∷ cands) = best_of (if ltb_ℤ c.dist best.dist then c else best) cands

unfoldable pub next_entry : ℕ → List DistItem → ℕ
unfolding best_of
next_entry entry [] = entry
next_entry entry (c ∷ cands) = (best_of c cands).id

abbrev pub capacity : Graph → ℕ → ℕ
capacity g zero = g.m0
capacity g (suc _) = g.m

-- One layer of the loop; the builder and the entry to the next layer down.
unfoldable pub insert_at : Sorter → Builder → Vector ℤ → ℕ → ℕ → ℕ → Run (Builder × ℕ)
unfolding search_layer select_neighbors_heuristic connect_bidirectional next_entry
insert_at sorter b q id entry l = do
  (b1, cands) ← search_layer b q entry b.ef_c (pos l)
  (selected, after) ← select_neighbors_heuristic sorter b1.graph cands (capacity b1.graph l)
  b2 ← connect_bidirectional sorter b1 id selected l
  ok (b2, next_entry entry after)

-- The loop over `k` layers, from `k - 1` down to 0.
unfoldable pub insert_down : ℕ → Sorter → Builder → Vector ℤ → ℕ → ℕ → Run Builder
unfolding insert_at
insert_down zero sorter b q id entry = ok b
insert_down (suc l) sorter b q id entry = do
  (b1, next) ← insert_at sorter b q id entry l
  insert_down l sorter b1 q id next

-- The layers from `topL` down to 0: none for a negative `topL`.
abbrev pub layers_below : ℤ → ℕ
layers_below (pos l) = suc l
layers_below (negsuc _) = 0

-- `maxL - level`, where that is positive.
abbrev pub rounds : ℤ → ℤ → ℕ
rounds max_l level = pos_part max_l + neg_part level - (pos_part level + neg_part max_l)

-- The first node.
unfoldable pub insert_first : Builder → ℕ → ℤ → Run Builder
unfolding ensure_layers register_on_upper_layers
insert_first b id level = do
  layers ← register_on_upper_layers (ensure_layers b.upper_conns level) id level
  ok (record b {
    graph = record b.graph { entry_point = id; max_layer = level };
    upper_conns = layers;
    inserted = (b.inserted + 1) % 2 ^ 32;
  })

-- A higher level makes the node the entry point.
unfoldable pub promote : Builder → ℕ → ℤ → Builder
unfolding ensure_layers
promote b id level = record b {
  graph = record b.graph { entry_point = id; max_layer = level };
  upper_conns = ensure_layers b.upper_conns level;
}

-- A node behind the first.
unfoldable pub insert_next : Sorter → Builder → ℕ → Vector ℕ → ℤ → Run Builder
unfolding descend_above insert_down register_on_upper_layers promote
insert_next sorter b id v level = do
  let q = widen v
  let max_l = b.graph.max_layer
  entry ← descend_above (rounds max_l level) b q level b.graph.entry_point
  let top_l = if ltb_ℤ max_l level then max_l else level
  layers ← register_on_upper_layers b.upper_conns id level
  b1 ← insert_down (layers_below top_l) sorter (record b { upper_conns = layers }) q id entry
  let b2 = if ltb_ℤ max_l level then promote b1 id level else b1
  ok (record b2 { inserted = (b2.inserted + 1) % 2 ^ 32 })

-- The steps before the first node is told from the others.
unfoldable pub store_node : Builder → ℕ → Vector ℕ → ℕ → ℤ → Run Builder
unfolding copy_at set_label
store_node b id v label level = do
  vectors ← copy_at b.graph.vectors (id * vector_dim) (entries v)
  g ← set_label (record b.graph { vectors = vectors }) id label
  levels ← store b.levels id level
  ok (record b { graph = g; levels = levels })

unfoldable pub insert : Sorter → Builder → ℕ → Vector ℕ → ℕ → ℤ → Run Builder
unfolding store_node insert_first insert_next
insert sorter b id v label draw = do
  let level = if ltb_ℤ (pos 31) draw then pos 31 else draw
  b1 ← store_node b id v label level
  let first = insert_first b1 id level
  let next = insert_next sorter b1 id v level
  if b1.inserted == 0 then first else next
