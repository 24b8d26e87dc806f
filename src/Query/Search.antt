-- ===== src/Query/Search.antt =====
-- internal/hnsw/query.go: the greedy descent, the search of layer 0 and `QueryFast5`.
use fraud_detection_api.Base.{
  ℕ, zero, suc, ℤ, pos, negsuc, ltb_ℤ, pos_part, Bool, true, false, List, [], ◌∷◌, if◌then◌else◌,
}
use fraud_detection_api.Run.{Run, ok, out_of_fuel, ◌>>=◌}
use fraud_detection_api.Vector.{Vector}
use fraud_detection_api.Dist.{dist}
use fraud_detection_api.Graph.{Graph, vector_at, layer0_neighbors, upper_neighbors}
use fraud_detection_api.Query.Heap.{push_min, pop_min}
use fraud_detection_api.Query.Slot.{VisitSlot, store, bump, visit_all}
use fraud_detection_api.Query.Top.{top5_from_results}

-- The variables of the hill-climb.
pub record Climb : Type 0 where
  pub current : ℕ
  pub best_dist : ℤ
  pub improved : Bool

unfoldable pub climb_all : Graph → Vector ℤ → Climb → List ℤ → Run Climb
climb_all g q c [] = ok c
climb_all g q c (negsuc _ ∷ nbs) = climb_all g q c nbs
climb_all g q c (pos nb ∷ nbs) = do
  v ← vector_at g nb
  let d = dist q v
  climb_all g q
      (if ltb_ℤ d c.best_dist then record { current = nb; best_dist = d; improved = true } else c)
      nbs

-- The outer loop, with fuel.
unfoldable pub climb_loop : ℕ → Graph → Vector ℤ → ℕ → ℕ → ℤ → Run ℕ
climb_loop zero g q layer current best_dist = out_of_fuel
climb_loop (suc k) g q layer current best_dist = do
  nbs ← upper_neighbors g current layer
  c ← climb_all g q (record { current = current; best_dist = best_dist; improved = false }) nbs
  let again = climb_loop k g q layer c.current c.best_dist
  if c.improved then again else ok c.current

-- Each round lowers the distance, so a round more than the first distance is enough.
unfoldable pub greedy_descend_upper : Graph → Vector ℤ → ℕ → ℕ → Run ℕ
unfolding climb_all climb_loop
greedy_descend_upper g q entry layer = do
  v ← vector_at g entry
  climb_loop (suc (pos_part (dist q v))) g q layer entry (dist q v)

unfoldable pub descend : ℕ → Graph → Vector ℤ → ℕ → Run ℕ
unfolding greedy_descend_upper
descend zero g q entry = ok entry
descend (suc layer) g q entry = greedy_descend_upper g q entry (suc layer) >>= descend layer g q

-- The slot behind `slot.resWorstI = 0`.
unfoldable pub start_search : Graph → Vector ℤ → ℕ → VisitSlot → Run VisitSlot
start_search g q entry slot = do
  let s = bump slot
  v ← vector_at g entry
  let d0 = dist q v
  marks ← store s.marks entry s.gen
  cands ← push_min [] (record { id = entry; dist = d0 })
  ids ← store s.res_ids 0 entry
  dists ← store s.res_dists 0 d0
  ok (record s {
    marks = marks;
    cands = cands;
    res_ids = ids;
    res_dists = dists;
    res_cnt = 1;
    res_worst_d = d0;
    res_worst_i = 0;
  })

-- The loop over the candidates, with fuel.
unfoldable pub search_loop : ℕ → Graph → Vector ℤ → VisitSlot → Run VisitSlot
search_loop zero g q s = out_of_fuel
search_loop (suc k) g q s = elim s.cands [
  | [] ↦ ok s
  | c ∷ _ ↦ (do
    cands ← pop_min s.cands
    let t = record s { cands = cands }
    let expand = do nbs ← layer0_neighbors g c.id; u ← visit_all g q t nbs; search_loop k g q u
    if ltb_ℤ s.res_worst_d c.dist then ok t else expand)
]

-- A node is a candidate once, so a round more than the nodes is enough.
unfoldable pub search_layer0_fast : Graph → Vector ℤ → ℕ → VisitSlot → Run VisitSlot
unfolding start_search search_loop
search_layer0_fast g q entry slot = do s ← start_search g q entry slot; search_loop (suc g.n) g q s

-- The slot afterwards, and `out`.
unfoldable pub query_fast5 : Graph → Vector ℤ → VisitSlot → Run (VisitSlot × List ℕ)
unfolding descend search_layer0_fast top5_from_results
query_fast5 g q slot = do
  entry ← descend (pos_part g.max_layer) g q g.entry_point
  s ← search_layer0_fast g q entry slot
  out ← top5_from_results s
  ok (s, out)
