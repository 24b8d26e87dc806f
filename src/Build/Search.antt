-- ===== src/Build/Search.antt =====
-- internal/hnsw/hnsw.go: the searches of one layer during an insertion.
use fraud_detection_api.Base.{
  ltb, ◌==◌, if◌then◌else◌, length, replicate, ℤ, pos_part, ltb_ℤ, pos, negsuc, ℕ, zero, suc, ◌+◌,
  ◌%◌, ◌^◌, false, ◌||◌, List, [], ◌∷◌,
}
use fraud_detection_api.Build.{Builder, neighbors_at}
use fraud_detection_api.Build.Queue.{push_max, pop_max}
use fraud_detection_api.Dist.{dist}
use fraud_detection_api.Graph.{Graph, fetch, vector_at}
use fraud_detection_api.Query.Heap.{DistItem, push_min, pop_min}
use fraud_detection_api.Query.Search.{climb_all}
use fraud_detection_api.Query.Slot.{store}
use fraud_detection_api.Run.{◌>>=◌, Run, out_of_fuel, ok}
use fraud_detection_api.Vector.{Vector}

-- The variables of the search of a layer.
pub record Hunt : Type 0 where
  pub seen : List ℕ
  pub cand_heap : List DistItem
  pub res_heap : List DistItem

-- The climb's loop, with fuel.
unfoldable pub greedy_loop : ℕ → Builder → Vector ℤ → ℤ → ℕ → ℤ → Run ℕ
greedy_loop zero b q layer current best_dist = out_of_fuel
greedy_loop (suc k) b q layer current best_dist = do
  nbs ← neighbors_at b current layer
  c ←
      climb_all b.graph q (record { current = current; best_dist = best_dist; improved = false })
        nbs
  let again = greedy_loop k b q layer c.current c.best_dist
  if c.improved then again else ok c.current

-- Each round lowers the distance, so a round more than the first distance is enough.
unfoldable pub greedy_descend : Builder → Vector ℤ → ℕ → ℤ → Run ℕ
unfolding greedy_loop
greedy_descend b q entry layer = do
  v ← vector_at b.graph entry
  greedy_loop (suc (pos_part (dist q v))) b q layer entry (dist q v)

unfoldable pub reset_visited : Builder → Builder
reset_visited b =
    let gen = (b.vis_gen + 1) % 2 ^ 32 in
    if gen == 0
    then record b { visited = replicate (length b.visited) 0; vis_gen = 1 }
    else record b { vis_gen = gen }

-- A new node that the search reaches: kept if it is close enough, or if there is room.
unfoldable pub keep_near : ℕ → Hunt → ℕ → ℤ → Run Hunt
keep_near ef s n d =
    let keep = do
      cands ← push_min s.cand_heap (record { id = n; dist = d })
      res ← push_max s.res_heap (record { id = n; dist = d })
      trimmed ← (if ltb ef (length res) then pop_max res else ok res)
      ok (record s { cand_heap = cands; res_heap = trimmed })
    in do
      worst ← fetch s.res_heap 0
      if ltb (length s.res_heap) ef || ltb_ℤ d worst.dist then keep else ok s

unfoldable pub reach : Graph → Vector ℤ → ℕ → ℕ → Hunt → ℤ → Run Hunt
unfolding keep_near
reach g q ef gen s (negsuc _) = ok s
reach g q ef gen s (pos n) = do
  mark ← fetch s.seen n
  let fresh = do
    seen ← store s.seen n gen
    v ← vector_at g n
    keep_near ef (record s { seen = seen }) n (dist q v)
  if mark == gen then ok s else fresh

unfoldable pub reach_all : Graph → Vector ℤ → ℕ → ℕ → Hunt → List ℤ → Run Hunt
unfolding reach
reach_all g q ef gen s [] = ok s
reach_all g q ef gen s (nb ∷ nbs) = do t ← reach g q ef gen s nb; reach_all g q ef gen t nbs

-- The loop over the candidates, with fuel.
unfoldable pub hunt_loop : ℕ → Builder → Vector ℤ → ℕ → ℤ → Hunt → Run Hunt
hunt_loop zero b q ef layer s = out_of_fuel
hunt_loop (suc k) b q ef layer s = elim s.cand_heap [
  | [] ↦ ok s
  | c ∷ _ ↦ (do
    cands ← pop_min s.cand_heap
    worst ← fetch s.res_heap 0
    let t = record s { cand_heap = cands }
    let expand = do
      nbs ← neighbors_at b c.id layer
      u ← reach_all b.graph q ef b.vis_gen t nbs
      hunt_loop k b q ef layer u
    if ltb_ℤ worst.dist c.dist then ok t else expand)
]

-- Behind `b.resetVisited()`: the builder afterwards, and `tmpResults`. A node is a candidate once,
-- so a round more than the nodes is enough.
unfoldable pub search_from : Builder → Vector ℤ → ℕ → ℕ → ℤ → Run (Builder × List DistItem)
unfolding hunt_loop reach_all
search_from b q entry ef layer = do
  seen ← store b.visited entry b.vis_gen
  v ← vector_at b.graph entry
  let first : DistItem = record { id = entry; dist = dist q v }
  cands ← push_min [] first
  res ← push_max [] first
  s ←
      hunt_loop (suc b.graph.n) b q ef layer
        (record { seen = seen; cand_heap = cands; res_heap = res })
  ok (record b { visited = s.seen }, s.res_heap)

unfoldable pub search_layer : Builder → Vector ℤ → ℕ → ℕ → ℤ → Run (Builder × List DistItem)
unfolding reset_visited search_from
search_layer b q entry ef layer = search_from (reset_visited b) q entry ef layer
