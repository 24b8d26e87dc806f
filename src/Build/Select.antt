-- ===== src/Build/Select.antt =====
-- internal/hnsw/hnsw.go: the choice of neighbors. `sort.Slice` may order items at one distance in
-- any way, so the sort is a parameter: `Sorter` says what the code relies on.
use fraud_detection_api.Base.{
  leb, if◌then◌else◌, length, drop, ℤ, ◌≤ℤ◌, ltb_ℤ, Same, ℕ, suc, ◌<◌, Bool, true, false, List, [],
  ◌∷◌, ◌++◌,
}
use fraud_detection_api.Dist.{dist2}
use fraud_detection_api.Graph.{Graph, vector_at}
use fraud_detection_api.Query.Heap.{DistItem}
use fraud_detection_api.Query.Heap.Order.{far}
use fraud_detection_api.Run.{◌>>=◌, Run, ok}
use fraud_detection_api.Vector.{Vector}

pub record Sorter : Type 0 where
  pub sort_slice : List DistItem → List DistItem
  pub sort_slice-Same : (cands : List DistItem) → Same (sort_slice cands) cands
  pub sort_slice-ascends :
      (cands : List DistItem) (i : ℕ)
      → suc i < length cands
      → far (sort_slice cands) i ≤ℤ far (sort_slice cands) (suc i)

-- No kept item is closer to the candidate than the query is.
unfoldable pub is_diverse : Graph → Vector ℕ → ℤ → List DistItem → Run Bool
is_diverse g v d [] = ok true
is_diverse g v d (k ∷ kept) =
    let next = is_diverse g v d kept in
    do w ← vector_at g k.id; if ltb_ℤ (dist2 v w) d then ok false else next

unfoldable pub keep_loop : Graph → ℕ → List DistItem → List DistItem → Run (List DistItem)
unfolding is_diverse
keep_loop g m kept [] = ok kept
keep_loop g m kept (c ∷ cands) =
    let next = do
      v ← vector_at g c.id
      good ← is_diverse g v c.dist kept
      keep_loop g m (if good then kept ++ c ∷ [] else kept) cands
    in if leb m (length kept) then ok kept else next

-- The chosen items, and the array that they are written to the head of. The loop reads an item
-- before it writes its place.
unfoldable pub select_neighbors_heuristic :
    Sorter → Graph → List DistItem → ℕ → Run (List DistItem × List DistItem)
unfolding keep_loop
select_neighbors_heuristic sorter g cands m =
    let sorted = sorter.sort_slice cands in
    let choose = do kept ← keep_loop g m [] sorted; ok (kept, kept ++ drop (length kept) sorted)
    in if leb (length sorted) m then ok (sorted, sorted) else choose
