-- ===== src/Query/Top.antt =====
-- internal/hnsw/query.go: `top5FromResults`, by repeated selection.
use fraud_detection_api.Base.{
  ℕ, zero, suc, ◌+◌, ℤ, ltb_ℤ, Bool, true, false, List, [], ◌∷◌, Option, none, some, if◌then◌else◌,
  replicate,
}
use fraud_detection_api.Run.{Run, ok, ◌>>=◌}
use fraud_detection_api.Graph.{fetch}
use fraud_detection_api.Query.Slot.{VisitSlot, query_ef, store}

-- `bestI` and `bestD`; `none` is bestI = -1.
abbrev Best : Type 0
Best = Option (ℕ × ℤ)

abbrev pub better : Option (ℕ × ℤ) → ℕ → ℤ → Option (ℕ × ℤ)
better none i d = some (i, d)
better (some (best_i, best_d)) i d = if ltb_ℤ d best_d then some (i, d) else some (best_i, best_d)

-- The inner loop, in `k` rounds from `i`.
unfoldable pub pick_loop : ℕ → List Bool → List ℤ → ℕ → Option (ℕ × ℤ) → Run (Option (ℕ × ℤ))
pick_loop zero taken dists i best = ok best
pick_loop (suc k) taken dists i best = do
  t ← fetch taken i
  d ← fetch dists i
  pick_loop k taken dists (i + 1) (if t then best else better best i d)

-- The outer loop: `k` picks more, in the order of `out`.
unfoldable pub top_loop : ℕ → VisitSlot → List Bool → Run (List ℕ)
unfolding pick_loop
top_loop zero s taken = ok []
top_loop (suc k) s taken = do
  best ← pick_loop s.res_cnt taken s.res_dists 0 none
  elim best [
    | none ↦ (do rest ← top_loop k s taken; ok (0 ∷ rest))
    | some (i, d) ↦ (do
      id ← fetch s.res_ids i
      taken' ← store taken i true
      rest ← top_loop k s taken'
      ok (id ∷ rest))
  ]

unfoldable pub top5_from_results : VisitSlot → Run (List ℕ)
unfolding top_loop
top5_from_results s = top_loop 5 s (replicate query_ef false)
