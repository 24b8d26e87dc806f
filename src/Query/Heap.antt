-- ===== src/Query/Heap.antt =====
-- internal/hnsw/query.go: the binary min-heap of candidates, `pushMin` and `popMin`.
pub mod Order
pub mod Push
pub mod Pop
use fraud_detection_api.Base.{
  ℕ, zero, suc, ◌+◌, ◌-◌, ◌*◌, ◌/◌, ℤ, leb_ℤ, ltb_ℤ, List, [], ◌∷◌, ◌++◌, ltb, leb, if◌then◌else◌,
  length, set, take,
}
use fraud_detection_api.Run.{Run, ok, out_of_fuel, ◌>>=◌}
use fraud_detection_api.Graph.{fetch}

pub record DistItem : Type 0 where
  pub id : ℕ
  pub dist : ℤ

-- `h[i], h[j] = h[j], h[i]`
unfoldable pub swap : List DistItem → ℕ → ℕ → Run (List DistItem)
swap h i j = do x ← fetch h j; y ← fetch h i; ok (set (set h i x) j y)

abbrev pub parent : ℕ → ℕ
parent i = (i - 1) / 2

-- The loop of `pushMin`, with fuel.
unfoldable pub push_loop : ℕ → List DistItem → ℕ → Run (List DistItem)
push_loop zero h i = out_of_fuel
push_loop (suc k) h i =
    let rise = swap h (parent i) i >>= λ h'. push_loop k h' (parent i) in
    let look = do p ← fetch h (parent i); x ← fetch h i; if leb_ℤ p.dist x.dist then ok h else rise
    in if ltb 0 i then look else ok h

unfoldable pub push_min : List DistItem → DistItem → Run (List DistItem)
unfolding push_loop swap
push_min h x = push_loop (suc (length h)) (h ++ x ∷ []) (length h)

-- The child to compare with; `&&` reads the right child only if it exists.
unfoldable pub smaller_child : List DistItem → ℕ → ℕ → Run ℕ
smaller_child h n i =
    let l = 2 * i + 1 in
    let r = l + 1 in
    if ltb r n
    then (do x ← fetch h r; y ← fetch h l; ok (if ltb_ℤ x.dist y.dist then r else l))
    else ok l

-- The loop of `popMin`, with fuel.
unfoldable pub pop_loop : ℕ → List DistItem → ℕ → ℕ → Run (List DistItem)
pop_loop zero h n i = out_of_fuel
pop_loop (suc k) h n i =
    let look : Run (List DistItem) = do
      c ← smaller_child h n i
      x ← fetch h i
      y ← fetch h c
      let sink = swap h i c >>= λ h'. pop_loop k h' n c
      if leb_ℤ x.dist y.dist then ok h else sink
    in if leb n (2 * i + 1) then ok h else look

unfoldable pub pop_min : List DistItem → Run (List DistItem)
unfolding pop_loop smaller_child swap
pop_min h =
    let n = length h in
    let rest = do last ← fetch h (n - 1); pop_loop n (take (n - 1) (set h 0 last)) (n - 1) 0
    in if leb n 1 then ok [] else rest
