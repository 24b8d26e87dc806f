-- ===== src/Query/Slot.antt =====
-- internal/hnsw/query.go: a worker's buffers, and the admission of one node to the results.
use fraud_detection_api.Base.{
  ℕ, zero, suc, ◌+◌, ◌%◌, ℤ, pos, negsuc, ltb_ℤ, List, [], ◌∷◌, ◌||◌, ltb, ◌==◌, if◌then◌else◌,
  length, set, replicate,
}
use fraud_detection_api.Run.{Run, ok, panic, ◌>>=◌}
use fraud_detection_api.Vector.{Vector}
use fraud_detection_api.Dist.{dist}
use fraud_detection_api.Graph.{Graph, fetch, vector_at}
use fraud_detection_api.Query.Heap.{DistItem, push_min}

abbrev pub query_ef : ℕ
query_ef = 10

pub record VisitSlot : Type 0 where
  pub marks : List ℕ
  pub gen : ℕ
  pub cands : List DistItem
  pub res_ids : List ℕ
  pub res_dists : List ℤ
  pub res_cnt : ℕ
  pub res_worst_d : ℤ
  pub res_worst_i : ℕ

-- The capacity of `cands` is not modelled.
unfoldable pub new_visit_slot : ℕ → VisitSlot
new_visit_slot n = record {
  marks = replicate n 0;
  gen = 0;
  cands = [];
  res_ids = replicate query_ef 0;
  res_dists = replicate query_ef (pos 0);
  res_cnt = 0;
  res_worst_d = pos 0;
  res_worst_i = 0;
}

-- `xs[i] = v`
abbrev pub store {ℓ} : {A : Type ℓ} → List A → ℕ → A → Run (List A)
store xs i v = if ltb i (length xs) then ok (set xs i v) else panic

-- `slot.gen++` on uint8, with the clearing of the marks when it wraps to 0.
unfoldable pub bump : VisitSlot → VisitSlot
bump s =
    let gen = (s.gen + 1) % 256 in
    if gen == 0
    then record s { marks = replicate (length s.marks) 0; gen = 1 }
    else record s { gen = gen }

-- The re-scan `for i := 1; i < queryEf; i++`, in `k` rounds from `i`.
unfoldable pub worst_loop : ℕ → List ℤ → ℕ → ℤ → ℕ → Run (ℤ × ℕ)
worst_loop zero dists i worst_d worst_i = ok (worst_d, worst_i)
worst_loop (suc k) dists i worst_d worst_i = do
  d ← fetch dists i
  worst_loop k dists (i + 1) (if ltb_ℤ worst_d d then d else worst_d)
      (if ltb_ℤ worst_d d then i else worst_i)

unfoldable pub find_worst : List ℤ → Run (ℤ × ℕ)
unfolding worst_loop
find_worst dists = do first ← fetch dists 0; worst_loop 9 dists 1 first 0

-- While the results are not full.
unfoldable pub append_result : VisitSlot → ℕ → ℤ → Run VisitSlot
append_result s n d = do
  ids ← store s.res_ids s.res_cnt n
  dists ← store s.res_dists s.res_cnt d
  cands ← push_min s.cands (record { id = n; dist = d })
  let worse = ltb_ℤ s.res_worst_d d || s.res_cnt == 0
  ok (record s {
    cands = cands;
    res_ids = ids;
    res_dists = dists;
    res_cnt = s.res_cnt + 1;
    res_worst_d = if worse then d else s.res_worst_d;
    res_worst_i = if worse then s.res_cnt else s.res_worst_i;
  })

-- In place of the worst result.
unfoldable pub replace_worst : VisitSlot → ℕ → ℤ → Run VisitSlot
replace_worst s n d = do
  ids ← store s.res_ids s.res_worst_i n
  dists ← store s.res_dists s.res_worst_i d
  (worst_d, worst_i) ← find_worst dists
  cands ← push_min s.cands (record { id = n; dist = d })
  ok (record s {
    cands = cands;
    res_ids = ids;
    res_dists = dists;
    res_worst_d = worst_d;
    res_worst_i = worst_i;
  })

unfoldable pub admit : VisitSlot → ℕ → ℤ → Run VisitSlot
unfolding append_result replace_worst
admit s n d =
    if ltb s.res_cnt query_ef
    then append_result s n d
    else if ltb_ℤ d s.res_worst_d
    then replace_worst s n d
    else ok s

-- One neighbor of the node that is expanded.
unfoldable pub visit : Graph → Vector ℤ → VisitSlot → ℤ → Run VisitSlot
unfolding admit
visit g q s (negsuc _) = ok s
visit g q s (pos n) = do
  seen ← fetch s.marks n
  let fresh = do
    marks ← store s.marks n s.gen
    v ← vector_at g n
    admit (record s { marks = marks }) n (dist q v)
  if seen == s.gen then ok s else fresh

unfoldable pub visit_all : Graph → Vector ℤ → VisitSlot → List ℤ → Run VisitSlot
unfolding visit
visit_all g q s [] = ok s
visit_all g q s (nb ∷ nbs) = do t ← visit g q s nb; visit_all g q t nbs
