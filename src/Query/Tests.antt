-- ===== src/Query/Tests.antt =====
-- The query's theorems over a graph of two nodes.
use fraud_detection_api.Base.{
  ℕ, zero, suc, ◌<◌, ◌≤◌, ◌≡◌, ◌⊎◌, pos, [], ◌∷◌, refl, sym, ap, replicate, ◌≤ℤ◌, arith,
}
use fraud_detection_api.Run.{Returns}
use fraud_detection_api.Alike.{Alike}
use fraud_detection_api.Query.Independent.{query_fast5-Alike}
use fraud_detection_api.Vector.{Vector, Each}
use fraud_detection_api.Dist.{dist, dist2}
use fraud_detection_api.Dist.Bounds.{IsByte, widen, euclid, dist_exact}
use fraud_detection_api.Graph.Tests.{pair, pair-WellFormed}
use fraud_detection_api.Query.Slot.{VisitSlot, new_visit_slot}
use fraud_detection_api.Query.Heap.{DistItem, push_min, pop_min}
use fraud_detection_api.Query.Heap.Order.{IsHeap, Sifted}
use fraud_detection_api.Query.Heap.Push.{push_min-Sifted}
use fraud_detection_api.Query.Heap.Pop.{pop_min-Sifted}
use fraud_detection_api.Query.Search.{greedy_descend_upper, search_layer0_fast, query_fast5}
use fraud_detection_api.Query.Top.{top5_from_results}
use fraud_detection_api.Query.Results.{res_id, res_dist, ResOk, InRes, Beaten}
use fraud_detection_api.Query.Near.{near, vec}
use fraud_detection_api.Graph.{vector_at, to_vector}
use fraud_detection_api.Query.Descent.{IsLocal, greedy_descend_upper-IsLocal}
use fraud_detection_api.Query.Start.{Usable, new_visit_slot-Usable}
use fraud_detection_api.Query.Layer0.{Found, search_layer0_fast-Found}
use fraud_detection_api.Query.Nearest.{Top5, top5_from_results-Top5}
use fraud_detection_api.Query.Answer.{Answer, IsExact, query_fast5-Answer, query_fast5-IsExact}

abbrev pub nines : Vector ℕ
nines = record {
  v0 = 9;
  v1 = 9;
  v2 = 9;
  v3 = 9;
  v4 = 9;
  v5 = 9;
  v6 = 9;
  v7 = 9;
  v8 = 9;
  v9 = 9;
  v10 = 9;
  v11 = 9;
  v12 = 9;
  v13 = 9;
}

pub nines-Each : Each IsByte nines
nines-Each = record {
  at0 = omega arith;
  at1 = omega arith;
  at2 = omega arith;
  at3 = omega arith;
  at4 = omega arith;
  at5 = omega arith;
  at6 = omega arith;
  at7 = omega arith;
  at8 = omega arith;
  at9 = omega arith;
  at10 = omega arith;
  at11 = omega arith;
  at12 = omega arith;
  at13 = omega arith;
}

dist_exact_example :
    (dist (widen nines) nines ≡ pos (euclid nines nines))
    × (dist2 nines nines ≡ pos (euclid nines nines))
    × (euclid nines nines ≤ 910350)
dist_exact_example = dist_exact nines nines nines-Each nines-Each

abbrev item : ℕ → ℕ → DistItem
item id d = record { id = id; dist = pos d }

push_min-Sifted_example :
    Returns (Sifted (item 7 1 ∷ item 3 4 ∷ [])) (push_min (item 3 4 ∷ []) (item 7 1))
push_min-Sifted_example = push_min-Sifted (item 3 4 ∷ []) (item 7 1) λ c p q. absurd (omega arith)

three-IsHeap : IsHeap (item 3 1 ∷ item 5 4 ∷ item 6 2 ∷ [])
three-IsHeap zero p q = absurd (omega arith)
three-IsHeap (suc zero) p q = ground arith
three-IsHeap (suc (suc zero)) p q = ground arith
three-IsHeap (suc (suc (suc c))) p q = absurd (omega arith)

pop_min-Sifted_example :
    Returns (Sifted (item 5 4 ∷ item 6 2 ∷ [])) (pop_min (item 3 1 ∷ item 5 4 ∷ item 6 2 ∷ []))
pop_min-Sifted_example = pop_min-Sifted (item 3 1) (item 5 4 ∷ item 6 2 ∷ []) three-IsHeap

greedy_descend_upper-IsLocal_example :
    Returns
      (IsLocal pair pair-WellFormed nines nines-Each 1 0)
      (greedy_descend_upper pair (widen nines) 0 1)
greedy_descend_upper-IsLocal_example =
    greedy_descend_upper-IsLocal pair pair-WellFormed nines nines-Each 0 0 (omega arith)
      (omega arith)

search_layer0_fast-Found_example :
    Returns
      (λ t. Found pair nines t × (InRes t 0 ⊎ Beaten pair nines t 0))
      (search_layer0_fast pair (widen nines) 0 (new_visit_slot 2))
search_layer0_fast-Found_example =
    search_layer0_fast-Found pair pair-WellFormed nines nines-Each 0 (new_visit_slot 2)
      (omega arith) (new_visit_slot-Usable pair)

query_fast5-Answer_example :
    Returns
      (λ (t, out). Answer pair nines t out)
      (query_fast5 pair (widen nines) (new_visit_slot 2))
query_fast5-Answer_example =
    query_fast5-Answer pair pair-WellFormed nines nines-Each (new_visit_slot 2)
      (new_visit_slot-Usable pair)

query_fast5-IsExact_example :
    Returns
      (λ (t, out). (t.res_cnt ≡ 10) ⊎ IsExact pair nines t out)
      (query_fast5 pair (widen nines) (new_visit_slot 2))
query_fast5-IsExact_example =
    query_fast5-IsExact pair pair-WellFormed nines nines-Each (new_visit_slot 2)
      (new_visit_slot-Usable pair)

abbrev one_result : VisitSlot
one_result = record (new_visit_slot 2) {
  res_ids = 1 ∷ replicate 9 0;
  res_dists = pos 14 ∷ replicate 9 (pos 0);
  res_cnt = 1;
  res_worst_d = pos 14;
  res_worst_i = 0;
}

near-pair : near pair nines 1 ≡ 14
unfolding near vec euclid vector_at to_vector
near-pair = refl

one_result-ResOk : ResOk pair nines one_result
one_result-ResOk = record {
  ids_size = refl;
  dists_size = refl;
  some_result = omega arith;
  room = omega arith;
  inside = λ j h. ground arith;
  exact = only;
  distinct = λ i j p q. absurd (omega arith);
  worst = record { inside = omega arith; at = refl; most = least };
}
  where
    only : (j : ℕ) → j < 1 → res_dist one_result j ≡ pos (near pair nines (res_id one_result j))
    only zero h = ap pos (sym near-pair)
    only (suc j) h = absurd (omega arith)

    least : (j : ℕ) → j < 1 → res_dist one_result j ≤ℤ pos 14
    least zero h = ground arith
    least (suc j) h = absurd (omega arith)

top5_from_results-Top5_example :
    Returns (Top5 pair nines one_result one_result-ResOk) (top5_from_results one_result)
top5_from_results-Top5_example = top5_from_results-Top5 pair nines one_result one_result-ResOk

-- A slot whose generation wraps around at the next query, with marks and results of old ones.
abbrev pub used_slot : VisitSlot
used_slot = record {
  marks = 255 ∷ 3 ∷ [];
  gen = 255;
  cands = item 9 9 ∷ [];
  res_ids = 1 ∷ 0 ∷ replicate 8 7;
  res_dists = replicate 10 (pos 5);
  res_cnt = 2;
  res_worst_d = pos 5;
  res_worst_i = 1;
}

pub used_slot-Usable : Usable pair used_slot
used_slot-Usable = record {
  marks_size = refl;
  marks_le = ground arith;
  gen_le = omega arith;
  ids_size = refl;
  dists_size = refl;
}

query_fast5-Alike_example :
    Alike
      (λ (_, out) (_, other). out ≡ other)
      (query_fast5 pair (widen nines) used_slot)
      (query_fast5 pair (widen nines) (new_visit_slot 2))
query_fast5-Alike_example =
    query_fast5-Alike pair (widen nines) used_slot (new_visit_slot 2) used_slot-Usable
      (new_visit_slot-Usable pair)
