-- ===== src/Build/Tests.antt =====
-- The builder's theorems at an index of two nodes, of which one is inserted, with an insertion sort.
use fraud_detection_api.Base.{
  if◌then◌else◌, Bool-cases, length, get_or, take, replicate, ℤ, ◌≤ℤ◌, leb_ℤ, pos, negsuc, Same,
  Same-length, ℕ, zero, suc, ◌<◌, ◌≡◌, refl, inl, inr, List, [], ◌∷◌, arith,
}
use fraud_detection_api.Build.{Builder, links_of, new_builder, set_label, overlay}
use fraud_detection_api.Build.Added.{insert-Added}
use fraud_detection_api.Build.Edges.{layers-Step}
use fraud_detection_api.Build.Finalize.{finalize}
use fraud_detection_api.Build.Finalized.{Finalized, finalize-Finalized}
use fraud_detection_api.Build.Found.{Searched, search_layer-Searched}
use fraud_detection_api.Build.Greedy.{IsPeak, greedy_descend-IsPeak}
use fraud_detection_api.Build.Insert.{insert}
use fraud_detection_api.Build.Layers.{finalize-links}
use fraud_detection_api.Build.Linked.{Linked}
use fraud_detection_api.Build.Ready.{Ready}
use fraud_detection_api.Build.Search.{greedy_descend, search_layer}
use fraud_detection_api.Build.Select.{Sorter, select_neighbors_heuristic}
use fraud_detection_api.Build.Selected.{Ascends, Selected, select-Selected}
use fraud_detection_api.Build.Steps.{Added}
use fraud_detection_api.Build.Stored.{Labelled, set_label-Labelled}
use fraud_detection_api.Dist.Bounds.{widen}
use fraud_detection_api.Graph.{upper_neighbors}
use fraud_detection_api.Graph.Tests.{pair, pair-WellFormed}
use fraud_detection_api.Graph.WellFormed.{WellFormed-VectorsOk}
use fraud_detection_api.Query.Heap.{DistItem}
use fraud_detection_api.Query.Heap.Order.{far}
use fraud_detection_api.Query.Tests.{nines, nines-Each}
use fraud_detection_api.Run.{Returns, ok}
use fraud_detection_api.Vector.{Vector}

pub insert_item : DistItem → List DistItem → List DistItem
insert_item x [] = x ∷ []
insert_item x (y ∷ ys) = if leb_ℤ x.dist y.dist then x ∷ y ∷ ys else y ∷ insert_item x ys

pub sort_items : List DistItem → List DistItem
sort_items [] = []
sort_items (x ∷ xs) = insert_item x (sort_items xs)

Same-insert_item : (x : DistItem) (xs : List DistItem) → Same (insert_item x xs) (x ∷ xs)
unfolding insert_item
Same-insert_item x [] p = refl
Same-insert_item x (y ∷ ys) p = ground (arith, Same-insert_item x ys p)

pub Same-sort_items : (xs : List DistItem) → Same (sort_items xs) xs
unfolding sort_items
Same-sort_items [] p = refl
Same-sort_items (x ∷ xs) p =
    omega (arith, Same-insert_item x (sort_items xs) p, Same-sort_items xs p)

-- The head of the sorted list is the new item or the old head.
insert_item-head :
    (x : DistItem) (xs : List DistItem) (d : ℤ)
    → d ≤ℤ x.dist
    → (0 < length xs → d ≤ℤ far xs 0)
    → d ≤ℤ far (insert_item x xs) 0
unfolding insert_item
insert_item-head x [] d h k = h
insert_item-head x (y ∷ ys) d h k = elim (Bool-cases (leb_ℤ x.dist y.dist)) [
  | inl before ↦ rw (before, insert_item) h
  | inr other ↦ rw (other, insert_item) (k (omega arith))
]

insert_item-Ascends : (x : DistItem) (xs : List DistItem) → Ascends xs → Ascends (insert_item x xs)
unfolding insert_item
insert_item-Ascends x [] s = λ i l. absurd (omega arith)
insert_item-Ascends x (y ∷ ys) s = elim (Bool-cases (leb_ℤ x.dist y.dist)) [
  | inl before ↦ rw (before, insert_item) (front (ground arith))
  | inr other ↦
      rw (other, insert_item)
        (back (insert_item-Ascends x ys λ j p. s (suc j) (omega arith)) (ground arith))
]
  where
    front : x.dist ≤ℤ y.dist → Ascends (x ∷ y ∷ ys)
    front h zero l = h
    front h (suc i) l = s i (omega arith)

    back : Ascends (insert_item x ys) → y.dist ≤ℤ x.dist → Ascends (y ∷ insert_item x ys)
    back rest h zero l = insert_item-head x ys y.dist h λ some_one. s 0 (omega arith)
    back rest h (suc i) l = rest i (omega arith)

pub sort_items-Ascends : (xs : List DistItem) → Ascends (sort_items xs)
unfolding sort_items
sort_items-Ascends [] i l = absurd (omega arith)
sort_items-Ascends (x ∷ xs) i l = insert_item-Ascends x (sort_items xs) (sort_items-Ascends xs) i l

abbrev pub insertion : Sorter
insertion = record {
  sort_slice = sort_items;
  sort_slice-Same = Same-sort_items;
  sort_slice-ascends = λ cands i l.
      sort_items-Ascends cands i
        (let e = Same-length (sort_items cands) cands (Same-sort_items cands) in omega arith);
}

abbrev zeros : Vector ℕ
zeros = record {
  v0 = 0;
  v1 = 0;
  v2 = 0;
  v3 = 0;
  v4 = 0;
  v5 = 0;
  v6 = 0;
  v7 = 0;
  v8 = 0;
  v9 = 0;
  v10 = 0;
  v11 = 0;
  v12 = 0;
  v13 = 0;
}

-- The builder behind the insertion of node 0, on layer 1.
abbrev one : Builder
one = record {
  graph = record {
    n = 2;
    m = 1;
    m0 = 1;
    vectors = replicate 28 0;
    conn0 = negsuc 0 ∷ negsuc 0 ∷ [];
    conn0_cnt = 0 ∷ 0 ∷ [];
    labels = 0 ∷ [];
    upper_off = [];
    upper_nodes = [];
    upper_cnt = [];
    upper_conn = [];
    entry_point = 0;
    max_layer = pos 1;
  };
  levels = pos 1 ∷ pos 0 ∷ [];
  upper_conns = ((0, []) ∷ []) ∷ [];
  ef_c = 2;
  visited = 0 ∷ 0 ∷ [];
  vis_gen = 0;
  inserted = 1;
}

one_inserted : insert insertion (new_builder 2 1 1 2) 0 zeros 0 (pos 1) ≡ ok one
unfolding insert new_builder overlay
one_inserted = refl

no_rows : (i j : ℕ) → j < get_or (0 ∷ 0 ∷ []) i 0 → ⊥
no_rows zero j h = omega arith
no_rows (suc zero) j h = omega arith
no_rows (suc (suc i)) j h = omega arith

one-Linked : Linked 1 one
one-Linked = record {
  size_ok = omega arith;
  bound = omega arith;
  m_le = omega arith;
  m0_le = omega arith;
  vectors_ok = record { size = refl; bytes = ground arith };
  counts_size = refl;
  counts_le = ground arith;
  conns_size = refl;
  conns_ok = ground arith;
  rows_ok = λ i j h l. absurd (no_rows i j l);
  labels_size = refl;
  upper_ok = (record { inside = ground arith; once = λ v. ground arith }, tt);
  visited_size = refl;
  visited_le = ground arith;
  gen_lt = omega arith;
  levels_size = refl;
}

one-Ready : Ready 1 one
one-Ready = record {
  linked = one-Linked;
  count = refl;
  entry_ok = λ h. omega arith;
  top_ok = refl;
  top_le = omega arith;
  layers_enough = omega arith;
}

search_layer-Searched_example :
    Returns (Searched 1 one nines 0 2) (search_layer one (widen nines) 0 2 (pos 0))
search_layer-Searched_example =
    search_layer-Searched 1 one nines 0 2 0 one-Linked nines-Each (omega arith)

greedy_descend-IsPeak_example :
    Returns
      (IsPeak 1 one one-Linked nines nines-Each 1 0)
      (greedy_descend one (widen nines) 0 (pos 1))
greedy_descend-IsPeak_example =
    greedy_descend-IsPeak 1 one one-Linked nines nines-Each 1 0 (omega arith)

-- Two candidates, the nearer one last.
abbrev two_cands : List DistItem
two_cands = record { id = 0; dist = pos 5 } ∷ record { id = 1; dist = pos 3 } ∷ []

select-Selected_example :
    Returns (Selected 2 pair 1 two_cands) (select_neighbors_heuristic insertion pair two_cands 1)
select-Selected_example =
    select-Selected insertion 2 pair (WellFormed-VectorsOk pair pair-WellFormed) (omega arith)
      two_cands 1 refl

insert-Added_example : Returns (Added 1 one nines 1) (insert insertion one 1 nines 1 (pos 0))
insert-Added_example = insert-Added insertion 1 one nines 1 0 one-Ready (omega arith) nines-Each

finalize-Finalized_example : Returns (Finalized one) (finalize one)
finalize-Finalized_example = finalize-Finalized 1 one one-Ready (omega arith) (omega arith)

set_label-Labelled_example : Returns (Labelled pair 0 1) (set_label pair 0 1)
set_label-Labelled_example = set_label-Labelled pair 0 1 (omega arith) refl

-- With an edge of node 0 on layer 1.
abbrev looped : Builder
looped = record one { upper_conns = ((0, pos 0 ∷ []) ∷ []) ∷ [] }

looped-Ready : Ready 1 looped
looped-Ready = record {
  linked =
      (layers-Step insertion 1 one looped.upper_conns one-Linked
        (record { inside = ground arith; once = λ v. ground arith }, tt) (omega arith)).0;
  count = refl;
  entry_ok = λ h. omega arith;
  top_ok = refl;
  top_le = omega arith;
  layers_enough = omega arith;
}

finalize-links_example :
    Returns
      (λ f.
        Returns
          (λ nbs. nbs ≡ take 1 (links_of ((0, pos 0 ∷ []) ∷ []) 0))
          (upper_neighbors f.graph 0 1))
      (finalize looped)
finalize-links_example =
    finalize-links 1 looped looped-Ready (omega arith) (omega arith) 0 0 (omega arith) (omega arith)
