-- ===== src/Build/Hunting.antt =====
-- The search of a layer by the builder: one neighbor, and all neighbors, of an expanded node.
use fraud_detection_api.Base.{
  ltb, ◌==◌, length, set, get_or, All, length-set, All-set, ℤ, ltb_ℤ, pos, negsuc, tally, tally-set,
  Same-length, get_or-set, ℕ, suc, ◌+◌, ◌-◌, ◌≤◌, ◌<◌, ◌≡◌, ◌∙◌, ◌≢◌, true, not, ◌||◌, List, [],
  ◌∷◌, arith,
}
use fraud_detection_api.Build.Held.{is_found, Held, push_max-Held, trim-Held}
use fraud_detection_api.Build.Search.{Hunt, keep_near, reach, reach_all}
use fraud_detection_api.Dist.Bounds.{IsByte, widen}
use fraud_detection_api.Graph.{Graph}
use fraud_detection_api.Graph.WellFormed.{InRange, VectorsOk, fetch-get_or}
use fraud_detection_api.Query.Admit.{store-set}
use fraud_detection_api.Query.Heap.{DistItem}
use fraud_detection_api.Query.Heap.Order.{item, IsHeap, fetch-item}
use fraud_detection_api.Query.Heap.Push.{push_min-Sifted}
use fraud_detection_api.Query.Near.{near, vector_at-vec, dist-near}
use fraud_detection_api.Run.{Returns, Returns-bind, Returns-if, Returns-map, returns}
use fraud_detection_api.Vector.{Vector, Each}

module _ (k : ℕ) (g : Graph) (w : VectorsOk g) (bound : k ≤ g.n) (a : Vector ℕ) (ha : Each IsByte a)
    (ef gen : ℕ) (d0 : ℤ) where
  -- The state of the search.
  pub record Hunting (s : Hunt) : Type 0 where
    pub seen_size : length s.seen ≡ g.n
    pub seen_le : All (λ x. x ≤ gen) s.seen
    pub heap : IsHeap s.cand_heap
    pub sound : tally (is_found g a k) s.cand_heap ≡ length s.cand_heap
    pub held : Held g a k gen d0 s.seen s.res_heap
    pub nonempty : 0 < length s.res_heap
    pub room : length s.res_heap ≤ suc (ef - 1)

  -- The rounds that the search can still take.
  abbrev pub effort : Hunt → ℕ
  effort s = tally (λ x. not (x == gen)) s.seen + length s.cand_heap

  keep_near-Hunting :
      (s : Hunt) (n : ℕ)
      → n < k
      → tally (λ c. c.id == n) s.res_heap ≡ 0
      → get_or s.seen n 0 ≡ gen
      → Hunting s
      → Returns (λ t. Hunting t × (effort t ≤ suc (effort s))) (keep_near ef s n (pos (near g a n)))
  unfolding keep_near
  keep_near-Hunting s n l new visited i =
      let x : DistItem = record { id = n; dist = pos (near g a n) } in
      let room = i.room in
      let nonempty = i.nonempty in
      let sound = i.sound in
      rw (fetch-item s.res_heap 0 nonempty) (
        Returns-if (ltb (length s.res_heap) ef || ltb_ℤ (pos (near g a n)) (item s.res_heap 0).dist)
          (λ taken. Returns-bind (push_min-Sifted s.cand_heap x i.heap) λ cands (heap, same).
            Returns-bind (push_max-Held g a k gen d0 s.seen s.res_heap n l new visited i.held)
              λ res (held, size).
                Returns-bind (trim-Held g a k gen d0 ef s.seen res held (omega arith) (omega arith))
                  λ trimmed (still, some_left, few).
                    let grown = Same-length cands (x ∷ s.cand_heap) same in
                    let fine : is_found g a k x ≡ true = ground arith in
                    returns (
                      record {
                        seen_size = i.seen_size;
                        seen_le = i.seen_le;
                        heap = heap;
                        sound = ground (arith, same (is_found g a k));
                        held = still;
                        nonempty = some_left;
                        room = few;
                      },
                      omega arith,
                    ))
          λ left_out. returns (i, omega arith))

  -- A visit of a new node moves one unit of effort from the marks to the candidates.
  mark_new :
      (s : Hunt) (n : ℕ)
      → n < k
      → get_or s.seen n 0 ≢ gen
      → Hunting s
      → (let t = record s { seen = set s.seen n gen } in
          Hunting t
          × (tally (λ c. c.id == n) s.res_heap ≡ 0)
          × (get_or t.seen n 0 ≡ gen)
          × (suc (effort t) ≡ effort s))
  mark_new s n l new i =
      let size = i.seen_size in
      let at = λ (v : ℕ). get_or-set s.seen n v gen 0 (omega arith) in
      (
        record {
          seen_size = length-set s.seen n gen ∙ size;
          seen_le = All-set (λ x. x ≤ gen) s.seen n gen i.seen_le (omega arith);
          heap = i.heap;
          sound = i.sound;
          held = record {
            heap = i.held.heap;
            sound = i.held.sound;
            close = i.held.close;
            once = λ v. ground (arith, at v, i.held.once v);
          };
          nonempty = i.nonempty;
          room = i.room;
        },
        ground (arith, i.held.once n),
        ground (arith, at n),
        ground (arith, tally-set (λ x. not (x == gen)) s.seen n gen 0),
      )

  reach-Hunting :
      (s : Hunt) (nb : ℤ)
      → InRange k nb
      → Hunting s
      → Returns (λ t. Hunting t × (effort t ≤ effort s)) (reach g (widen a) ef gen s nb)
  unfolding reach
  reach-Hunting s (negsuc x) h i = returns (i, omega arith)
  reach-Hunting s (pos n) h i =
      let size = i.seen_size in
      rw (fetch-get_or s.seen n 0 (omega arith)) (
        Returns-if (get_or s.seen n 0 == gen) (λ old. returns (i, omega arith))
          λ new.
            let (j, fresh, visited, less) = mark_new s n h (ground arith) i in
            rw
              (
                store-set s.seen n gen (omega arith),
                vector_at-vec g w a ha n (omega arith),
                dist-near g w a ha n (omega arith),
              )
              (Returns-map
                (keep_near-Hunting (record s { seen = set s.seen n gen }) n h fresh visited j)
                λ t (going, most). (going, omega arith)))

  pub reach_all-Hunting :
      (s : Hunt) (nbs : List ℤ)
      → All (InRange k) nbs
      → Hunting s
      → Returns (λ t. Hunting t × (effort t ≤ effort s)) (reach_all g (widen a) ef gen s nbs)
  unfolding reach_all
  reach_all-Hunting s [] h i = returns (i, omega arith)
  reach_all-Hunting s (nb ∷ nbs) h i = Returns-bind (reach-Hunting s nb h.0 i) λ t (j, less).
      Returns-map (reach_all-Hunting t nbs h.1 j) λ u (going, most). (going, omega arith)
