-- ===== src/Build/Found.antt =====
-- The search of a layer by the builder ends, without a panic; what it returns.
use fraud_detection_api.Base.{
  ◌==◌, length, set, All, length-set, All-get_or, All-set, ℤ, ltb_ℤ, leb_ℤ, pos, tally, Same,
  tally-set, tally-le, Same-length, get_or-set, ℕ, zero, suc, ◌+◌, ◌-◌, ◌≤◌, ◌<◌, ◌≡◌, refl, ap,
  ◌∙◌, subst, true, not, List, [], ◌∷◌, arith,
}
use fraud_detection_api.Build.{Builder}
use fraud_detection_api.Build.Held.{is_found}
use fraud_detection_api.Build.Hunting.{Hunting, reach_all-Hunting}
use fraud_detection_api.Build.Layer.{up_to, remark, reset_visited-Renewed}
use fraud_detection_api.Build.Linked.{Linked, Kept-trans, Step, neighbors_at-All}
use fraud_detection_api.Build.Queue.{IsMaxHeap, push_max-Same}
use fraud_detection_api.Build.Search.{Hunt, reset_visited, hunt_loop, search_from, search_layer}
use fraud_detection_api.Dist.Bounds.{IsByte, widen}
use fraud_detection_api.Query.Admit.{store-set}
use fraud_detection_api.Query.Heap.{DistItem}
use fraud_detection_api.Query.Heap.Order.{item, IsHeap, fetch-item}
use fraud_detection_api.Query.Heap.Pop.{pop_min-Sifted}
use fraud_detection_api.Query.Heap.Push.{push_min-Sifted}
use fraud_detection_api.Query.Near.{near, vector_at-vec, dist-near}
use fraud_detection_api.Run.{Returns, Returns-bind, Returns-if, Returns-map, returns}
use fraud_detection_api.Vector.{Vector, Each}

module _ (k : ℕ) (b : Builder) (o : Linked k b) (a : Vector ℕ) (ha : Each IsByte a) (ef : ℕ)
    (d0 : ℤ) where
  abbrev InHunt : Hunt → Type 0
  InHunt s = Hunting k b.graph o.vectors_ok o.bound a ha ef b.vis_gen d0 s

  -- A round less for the popped candidate.
  pop-Hunting :
      (s : Hunt) (c : DistItem) (rest h : List DistItem)
      → s.cand_heap ≡ c ∷ rest
      → InHunt s
      → IsHeap h
      → Same h rest
      → InHunt (record s { cand_heap = h }) × (c.id < k) × (length h ≡ length rest)
  pop-Hunting s c rest h e i heap same =
      let sound : tally (is_found b.graph a k) (c ∷ rest) ≡ length (c ∷ rest) =
        subst (λ xs. tally (is_found b.graph a k) xs ≡ length xs) e i.sound in
      let most = tally-le (is_found b.graph a k) rest in
      let size = Same-length h rest same in
      (
        record {
          seen_size = i.seen_size;
          seen_le = i.seen_le;
          heap = heap;
          sound = ground (arith, same (is_found b.graph a k));
          held = i.held;
          nonempty = i.nonempty;
          room = i.room;
        },
        ground arith,
        size,
      )

  pub hunt_loop-Hunting :
      (r l : ℕ) (s : Hunt) (cands : List DistItem)
      → (let t = record s { cand_heap = cands } in
          tally (λ x. not (x == b.vis_gen)) s.seen + length cands < r
          → InHunt t
          → Returns InHunt (hunt_loop r b (widen a) ef (pos l) t))
  unfolding hunt_loop
  hunt_loop-Hunting zero l s cands f i = absurd (omega arith)
  hunt_loop-Hunting (suc r) l s [] f i = returns i
  hunt_loop-Hunting (suc r) l s (c ∷ rest) f i =
      let nonempty = i.nonempty in
      Returns-bind (pop_min-Sifted c rest i.heap) λ h (heap, same).
        let (j, low, size) =
          pop-Hunting (record s { cand_heap = c ∷ rest }) c rest h refl i heap same in
        rw (fetch-item s.res_heap 0 nonempty) (
          Returns-if (ltb_ℤ (item s.res_heap 0).dist c.dist) (λ far. returns j)
            λ near. Returns-bind (neighbors_at-All k b o c.id l low) λ nbs inside.
              Returns-bind
                (reach_all-Hunting k b.graph o.vectors_ok o.bound a ha ef b.vis_gen d0
                  (record s { cand_heap = h }) nbs inside j)
                λ u (going, less). hunt_loop-Hunting r l u u.cand_heap (omega arith) going)

-- What the search of a layer returns: at most `ef` different nodes (one, for `ef` = 0) below `k`
-- with their distances, one of them no farther than the entry. The builder is the one before in
-- all but `visited` and `vis_gen`.
pub record Searched (k : ℕ) (b : Builder) (a : Vector ℕ) (entry ef : ℕ)
    (r : Builder × List DistItem) : Type 0 where
  pub step : Step k b r.0
  pub rest_same : r.0 ≡ record b { visited = r.0.visited; vis_gen = r.0.vis_gen }
  pub graph_same : r.0.graph ≡ b.graph
  pub layers_same : r.0.upper_conns ≡ b.upper_conns
  pub sound : tally (is_found b.graph a k) r.1 ≡ length r.1
  pub close : 0 < tally (λ c. leb_ℤ c.dist (pos (near b.graph a entry))) r.1
  pub once : (v : ℕ) → tally (λ c. c.id == v) r.1 ≤ 1
  pub room : length r.1 ≤ suc (ef - 1)

module _ (k : ℕ) (b : Builder) (o : Linked k b) (a : Vector ℕ) (ha : Each IsByte a) (ef : ℕ)
    (entry : ℕ) (h : entry < k) where
  abbrev start : DistItem
  start = record { id = entry; dist = pos (near b.graph a entry) }

  -- The entry alone is a candidate and a result.
  start-Hunting :
      (cands res : List DistItem)
      → All (λ x. x < b.vis_gen) b.visited
      → IsHeap cands
      → Same cands (start ∷ [])
      → IsMaxHeap res
      → Same res (start ∷ [])
      → (let s : Hunt = record {
        seen = set b.visited entry b.vis_gen;
        cand_heap = cands;
        res_heap = res;
      } in
          Hunting k b.graph o.vectors_ok o.bound a ha ef b.vis_gen (pos (near b.graph a entry)) s
          × (tally (λ x. not (x == b.vis_gen)) s.seen + length cands < suc b.graph.n))
  start-Hunting cands res lt heap same max_heap same' =
      let size = o.visited_size in
      let bound = o.bound in
      let fine : is_found b.graph a k start ≡ true = ground arith in
      let at = λ (v : ℕ). get_or-set b.visited entry v b.vis_gen 0 (omega arith) in
      let few = Same-length cands (start ∷ []) same in
      let few' = Same-length res (start ∷ []) same' in
      let old = All-get_or (λ x. x < b.vis_gen) b.visited entry 0 lt (omega arith) in
      (
        record {
          seen_size = length-set b.visited entry b.vis_gen ∙ size;
          seen_le =
              All-set (λ x. x ≤ b.vis_gen) b.visited entry b.vis_gen (up_to b b.visited _ lt)
                (omega arith);
          heap = heap;
          sound = ground (arith, same (is_found b.graph a k));
          held = record {
            heap = max_heap;
            sound = ground (arith, same' (is_found b.graph a k));
            close = ground (arith, same' (λ c. leb_ℤ c.dist (pos (near b.graph a entry))));
            once = λ v. ground (arith, same' (λ c. c.id == v), at v);
          };
          nonempty = omega arith;
          room = omega arith;
        },
        ground (
          arith,
          tally-set (λ x. not (x == b.vis_gen)) b.visited entry b.vis_gen 0,
          tally-le (λ x. not (x == b.vis_gen)) b.visited,
        ),
      )

  search_from-Searched :
      (l : ℕ)
      → All (λ x. x < b.vis_gen) b.visited
      → Returns (Searched k b a entry ef) (search_from b (widen a) entry ef (pos l))
  unfolding search_from
  search_from-Searched l lt =
      let size = o.visited_size in
      let bound = o.bound in
      rw
        (
          store-set b.visited entry b.vis_gen (omega arith),
          vector_at-vec b.graph o.vectors_ok a ha entry (omega arith),
          dist-near b.graph o.vectors_ok a ha entry (omega arith),
        )
        (Returns-bind (push_min-Sifted [] start λ c p q. absurd (omega arith)) λ cands (heap, same).
          Returns-bind (push_max-Same [] start λ c p q. absurd (omega arith))
            λ res (max_heap, same').
              let (i, few) = start-Hunting cands res lt heap same max_heap same' in
              Returns-bind
                (hunt_loop-Hunting k b o a ha ef (pos (near b.graph a entry)) (suc b.graph.n) l
                  (record {
                    seen = set b.visited entry b.vis_gen;
                    cand_heap = cands;
                    res_heap = res;
                  })
                  cands few i)
                λ s j. returns (record {
                  step = remark b k b.vis_gen s.seen o j.seen_size j.seen_le o.gen_lt;
                  rest_same = refl;
                  graph_same = refl;
                  layers_same = refl;
                  sound = j.held.sound;
                  close = j.held.close;
                  once = λ v. ground (arith, j.held.once v);
                  room = j.room;
                }))

-- In a linked builder (tables of the right sizes, links to nodes below `k` only), from an entry
-- below `k` and for a vector of bytes, the search of a layer of the index under construction ends
-- without a panic. It returns at most `ef` different nodes below `k` (one, for `ef` = 0) with their
-- exact distances, at least one of them no farther from the new vector than the entry. The builder
-- stays linked, and all its fields but the marks and their generation, the levels among them, are
-- as before, also when the generation wraps around.
pub search_layer-Searched :
    (k : ℕ) (b : Builder) (a : Vector ℕ) (entry ef l : ℕ)
    → Linked k b
    → Each IsByte a
    → entry < k
    → Returns (Searched k b a entry ef) (search_layer b (widen a) entry ef (pos l))
unfolding search_layer
search_layer-Searched k b a entry ef l o ha h =
    let n = reset_visited-Renewed b k o in
    Returns-map (search_from-Searched k (reset_visited b) (n.step.0) a ha ef entry h l n.seen_lt)
      λ r s. record {
        step = (s.step.0, Kept-trans b (reset_visited b) r.0 n.step.1 s.step.1);
        rest_same =
            s.rest_same
            ∙ ap (λ (c : Builder). record c { visited = r.0.visited; vis_gen = r.0.vis_gen })
                n.rest_same;
        graph_same = s.graph_same ∙ n.graph_same;
        layers_same = s.layers_same ∙ n.layers_same;
        sound = subst (λ g. tally (is_found g a k) r.1 ≡ length r.1) n.graph_same s.sound;
        close =
            subst (λ g. 0 < tally (λ c. leb_ℤ c.dist (pos (near g a entry))) r.1) n.graph_same
              s.close;
        once = s.once;
        room = s.room;
      }
