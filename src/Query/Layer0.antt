-- ===== src/Query/Layer0.antt =====
-- The search of layer 0: it ends, and its results are a local optimum of the graph.
use fraud_detection_api.Base.{
  ℕ, zero, suc, ◌<◌, ◌≡◌, refl, sym, ◌∙◌, ap, subst, ◌⊎◌, inl, inr, ℤ, pos, negsuc, ◌<ℤ◌, ltb_ℤ,
  List, [], ◌∷◌, tally, All, arith, ◌==◌,
}
use fraud_detection_api.Run.{
  ok, ok-injective, Returns, returns, Returns-bind, Returns-bind_eq, Returns-map, Returns-if,
}
use fraud_detection_api.Vector.{Vector, Each}
use fraud_detection_api.Dist.Bounds.{IsByte, widen}
use fraud_detection_api.Graph.{Graph, layer0_neighbors}
use fraud_detection_api.Graph.WellFormed.{WellFormed, layer0_neighbors-All}
use fraud_detection_api.Query.Heap.{DistItem}
use fraud_detection_api.Query.Heap.Order.{far}
use fraud_detection_api.Query.Heap.Pop.{pop_min-Sifted}
use fraud_detection_api.Query.Slot.{VisitSlot}
use fraud_detection_api.Query.Search.{search_loop, search_layer0_fast}
use fraud_detection_api.Query.Results.{ResOk, ResOk-move, InRes, Beaten}
use fraud_detection_api.Query.Admit.{waiting}
use fraud_detection_api.Query.Visit.{
  Marked, MarkedEntry, Explored, Searching, VisitedAll, visit_all-VisitedAll,
}
use fraud_detection_api.Query.Start.{Usable, Nobody, work, start_search-Started}
use fraud_detection_api.Query.Expand.{pop-Popped, waiting_far}

-- The entry is a result or beaten, or the sentinel.
abbrev pub Settled : Graph → Vector ℕ → VisitSlot → ℤ → Type 0
Settled g a s (pos v) = InRes s v ⊎ Beaten g a s v
Settled g a s (negsuc _) = Unit {0}

-- What the search of layer 0 leaves in the slot.
pub record Found (g : Graph) (a : Vector ℕ) (t : VisitSlot) : Type 0 where
  pub usable : Usable g t
  pub results : ResOk g a t
  pub best : (v : ℕ) → Marked t v → InRes t v ⊎ Beaten g a t v
  pub local :
      (v : ℕ) → InRes t v → (nbs : List ℤ) → layer0_neighbors g v ≡ ok nbs → All (Settled g a t) nbs

module _ (g : Graph) (w : WellFormed g) (a : Vector ℕ) (ha : Each IsByte a) where
  -- What the loop keeps, and where it ends.
  record Ended (s t : VisitSlot) : Type 0 where
    found : Found g a t
    marked_still : (v : ℕ) → Marked s v → Marked t v

  Settled-all :
      (t : VisitSlot) (nbs : List ℤ)
      → ((v : ℕ) → Marked t v → InRes t v ⊎ Beaten g a t v)
      → All (MarkedEntry t) nbs
      → All (Settled g a t) nbs
  Settled-all t [] best m = tt
  Settled-all t (pos v ∷ nbs) best m = (best v m.0, Settled-all t nbs best m.1)
  Settled-all t (negsuc k ∷ nbs) best m = (tt, Settled-all t nbs best m.1)

  -- A state in which every result is explored is an end, whatever candidates are left.
  Found-Explored :
      (s : VisitSlot) (h : List DistItem)
      → Searching g a Nobody s
      → ((v : ℕ) → InRes s v → Explored g s v)
      → Found g a (record s { cands = h })
  Found-Explored s h i closed = record {
    usable = record {
      marks_size = i.marks_size;
      marks_le = i.marks_le;
      gen_le = i.gen_le;
      ids_size = i.results.ids_size;
      dists_size = i.results.dists_size;
    };
    results = ResOk-move g a s s.marks h i.results;
    best = i.best;
    local =
        λ v res nbs read. Settled-all (record s { cands = h }) nbs i.best (closed v res nbs read);
  }

  -- Nothing waits any more.
  Explored-empty :
      (s : VisitSlot) → s.cands ≡ [] → Searching g a Nobody s → (v : ℕ) → InRes s v → Explored g s v
  Explored-empty s e i v res = elim (i.closed v res) [
    | inl nobody ↦ absurd nobody
    | inr (inl waits) ↦
        let none_waits : waiting s v ≡ 0 = ap (tally (λ x. x.id == v)) e in absurd (omega arith)
    | inr (inr done) ↦ done
  ]

  -- The nearest candidate is farther than the worst result.
  Explored-far :
      (s : VisitSlot) (c : DistItem) (rest : List DistItem)
      → s.cands ≡ c ∷ rest
      → s.res_worst_d <ℤ c.dist
      → Searching g a Nobody s
      → (v : ℕ) → InRes s v
      → Explored g s v
  Explored-far s c rest e far i v (j, p, at) = elim (i.closed v (j, p, at)) [
    | inl nobody ↦ absurd nobody
    | inr (inl waits) ↦ absurd (
        ground (
          arith,
          waiting_far g a s c rest v e i.cands waits,
          i.results.exact j p,
          i.results.worst.most j p,
        ))
    | inr (inr done) ↦ done
  ]

  -- The node that was expanded is explored now.
  close :
      (s t : VisitSlot) (c : ℕ) (nbs : List ℤ)
      → layer0_neighbors g c ≡ ok nbs
      → VisitedAll g w a ha (λ v. v ≡ c) s nbs t
      → Searching g a Nobody t
  close s t c nbs read m =
      let i = m.going in
      record {
        marks_size = i.marks_size;
        marks_le = i.marks_le;
        gen_pos = i.gen_pos;
        gen_le = i.gen_le;
        results = i.results;
        cands = i.cands;
        visited = i.visited;
        best = i.best;
        closed = λ v res. elim (i.closed v res) [
          | inl e ↦ inr (
              inr λ xs again.
                subst (All (MarkedEntry t))
                  (ok-injective (sym read ∙ ap (layer0_neighbors g) (sym e) ∙ again)) m.marked)
          | inr rest ↦ inr rest
        ];
      }

  search_loop-Ended :
      (k : ℕ) (r : VisitSlot) (cands : List DistItem)
      → (let s = record r { cands = cands } in
          work s < k → Searching g a Nobody s → Returns (Ended s) (search_loop k g (widen a) s))
  unfolding search_loop
  search_loop-Ended zero r cands l i = absurd (omega arith)
  search_loop-Ended (suc k) r [] l i =
      let s = record r { cands = [] } in
      returns (record {
        found = Found-Explored s [] i (Explored-empty s refl i);
        marked_still = λ v m. m;
      })
  search_loop-Ended (suc k) r (c ∷ rest) l i =
      let s = record r { cands = c ∷ rest } in
      Returns-bind (pop_min-Sifted c rest i.cands.heap) λ h (heap, same).
        let p = pop-Popped g a s c rest h refl i heap same in
        Returns-if (ltb_ℤ s.res_worst_d c.dist)
          (λ far. returns (record {
            found = Found-Explored s h i (Explored-far s c rest refl (ground arith) i);
            marked_still = λ v m. m;
          }))
          λ near. Returns-bind_eq (layer0_neighbors-All g w c.id p.inside) λ nbs ok_nbs read.
            Returns-bind
              (visit_all-VisitedAll g w a ha (λ v. v ≡ c.id) (record s { cands = h }) nbs p.going
                ok_nbs)
              λ t m.
                let less = p.work_lt in
                let still = m.later.work_le in
                Returns-map
                  (search_loop-Ended k t t.cands (omega arith)
                    (close (record s { cands = h }) t c.id nbs read m))
                  λ u r. record {
                    found = r.found;
                    marked_still = λ v x. r.marked_still v (m.later.marked_still v x);
                  }

  -- The search of layer 0 ends without a panic, in a usable slot. Its results are at least one and
  -- at most ten different nodes with their distances to the query, and the entry is a result or
  -- no closer than the worst of ten. So is every layer-0 neighbor of every result: no neighbor
  -- of a result can improve the results.
  pub search_layer0_fast-Found :
      (entry : ℕ) (slot : VisitSlot)
      → entry < g.n
      → Usable g slot
      → Returns
          (λ t. Found g a t × (InRes t entry ⊎ Beaten g a t entry))
          (search_layer0_fast g (widen a) entry slot)
  unfolding search_layer0_fast
  search_layer0_fast-Found entry slot h u =
      Returns-bind (start_search-Started g w a ha entry slot h u) λ s st.
        let few = st.work_le in
        Returns-map (search_loop-Ended (suc g.n) s s.cands (omega arith) st.going)
          λ t r. (r.found, r.found.best entry (r.marked_still entry st.marked))
