-- ===== src/Query/Answer.antt =====
-- `QueryFast5` over a well-formed graph: what the answer promises.
use fraud_detection_api.Base.{
  ℕ, zero, suc, ◌<◌, ◌≤◌, ◌≡◌, subst, ◌⊎◌, inl, inr, ℤ, pos, List, ◌∷◌, get_or, All, All-of_get_or,
  arith,
}
use native.Mathlib.Decide.{dec_lt}
use fraud_detection_api.Run.{ok, Returns, returns, Returns-bind, Returns-map}
use fraud_detection_api.Vector.{Vector, Each}
use fraud_detection_api.Dist.Bounds.{IsByte, widen}
use fraud_detection_api.Graph.{Graph, layer0_neighbors}
use fraud_detection_api.Graph.WellFormed.{WellFormed, top}
use fraud_detection_api.Query.Slot.{VisitSlot}
use fraud_detection_api.Query.Search.{query_fast5}
use fraud_detection_api.Query.Near.{near}
use fraud_detection_api.Query.Results.{InRes, Beaten}
use fraud_detection_api.Query.Descent.{descend-closer}
use fraud_detection_api.Query.Start.{Usable}
use fraud_detection_api.Query.Layer0.{Found, Settled, search_layer0_fast-Found}
use fraud_detection_api.Query.Nearest.{Top5, top5_from_results-Top5}

-- The edges of layer 0, and the nodes that they reach.
pub data Entry (v : ℕ) : List ℤ → Type 0 where
  here : {nbs : List ℤ} → Entry v (pos v ∷ nbs)
  further : {x : ℤ} {nbs : List ℤ} → Entry v nbs → Entry v (x ∷ nbs)

pub data Reach (g : Graph) (u : ℕ) : ℕ → Type 0 where
  self : Reach g u u
  step :
      {v w : ℕ} {nbs : List ℤ}
      → Reach g u v
      → layer0_neighbors g v ≡ ok nbs
      → Entry w nbs
      → Reach g u w

-- What a query leaves: the slot, and the five ids.
pub record Answer (g : Graph) (a : Vector ℕ) (t : VisitSlot) (out : List ℕ) : Type 0 where
  pub found : Found g a t
  pub best : Top5 g a t found.results out
  pub inside : All (λ id. id < g.n) out
  pub closer : near g a (get_or out 0 0) ≤ near g a g.entry_point

-- No node that can be reached from the first id is closer than one of the ids, but the ids.
abbrev pub IsExact : Graph → Vector ℕ → VisitSlot → List ℕ → Type 0
IsExact g a t out =
    (v : ℕ)
    → Reach g (get_or out 0 0) v
    → ((i : ℕ) × (i < 5) × (get_or out i 0 ≡ v))
      ⊎ ((i : ℕ) → i < 5 → i < t.res_cnt → near g a (get_or out i 0) ≤ near g a v)

module _ (g : Graph) (w : WellFormed g) (a : Vector ℕ) (ha : Each IsByte a) where
  -- With fewer than ten results, the results are closed under the edges.
  Settled-Entry :
      (t : VisitSlot) (v : ℕ) (nbs : List ℤ)
      → t.res_cnt < 10
      → All (Settled g a t) nbs
      → Entry v nbs
      → InRes t v
  Settled-Entry t v _ few h here = elim h.0 [
    | inl res ↦ res
    | inr (full, far) ↦ absurd (omega arith)
  ]
  Settled-Entry t v _ few h (further e) = Settled-Entry t v _ few h.1 e

  Reach-InRes :
      (t : VisitSlot) (u v : ℕ) → Found g a t → t.res_cnt < 10 → InRes t u → Reach g u v → InRes t v
  Reach-InRes t u _ f few res self = res
  Reach-InRes t u _ f few res (step path read e) =
      Settled-Entry t _ _ few (f.local _ (Reach-InRes t u _ f few res path) _ read) e

  -- The first id is no farther than a result, and no farther than a node that is beaten.
  first_le :
      (r : ℕ) (t : VisitSlot) (out : List ℕ) (f : Found g a t)
      → InRes t r ⊎ Beaten g a t r
      → Top5 g a t f.results out
      → near g a (get_or out 0 0) ≤ near g a r
  first_le r t out f (inl res) p = elim (p.nearest r res) [
    | inl (zero, l, m, e) ↦ subst (λ v. near g a (get_or out 0 0) ≤ near g a v) e (omega arith)
    | inl (suc i, l, m, e) ↦
        subst (λ v. near g a (get_or out 0 0) ≤ near g a v) e
          (p.ascending 0 (suc i) (omega arith) l m)
    | inr far ↦ far 0 (omega arith) f.results.some_result
  ]
  first_le r t out f (inr (full, far)) p =
      let (j, l, e) = p.picked 0 (omega arith) f.results.some_result in
      subst (λ v. near g a v ≤ near g a r) e
        (ground (arith, f.results.exact j l, f.results.worst.most j l))

  nodes :
      (t : VisitSlot) (out : List ℕ) (f : Found g a t)
      → Top5 g a t f.results out
      → All (λ id. id < g.n) out
  nodes t out f p =
      let entry = w.entry_ok in
      let size = p.size in
      All-of_get_or (λ id. id < g.n) out 0
        λ i l. elim (dec_lt i t.res_cnt) [
          | yes m ↦
              let (j, h, e) = p.picked i (omega arith) m in
              subst (λ id. id < g.n) e (f.results.inside j h)
          | no m ↦ let e = p.short i (omega arith) (omega arith) in omega arith
        ]

  answer :
      (r : ℕ) (t : VisitSlot) (out : List ℕ) (f : Found g a t)
      → near g a r ≤ near g a g.entry_point
      → InRes t r ⊎ Beaten g a t r
      → Top5 g a t f.results out
      → Answer g a t out
  answer r t out f closer place p = record {
    found = f;
    best = p;
    inside = nodes t out f p;
    closer = (let l = first_le r t out f place p in omega arith);
  }

  -- Over a well-formed graph, a query of bytes in a usable slot never panics and never runs out of
  -- rounds, and it leaves the slot usable. The results are different nodes with their distances,
  -- and no layer-0 neighbor of a result improves them. The five ids are nodes of the graph, the
  -- nearest of the results in ascending order, and the first is no farther than the entry point.
  pub query_fast5-Answer :
      (slot : VisitSlot)
      → Usable g slot
      → Returns (λ (t, out). Answer g a t out) (query_fast5 g (widen a) slot)
  unfolding query_fast5
  query_fast5-Answer slot u =
      Returns-bind (descend-closer g w a ha (top g) g.entry_point (omega arith) w.entry_ok)
        λ r (inside, closer).
          Returns-bind (search_layer0_fast-Found g w a ha r slot inside u) λ t (f, place).
            Returns-bind (top5_from_results-Top5 g a t f.results)
              λ out p. returns (answer r t out f closer place p)

  -- A query of bytes in a usable slot, over a well-formed graph, keeps ten results, or its answer is
  -- exact: every node that can be reached along the edges of layer 0 from the first id is one of
  -- the five, or no closer than any of them.
  pub query_fast5-IsExact :
      (slot : VisitSlot)
      → Usable g slot
      → Returns (λ (t, out). (t.res_cnt ≡ 10) ⊎ IsExact g a t out) (query_fast5 g (widen a) slot)
  query_fast5-IsExact slot u = Returns-map (query_fast5-Answer slot u) λ (t, out) r.
      elim (dec_lt t.res_cnt 10) [
        | yes few ↦ inr λ v path.
            let p = r.best in
            let first = p.picked 0 (omega arith) r.found.results.some_result in
            elim (p.nearest v (Reach-InRes t _ v r.found few first path)) [
              | inl (i, l, m, e) ↦ inl (i, l, e)
              | inr far ↦ inr far
            ]
        | no many ↦ let room = r.found.results.room in inl (omega arith)
      ]
