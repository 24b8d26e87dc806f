-- ===== src/Query/Visit.antt =====
-- One neighbor, and all neighbors, of the node that the search expands.
use mathlib.Core.Logic.{◌≢◌}
use mathlib.Core.Path.{ap₂}
use native.Mathlib.Decide.{ℕ_discrete}
use fraud_detection_api.Base.{
  ℕ, ◌+◌, ◌<◌, ◌≤◌, ◌≡◌, refl, sym, ◌∙◌, ap, subst, ◌⊎◌, inl, inr, ℤ, pos, negsuc, List, [], ◌∷◌,
  length, length-set, set, get_or, get_or-set, tally, tally-set, All, All-set, arith, not,
  if◌then◌else◌, ◌==◌,
}
use fraud_detection_api.Run.{ok, Returns, returns, Returns-bind, Returns-map, Returns-if}
use fraud_detection_api.Vector.{Vector, Each}
use fraud_detection_api.Dist.Bounds.{IsByte, widen}
use fraud_detection_api.Graph.{Graph, layer0_neighbors}
use fraud_detection_api.Graph.WellFormed.{WellFormed, WellFormed-VectorsOk, InRange, fetch-get_or}
use fraud_detection_api.Query.Slot.{VisitSlot, visit, visit_all}
use fraud_detection_api.Query.Near.{vector_at-vec, dist-near}
use fraud_detection_api.Query.Results.{res_id, ResOk, ResOk-move, InRes, Beaten}
use fraud_detection_api.Query.Admit.{store-set, CandsOk, waiting, Admitted, admit-Admitted}

-- The node has been visited in the current query.
abbrev pub Marked : VisitSlot → ℕ → Type 0
Marked s v = get_or s.marks v 0 ≡ s.gen

-- A neighbor entry that is the sentinel or a visited node.
abbrev pub MarkedEntry : VisitSlot → ℤ → Type 0
MarkedEntry s (pos v) = Marked s v
MarkedEntry s (negsuc _) = Unit {0}

-- How many nodes are not visited yet.
abbrev pub unvisited : VisitSlot → ℕ
unvisited s = tally (λ m. not (m == s.gen)) s.marks

-- All layer-0 neighbors of the node have been visited.
abbrev pub Explored : Graph → VisitSlot → ℕ → Type 0
Explored g s v = (nbs : List ℤ) → layer0_neighbors g v ≡ ok nbs → All (MarkedEntry s) nbs

-- The state of the search of layer 0, while the nodes that are `Busy` are expanded.
pub record Searching (g : Graph) (a : Vector ℕ) (Busy : ℕ → Type 0) (s : VisitSlot) : Type 0 where
  pub marks_size : length s.marks ≡ g.n
  pub marks_le : All (λ m. m ≤ s.gen) s.marks
  pub gen_pos : 0 < s.gen
  pub gen_le : s.gen ≤ 255
  pub results : ResOk g a s
  pub cands : CandsOk g a s
  pub visited : (v : ℕ) → InRes s v → Marked s v
  pub best : (v : ℕ) → Marked s v → InRes s v ⊎ Beaten g a s v
  pub closed : (v : ℕ) → InRes s v → Busy v ⊎ (0 < waiting s v) ⊎ Explored g s v

-- What a later state of the search keeps: visited nodes, and rounds enough.
pub record Later (s t : VisitSlot) : Type 0 where
  pub gen_same : t.gen ≡ s.gen
  pub marked_still : (v : ℕ) → Marked s v → Marked t v
  pub work_le : unvisited t + length t.cands ≤ unvisited s + length s.cands

module _ (g : Graph) (w : WellFormed g) (a : Vector ℕ) (ha : Each IsByte a)
    (Busy : ℕ → Type 0) where
  Explored-Later : (s t : VisitSlot) (v : ℕ) → Later s t → Explored g s v → Explored g t v
  Explored-Later s t v l e nbs read = entries nbs (e nbs read)
    where
      entries : (xs : List ℤ) → All (MarkedEntry s) xs → All (MarkedEntry t) xs
      entries [] m = tt
      entries (pos x ∷ xs) m = (l.marked_still x m.0, entries xs m.1)
      entries (negsuc x ∷ xs) m = (tt, entries xs m.1)

  -- The step on a node: the search goes on, and the node has been visited.
  record Visited (s : VisitSlot) (nb : ℤ) (t : VisitSlot) : Type 0 where
    going : Searching g a Busy t
    later : Later s t
    marked : MarkedEntry t nb

  module _ (s : VisitSlot) (i : Searching g a Busy s) (n : ℕ) (h : n < g.n) where
    abbrev mark : VisitSlot
    mark = record s { marks = set s.marks n s.gen }

    marks_at : (v : ℕ) → get_or mark.marks v 0 ≡ (if n == v then s.gen else get_or s.marks v 0)
    marks_at v = let z = i.marks_size in get_or-set s.marks n v s.gen 0 (omega arith)

    Visited-admit :
        (t : VisitSlot) → get_or s.marks n 0 ≢ s.gen → Admitted g a mark n t → Visited s (pos n) t
    Visited-admit t new m =
        let size = i.marks_size in
        let positive = i.gen_pos in
        let gens = m.gen_kept in
        let rows = m.marks_kept in
        let self : Marked t n = ground (arith, marks_at n) in
        let same : unvisited t ≡ unvisited mark =
          ap₂ (λ gen marks. tally (λ x. not (x == gen)) marks) gens rows in
        let fewer : unvisited mark + 1 ≡ unvisited s =
          ground (arith, tally-set (λ x. not (x == s.gen)) s.marks n s.gen 0) in
        let later : Later s t = record {
          gen_same = gens;
          marked_still = λ v old. ground (arith, marks_at v);
          work_le = (let l = m.grows in omega arith);
        } in
        record {
          going = record {
            marks_size = ap length rows ∙ length-set s.marks n s.gen ∙ size;
            marks_le =
                rw (rows, gens) (All-set (λ x. x ≤ s.gen) s.marks n s.gen i.marks_le (omega arith));
            gen_pos = omega arith;
            gen_le = (let l = i.gen_le in omega arith);
            results = m.results;
            cands = m.cands;
            visited = λ v res. elim (m.old_or_new v res) [
              | inl old ↦ later.marked_still v (i.visited v old)
              | inr e ↦ subst (Marked t) (sym e) self
            ];
            best = λ v seen. elim (ℕ_discrete v n) [
              | yes e ↦ subst (λ x. InRes t x ⊎ Beaten g a t x) (sym e) m.offered
              | no other ↦ elim (i.best v (ground (arith, marks_at v))) [
                | inl res ↦ m.kept_or_beaten v res
                | inr far ↦ inr (m.still_beaten v far)
              ]
            ];
            closed = λ v res. elim (m.old_or_new v res) [
              | inl old ↦ elim (i.closed v old) [
                | inl busy ↦ inl busy
                | inr (inl waits) ↦ inr (inl (omega (arith, m.still_waiting v)))
                | inr (inr done) ↦ inr (inr (Explored-Later s t v later done))
              ]
              | inr e ↦ inr (
                  inl
                    (subst (λ x. 0 < waiting t x) (sym e) (m.new_waiting (subst (InRes t) e res))))
            ];
          };
          later = later;
          marked = self;
        }

  Later-self : (s : VisitSlot) → Later s s
  Later-self s = record { gen_same = refl; marked_still = λ v m. m; work_le = omega arith }

  Later-trans : (s t u : VisitSlot) → Later s t → Later t u → Later s u
  Later-trans s t u x y = record {
    gen_same = y.gen_same ∙ x.gen_same;
    marked_still = λ v m. y.marked_still v (x.marked_still v m);
    work_le = (let p = x.work_le in let q = y.work_le in omega arith);
  }

  visit-Visited :
      (s : VisitSlot) (nb : ℤ)
      → Searching g a Busy s
      → InRange g.n nb
      → Returns (Visited s nb) (visit g (widen a) s nb)
  unfolding visit
  visit-Visited s (negsuc k) i h = returns (record { going = i; later = Later-self s; marked = tt })
  visit-Visited s (pos n) i h =
      let size = i.marks_size in
      rw (fetch-get_or s.marks n 0 (omega arith)) (
        Returns-if (get_or s.marks n 0 == s.gen)
          (λ seen. returns (record { going = i; later = Later-self s; marked = ground arith }))
          λ new.
            rw
              (
                store-set s.marks n s.gen (omega arith),
                vector_at-vec g (WellFormed-VectorsOk g w) a ha n h,
                dist-near g (WellFormed-VectorsOk g w) a ha n h,
              )
              (let unseen : get_or s.marks n 0 ≢ s.gen = ground arith in
                Returns-map
                  (admit-Admitted g a (mark s i n h) n h
                    (ResOk-move g a s (set s.marks n s.gen) s.cands i.results)
                    (record { heap = i.cands.heap; sound = i.cands.sound })
                    λ j p e. unseen (subst (Marked s) e (i.visited (res_id s j) (j, p, refl))))
                  λ t m. Visited-admit s i n h t unseen m))

  -- All neighbors in turn.
  pub record VisitedAll (s : VisitSlot) (nbs : List ℤ) (t : VisitSlot) : Type 0 where
    pub going : Searching g a Busy t
    pub later : Later s t
    pub marked : All (MarkedEntry t) nbs

  pub visit_all-VisitedAll :
      (s : VisitSlot) (nbs : List ℤ)
      → Searching g a Busy s
      → All (InRange g.n) nbs
      → Returns (VisitedAll s nbs) (visit_all g (widen a) s nbs)
  unfolding visit_all
  visit_all-VisitedAll s [] i h = returns (record { going = i; later = Later-self s; marked = tt })
  visit_all-VisitedAll s (nb ∷ nbs) i h = Returns-bind (visit-Visited s nb i h.0) λ t m.
      Returns-map (visit_all-VisitedAll t nbs m.going h.1) λ u r. record {
        going = r.going;
        later = Later-trans s t u m.later r.later;
        marked = (still t u nb r.later m.marked, r.marked);
      }
    where
      still : (t u : VisitSlot) (x : ℤ) → Later t u → MarkedEntry t x → MarkedEntry u x
      still t u (pos v) l m = l.marked_still v m
      still t u (negsuc k) l m = tt
