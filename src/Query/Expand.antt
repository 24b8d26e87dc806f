-- ===== src/Query/Expand.antt =====
-- The candidate that the search of layer 0 expands next.
use native.Mathlib.Decide.{ℕ_discrete}
use fraud_detection_api.Base.{
  ℕ, suc, ◌+◌, ◌<◌, ◌≡◌, sym, ◌∙◌, ap, inl, inr, pos, ◌≤ℤ◌, List, ◌∷◌, length, tally, tally-le,
  tally_find, tally_full, Same, Same-length, arith, ◌==◌,
}
use fraud_detection_api.Vector.{Vector}
use fraud_detection_api.Graph.{Graph}
use fraud_detection_api.Query.Heap.{DistItem}
use fraud_detection_api.Query.Heap.Order.{no_item, IsHeap, root_le, far}
use fraud_detection_api.Query.Slot.{VisitSlot}
use fraud_detection_api.Query.Near.{near}
use fraud_detection_api.Query.Results.{ResOk-move}
use fraud_detection_api.Query.Admit.{cand_ok, CandsOk, waiting}
use fraud_detection_api.Query.Visit.{Searching}
use fraud_detection_api.Query.Start.{Nobody, work}

module _ (g : Graph) (a : Vector ℕ) where
  -- A waiting node with no candidate closer than `d` is no closer than `d` itself.
  pub waiting_far :
      (s : VisitSlot) (c : DistItem) (rest : List DistItem) (v : ℕ)
      → s.cands ≡ c ∷ rest
      → CandsOk g a s
      → 0 < waiting s v
      → c.dist ≤ℤ pos (near g a v)
  waiting_far s c rest v e k h =
      let (i, l, at) = tally_find (λ x. x.id == v) s.cands no_item h in
      let fine = tally_full (cand_ok g a) s.cands i no_item k.sound l in
      let head : far s.cands 0 ≡ c.dist = ap (λ cs. far cs 0) e in
      ground (arith, root_le s.cands i k.heap l)

  -- The state behind the pop of the nearest candidate, which is expanded next.
  pub record Popped (s : VisitSlot) (c : DistItem) (cands : List DistItem) : Type 0 where
    pub inside : c.id < g.n
    pub going : Searching g a (λ v. v ≡ c.id) (record s { cands = cands })
    pub work_lt : work (record s { cands = cands }) + 1 ≡ work s

  pub pop-Popped :
      (s : VisitSlot) (c : DistItem) (rest h : List DistItem)
      → s.cands ≡ c ∷ rest
      → Searching g a Nobody s
      → IsHeap h
      → Same h rest
      → Popped s c h
  pop-Popped s c rest h e i heap same =
      let size = Same-length h rest same in
      let all : tally (cand_ok g a) (c ∷ rest) ≡ suc (length rest) =
        ap (tally (cand_ok g a)) (sym e) ∙ i.cands.sound ∙ ap length e in
      let count : length s.cands ≡ suc (length rest) = ap length e in
      let few = tally-le (cand_ok g a) rest in
      let good = same (cand_ok g a) in
      record {
        inside = ground arith;
        going = record {
          marks_size = i.marks_size;
          marks_le = i.marks_le;
          gen_pos = i.gen_pos;
          gen_le = i.gen_le;
          results = ResOk-move g a s s.marks h i.results;
          cands = record { heap = heap; sound = ground arith };
          visited = i.visited;
          best = i.best;
          closed = λ v res. elim (i.closed v res) [
            | inl nobody ↦ absurd nobody
            | inr (inl waits) ↦
                let split : waiting s v ≡ tally (λ x. x.id == v) (c ∷ rest) =
                  ap (tally (λ x. x.id == v)) e in
                elim (ℕ_discrete v c.id) [
                  | yes mine ↦ inl mine
                  | no other ↦ inr (inl (ground (arith, same (λ x. x.id == v))))
                ]
            | inr (inr done) ↦ inr (inr done)
          ];
        };
        work_lt = omega arith;
      }
