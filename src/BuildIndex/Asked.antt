-- ===== src/BuildIndex/Asked.antt =====
-- From the records to an answer: the index is built and finished, and a query is asked.
use fraud_detection_api.Base.{
  length, ℤ, pos, ℕ, suc, ◌+◌, ◌-◌, ◌*◌, ◌^◌, ◌≤◌, ◌<◌, ◌≡◌, ap, ◌∙◌, subst, true, Option, some,
  List, [], ◌∷◌, arith,
}
use fraud_detection_api.Build.{Builder, new_builder}
use fraud_detection_api.Build.Finalize.{finalize}
use fraud_detection_api.Build.Finalized.{finalize-Finalized}
use fraud_detection_api.Build.Ready.{new_builder-Ready}
use fraud_detection_api.Build.Select.{Sorter}
use fraud_detection_api.BuildIndex.{Record, Input, build_index}
use fraud_detection_api.BuildIndex.Built.{
  accepted, decoded, HoldsRecords, build_index-Built, holds_none, holds_next,
}
use fraud_detection_api.Dist.Bounds.{IsByte, widen}
use fraud_detection_api.Graph.{Graph, vector_at, is_fraud}
use fraud_detection_api.Graph.WellFormed.{WellFormed}
use fraud_detection_api.Quantize.Bytes.{GivesBytes}
use fraud_detection_api.Query.Answer.{Answer, query_fast5-Answer}
use fraud_detection_api.Query.Search.{query_fast5}
use fraud_detection_api.Query.Slot.{VisitSlot, new_visit_slot}
use fraud_detection_api.Query.Start.{new_visit_slot-Usable}
use fraud_detection_api.Run.{◌>>=◌, Run, Returns, Returns-bind, ok, returns}
use fraud_detection_api.Runtime.{Runtime}
use fraud_detection_api.Vector.{Vector, Each}

module _ (go : Runtime) where
  -- The parts of the program in a row: `NewBuilder`, `BuildIndex`, `Finalize`, and a first query in
  -- a new slot.
  unfoldable pub ask_new_index :
      Sorter → (ℕ → ℤ) → Input go → Builder → Vector ℤ → Run (Graph × (VisitSlot × List ℕ))
  ask_new_index sorter draw input b q = do
    r ← build_index go sorter draw input b
    f ← finalize r.0.0
    found ← query_fast5 f.graph q (new_visit_slot f.graph.n)
    ok (f.graph, found)

  HoldsRecords-same :
      (g g' : Graph) (k : ℕ) (records : List (Record go))
      → ((id : ℕ) → vector_at g' id ≡ vector_at g id)
      → ((id : ℕ) → is_fraud g' id ≡ is_fraud g id)
      → HoldsRecords go g k records
      → HoldsRecords go g' k records
  HoldsRecords-same g g' k [] vectors labels h = holds_none
  HoldsRecords-same g g' k (r ∷ records) vectors labels (holds_next v l rest) =
      holds_next (vectors k ∙ v) (labels k ∙ l)
        (HoldsRecords-same g g' (suc k) records vectors labels rest)

  -- The index holds the records, and the answer is that of a search over it.
  pub record Asked (n : ℕ) (records : List (Option (Record go))) (a : Vector ℕ)
      (r : Graph × (VisitSlot × List ℕ)) : Type 0 where
    pub well_formed : WellFormed r.0
    pub holds : HoldsRecords go r.0 0 (accepted go n records)
    pub answer : Answer r.0 a r.1.0 r.1.1

  -- Let conversions to uint8 give bytes, the drawn levels not be negative, n be positive with 31 * n
  -- below 2 ^ 31, m and m0 be at most 255, and the first record of the input be decoded. Then building
  -- the index of the input, finishing it and asking it for the neighbors of a vector of bytes never
  -- panics and never runs out of rounds. The finished graph is well formed, node i of it holds the
  -- i-th of the records that were inserted, and the five ids are the answer that `QueryFast5`
  -- promises over a well-formed graph.
  pub ask_new_index-Asked :
      (go_bytes : GivesBytes go) (sorter : Sorter) (draw : ℕ → ℕ) (n m m0 ef : ℕ)
      (first : Record go) (rest : List (Option (Record go))) (a : Vector ℕ)
      → 0 < n
      → n * 31 < 2 ^ 31
      → m ≤ 255
      → m0 ≤ 255
      → Each IsByte a
      → Returns (Asked n (some first ∷ rest) a) (
          ask_new_index sorter
            (λ i. pos (draw i))
            (record { opening = some true; records = some first ∷ rest })
            (new_builder n m m0 ef)
            (widen a))
  unfolding ask_new_index decoded accepted new_builder
  ask_new_index-Asked go_bytes sorter draw n m m0 ef first rest a some_room small m_le m0_le ha =
      let input : Input go = record { opening = some true; records = some first ∷ rest } in
      let empty = new_builder-Ready n m m0 ef (omega arith) m_le m0_le in
      Returns-bind (build_index-Built go go_bytes sorter draw input (new_builder n m m0 ef) empty)
        λ r o.
          let size : n - 0 ≡ suc (n - 1) = omega arith in
          let count : r.0.1 ≡ 0 + length (accepted go (suc (n - 1)) (some first ∷ rest)) =
            o.count ∙ ap (λ x. 0 + length (accepted go x (some first ∷ rest))) size in
          let n_eq : r.0.0.graph.n ≡ n = o.n_same in
          Returns-bind (finalize-Finalized r.0.1 r.0.0 o.ready (omega arith) (omega arith)) λ f z.
            Returns-bind
              (query_fast5-Answer f.graph z.well_formed a ha (new_visit_slot f.graph.n)
                (new_visit_slot-Usable f.graph))
              λ found answer. returns (record {
                well_formed = z.well_formed;
                holds =
                    (let whole : n - 0 ≡ n = omega arith in
                      HoldsRecords-same r.0.0.graph f.graph 0 _ z.vectors_same z.labels_same (
                        subst
                          (λ x. HoldsRecords go r.0.0.graph 0 (accepted go x (some first ∷ rest)))
                          whole o.holds));
                answer = answer;
              })
