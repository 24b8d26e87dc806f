-- ===== src/Build/Bidirectional.antt =====
-- The edges between a new node and the chosen neighbors keep the invariant of the builder.
use fraud_detection_api.Base.{ltb, tally-le, ℕ, ◌<◌, List, [], ◌∷◌, arith}
use fraud_detection_api.Build.{Builder}
use fraud_detection_api.Build.Connect.{connect_out, connect_back, connect_bidirectional}
use fraud_detection_api.Build.Diverse.{Within}
use fraud_detection_api.Build.Edges.{add_edge-Step, prune-Step}
use fraud_detection_api.Build.Linked.{Linked, Kept-refl, Step, Step-bind}
use fraud_detection_api.Build.Select.{Sorter}
use fraud_detection_api.Query.Heap.{DistItem}
use fraud_detection_api.Run.{Returns, returns}

module _ (sorter : Sorter) (k : ℕ) where
  connect_out-Step :
      (b : Builder) (id l : ℕ) (selected : List DistItem)
      → Linked k b
      → id < k
      → Within k selected
      → Returns (Step k b) (connect_out sorter b id l selected)
  unfolding connect_out
  connect_out-Step b id l [] o h within = returns (o, Kept-refl b)
  connect_out-Step b id l (s ∷ selected) o h within =
      let most = tally-le (λ x. ltb x.id k) selected in
      Step-bind k b (add_edge-Step sorter k b id s.id l o h (ground arith))
        λ c p _. connect_out-Step c id l selected p h (ground arith)

  connect_back-Step :
      (b : Builder) (id l : ℕ) (selected : List DistItem)
      → Linked k b
      → id < k
      → Within k selected
      → Returns (Step k b) (connect_back sorter b id l selected)
  unfolding connect_back
  connect_back-Step b id l [] o h within = returns (o, Kept-refl b)
  connect_back-Step b id l (s ∷ selected) o h within =
      let most = tally-le (λ x. ltb x.id k) selected in
      let low : s.id < k = ground arith in
      Step-bind k b (add_edge-Step sorter k b s.id id l o low h) λ c p _.
        Step-bind k c (prune-Step sorter k c s.id l p low)
          λ d q _. connect_back-Step d id l selected q h (ground arith)

  pub connect_bidirectional-Step :
      (b : Builder) (id l : ℕ) (selected : List DistItem)
      → Linked k b
      → id < k
      → Within k selected
      → Returns (Step k b) (connect_bidirectional sorter b id selected l)
  unfolding connect_bidirectional
  connect_bidirectional-Step b id l selected o h within =
      Step-bind k b (connect_out-Step b id l selected o h within)
        λ c p _. connect_back-Step c id l selected p h within
