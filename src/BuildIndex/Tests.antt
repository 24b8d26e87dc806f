-- ===== src/BuildIndex/Tests.antt =====
-- The theorems of the build pipeline at three records, of which the last is not decoded.
use fraud_detection_api.Base.{Bytes, pos, ℕ, ◌-◌, true, none, some, [], ◌∷◌, arith}
use fraud_detection_api.Build.{new_builder}
use fraud_detection_api.Build.Ready.{new_builder-Ready}
use fraud_detection_api.Build.Tests.{insertion}
use fraud_detection_api.BuildIndex.{Record, Input, build_index}
use fraud_detection_api.BuildIndex.Asked.{ask_new_index, Asked, ask_new_index-Asked}
use fraud_detection_api.BuildIndex.Built.{decoded, Built, build_index-Built}
use fraud_detection_api.Config.{codes}
use fraud_detection_api.Dist.Bounds.{widen}
use fraud_detection_api.Exact.{exact}
use fraud_detection_api.Handler.Tests.{exact-GivesBytes}
use fraud_detection_api.Query.Tests.{nines, nines-Each}
use fraud_detection_api.Request.{zero_request}
use fraud_detection_api.Run.{Returns}
use fraud_detection_api.Vectorize.{vectorize}

abbrev record_of : Bytes → Record exact
record_of label = record { vector = vectorize exact (zero_request exact); label = label }

abbrev input : Input exact
input = record {
  opening = some true;
  records = some (record_of (codes "fraud")) ∷ some (record_of (codes "legit")) ∷ none ∷ [];
}

-- Every node on layer 0 but node 0, on layer 1.
abbrev draws : ℕ → ℕ
draws i = 1 - i

build_index-Built_example :
    Returns
      (Built exact 0 (new_builder 4 2 2 3) (decoded exact input))
      (build_index exact insertion (λ i. pos (draws i)) input (new_builder 4 2 2 3))
build_index-Built_example =
    build_index-Built exact exact-GivesBytes insertion draws input (new_builder 4 2 2 3)
      (new_builder-Ready 4 2 2 3 (omega arith) (omega arith) (omega arith))

ask_new_index-Asked_example :
    Returns
      (Asked exact 4
        (some (record_of (codes "fraud")) ∷ some (record_of (codes "legit")) ∷ none ∷ [])
        nines)
      (ask_new_index exact insertion (λ i. pos (draws i)) input (new_builder 4 2 2 3) (widen nines))
ask_new_index-Asked_example =
    ask_new_index-Asked exact exact-GivesBytes insertion draws 4 2 2 3 (record_of (codes "fraud"))
      (some (record_of (codes "legit")) ∷ none ∷ []) nines (omega arith) (omega arith) (omega arith)
      (omega arith) nines-Each
