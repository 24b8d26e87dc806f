-- ===== src/Handler/Tests.antt =====
-- The handler's theorems over a graph of two nodes and exact fractions.
use fraud_detection_api.Base.{true, refl, pos, ◌∷◌, ◌≡◌, [], arith}
use fraud_detection_api.Run.{ok, Returns}
use fraud_detection_api.Config.{codes}
use fraud_detection_api.Exact.{exact, scaled}
use fraud_detection_api.Vector.{Each}
use fraud_detection_api.Dist.Bounds.{IsByte, widen}
use fraud_detection_api.Request.{Request, zero_request}
use fraud_detection_api.Vectorize.{vectorize}
use fraud_detection_api.Vectorize.Range.{OrdersConstants, Ranged, vectorize-Ranged}
use fraud_detection_api.Quantize.{quantize_vector, quantize_query}
use fraud_detection_api.Quantize.Bytes.{GivesBytes, quantize_query-quantize_vector}
use fraud_detection_api.Graph.{fetch}
use fraud_detection_api.Graph.Tests.{pair, pair-WellFormed}
use fraud_detection_api.Query.Slot.{new_visit_slot}
use fraud_detection_api.Query.Start.{new_visit_slot-Usable}
use fraud_detection_api.Handler.{HttpRequest, WorkBuf, post, handle, response_table}
use fraud_detection_api.Handler.Verdict.{verdict, response_table-verdict}
use fraud_detection_api.Alike.{Alike}
use fraud_detection_api.Query.Tests.{used_slot, used_slot-Usable}
use fraud_detection_api.Handler.Isolated.{handle-Alike}
use fraud_detection_api.Handler.Respond.{Served, handle-Served}

pub exact-GivesBytes : GivesBytes exact
exact-GivesBytes x = omega arith

quantize_query-quantize_vector_example :
    (quantize_query exact (vectorize exact (zero_request exact))
      ≡ widen (quantize_vector exact (vectorize exact (zero_request exact))))
    × Each IsByte (quantize_vector exact (vectorize exact (zero_request exact)))
quantize_query-quantize_vector_example =
    quantize_query-quantize_vector exact exact-GivesBytes (vectorize exact (zero_request exact))

exact-OrdersConstants : OrdersConstants exact
exact-OrdersConstants = record { zero_zero = refl; one_zero = refl; one_one = refl }

-- A transaction of 20000, with the last one 1000 km away.
abbrev far_away : Request exact
far_away =
    let r = zero_request exact in
    record r {
      transaction = record (r.transaction) { amount = scaled (pos 20000) 0 };
      last_transaction = record { timestamp = 0; km_from_current = scaled (pos 1000) 0 };
      has_last_transaction = true;
    }

vectorize-Ranged_example : Ranged exact exact-OrdersConstants far_away (vectorize exact far_away)
vectorize-Ranged_example = vectorize-Ranged exact exact-OrdersConstants far_away

response_table-verdict_example : fetch response_table 2 ≡ ok (verdict 2)
response_table-verdict_example = response_table-verdict 2 (omega arith)

abbrev buffer : WorkBuf exact
buffer = record {
  req = zero_request exact;
  vec = vectorize exact (zero_request exact);
  qvec = quantize_query exact (vectorize exact (zero_request exact));
  out = [];
  slot = new_visit_slot 2;
}

abbrev question : HttpRequest
question = record { path = codes "/fraud-score"; method = post; body = codes "{}" }

handle-Served_example :
    Returns
      (λ (d, r). Served exact exact-GivesBytes pair pair-WellFormed question d r)
      (handle exact pair buffer question)
handle-Served_example =
    handle-Served exact exact-GivesBytes pair pair-WellFormed buffer question
      (new_visit_slot-Usable pair)

handle-Alike_example :
    Alike
      (λ (_, x) (_, y). x ≡ y)
      (handle exact pair (record buffer { out = 1 ∷ []; slot = used_slot }) question)
      (handle exact pair buffer question)
handle-Alike_example =
    handle-Alike exact pair (record buffer { out = 1 ∷ []; slot = used_slot }) buffer question
      used_slot-Usable (new_visit_slot-Usable pair)
