-- ===== src/Handler.antt =====
-- internal/api/handler.go: routing, and the /fraud-score path with its pooled work buffer. The
-- server library gives the path, the method and the body, and sends the response.
pub mod Verdict
pub mod Respond
pub mod Isolated
pub mod Tests
use fraud_detection_api.Base.{
  ℕ, ◌+◌, ℤ, List, [], ◌∷◌, if◌then◌else◌, Bytes, bytes_eq, length, ◌==◌, ◌&&◌,
}
use fraud_detection_api.Run.{Run, ok, err, panic, out_of_fuel, ◌>>=◌}
use fraud_detection_api.Runtime.{Runtime}
use fraud_detection_api.Config.{codes}
use fraud_detection_api.Request.{Request, reset}
use fraud_detection_api.Vector.{Vector}
use fraud_detection_api.Parse.Payload.{parse_strict_request}
use fraud_detection_api.Vectorize.{vectorize}
use fraud_detection_api.Quantize.{quantize_query}
use fraud_detection_api.Graph.{Graph, fetch, is_fraud}
use fraud_detection_api.Query.Slot.{VisitSlot}
use fraud_detection_api.Query.Search.{query_fast5}

unfoldable pub response_table : List Bytes
response_table =
    codes "{\"approved\":true,\"fraud_score\":0}"
    ∷ codes "{\"approved\":true,\"fraud_score\":0.2}"
    ∷ codes "{\"approved\":true,\"fraud_score\":0.4}"
    ∷ codes "{\"approved\":false,\"fraud_score\":0.6}"
    ∷ codes "{\"approved\":false,\"fraud_score\":0.8}"
    ∷ codes "{\"approved\":false,\"fraud_score\":1}"
    ∷ []

-- `responseTable[5]`
unfoldable pub resp_fallback : Bytes
resp_fallback = codes "{\"approved\":false,\"fraud_score\":1}"

abbrev pub ready_body : Bytes
ready_body = codes "ok"

abbrev pub json_content_type : Bytes
json_content_type = codes "application/json"

pub data Method : Type 0 where
  get post other : Method

pub record HttpRequest : Type 0 where
  pub path : Bytes
  pub method : Method
  pub body : Bytes

pub record Response : Type 0 where
  pub status : ℕ
  pub content_type : Bytes
  pub body : Bytes

-- What `SetStatusCode` alone leaves.
abbrev pub only_status : ℕ → Response
only_status status = record { status = status; content_type = []; body = [] }

unfoldable pub write_json : Bytes → Response
write_json body = record { status = 200; content_type = json_content_type; body = body }

-- `fraudCount` over the ids of `out`.
unfoldable pub count_frauds : Graph → List ℕ → ℕ → Run ℕ
count_frauds g [] count = ok count
count_frauds g (id ∷ out) count = do
  fraud ← is_fraud g id
  count_frauds g out (if fraud then count + 1 else count)

module _ (go : Runtime) where
  open go use {Float32, literal32}

  pub record WorkBuf : Type 0 where
    pub req : Request go
    pub vec : Vector Float32
    pub qvec : Vector ℤ
    pub out : List ℕ
    pub slot : VisitSlot

  -- Behind a successful parse into `req`.
  unfoldable pub score : Graph → WorkBuf → Run (WorkBuf × Response)
  score g w = do
    let vec = vectorize go w.req
    let qvec = quantize_query go vec
    (slot, out) ← query_fast5 g qvec w.slot
    count ← count_frauds g out 0
    body ← fetch response_table count
    ok (record w { vec = vec; qvec = qvec; out = out; slot = slot }, write_json body)

  -- After an error the fields that were read stay in `req` until the next reset; here it is empty.
  unfoldable pub handle_score : Graph → WorkBuf → Bytes → Run (WorkBuf × Response)
  handle_score g w body =
      let clean = record w { req = reset go w.req } in
      elim (parse_strict_request go body (clean.req)) [
        | ok req ↦ score g (record clean { req = req })
        | err ↦ ok (clean, write_json resp_fallback)
        | panic ↦ panic
        | out_of_fuel ↦ out_of_fuel
      ]

  unfoldable pub handle : Graph → WorkBuf → HttpRequest → Run (WorkBuf × Response)
  handle g w c =
      let ready : Response = record {
        status = 200;
        content_type = json_content_type;
        body = ready_body;
      } in
      let is_ready = length c.path == 6 && bytes_eq c.path (codes "/ready") in
      let is_score = length c.path == 12 && bytes_eq c.path (codes "/fraud-score") in
      if is_ready
      then elim c.method [ get ↦ ok (w, ready) | _ ↦ ok (w, only_status 405) ]
      else if is_score
      then elim c.method [ post ↦ handle_score g w c.body | _ ↦ ok (w, only_status 405) ]
      else ok (w, only_status 404)
