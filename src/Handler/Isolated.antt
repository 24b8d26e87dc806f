-- ===== src/Handler/Isolated.antt =====
-- The pooled work buffers: no request sees what an earlier one left in its buffer.
use fraud_detection_api.Base.{◌≡◌, refl, length, Bytes, bytes_eq, ◌==◌, ◌&&◌}
use fraud_detection_api.Run.{Run, ok, err, panic, out_of_fuel}
use fraud_detection_api.Alike.{
  Alike, both, both_panic, both_out_of_fuel, Alike-bind, Alike-same, Alike-if,
}
use fraud_detection_api.Config.{codes}
use fraud_detection_api.Runtime.{Runtime}
use fraud_detection_api.Request.{Request, reset}
use fraud_detection_api.Parse.Payload.{parse_strict_request}
use fraud_detection_api.Vectorize.{vectorize}
use fraud_detection_api.Quantize.{quantize_query}
use fraud_detection_api.Graph.{Graph, fetch}
use fraud_detection_api.Query.Start.{Usable}
use fraud_detection_api.Query.Independent.{query_fast5-Alike}
use fraud_detection_api.Handler.{
  json_content_type, ready_body, Method, get, post, other, HttpRequest, Response, WorkBuf,
  response_table, resp_fallback, write_json, only_status, count_frauds, score, handle_score, handle,
}

module _ (go : Runtime) (g : Graph) where
  abbrev Answered : WorkBuf go × Response → WorkBuf go × Response → Type 0
  Answered (_, r) (_, again) = r ≡ again

  score-Alike :
      (b c : WorkBuf go) (req : Request go)
      → Usable g b.slot
      → Usable g c.slot
      → Alike Answered (score go g (record b { req = req })) (score go g (record c { req = req }))
  unfolding score
  score-Alike b c req ub uc =
      Alike-bind (query_fast5-Alike g (quantize_query go (vectorize go req)) b.slot c.slot ub uc)
        λ (s, out) (t, again) e. rw e (
          Alike-same (count_frauds g again 0)
            λ count. Alike-same (fetch response_table count) λ body. both refl)

  handle_score-Alike :
      (b c : WorkBuf go) (body : Bytes)
      → Usable g b.slot
      → Usable g c.slot
      → Alike Answered (handle_score go g b body) (handle_score go g c body)
  unfolding handle_score reset
  handle_score-Alike b c body ub uc = ended (parse_strict_request go body (reset go b.req))
    where
      ended :
          (m : Run (Request go))
          → Alike Answered
              (elim m [
                | ok req ↦ score go g (record b { req = req })
                | err ↦ ok (record b { req = reset go b.req }, write_json resp_fallback)
                | panic ↦ panic
                | out_of_fuel ↦ out_of_fuel
              ])
              (elim m [
                | ok req ↦ score go g (record c { req = req })
                | err ↦ ok (record c { req = reset go c.req }, write_json resp_fallback)
                | panic ↦ panic
                | out_of_fuel ↦ out_of_fuel
              ])
      ended (ok req) = score-Alike b c req ub uc
      ended err = both refl
      ended panic = both_panic
      ended out_of_fuel = both_out_of_fuel

  -- Two buffers with usable slots give the same response to a request, or fail in the same way,
  -- over any graph and whatever request, vectors, ids and marks they still hold.
  pub handle-Alike :
      (b c : WorkBuf go) (r : HttpRequest)
      → Usable g b.slot
      → Usable g c.slot
      → Alike (λ (_, x) (_, y). x ≡ y) (handle go g b r) (handle go g c r)
  unfolding handle
  handle-Alike b c r ub uc =
      Alike-if (length r.path == 6 && bytes_eq r.path (codes "/ready")) (λ _. ready r.method)
        λ _.
          Alike-if (length r.path == 12 && bytes_eq r.path (codes "/fraud-score"))
            (λ _. scored r.method) λ _. both refl
    where
      ready :
          (m : Method)
          → Alike Answered
              (elim m [
                | get ↦ ok (
                  b,
                  record { status = 200; content_type = json_content_type; body = ready_body },
                )
                | _ ↦ ok (b, only_status 405)
              ])
              (elim m [
                | get ↦ ok (
                  c,
                  record { status = 200; content_type = json_content_type; body = ready_body },
                )
                | _ ↦ ok (c, only_status 405)
              ])
      ready get = both refl
      ready post = both refl
      ready other = both refl

      scored :
          (m : Method)
          → Alike Answered
              (elim m [ post ↦ handle_score go g b r.body | _ ↦ ok (b, only_status 405) ])
              (elim m [ post ↦ handle_score go g c r.body | _ ↦ ok (c, only_status 405) ])
      scored get = both refl
      scored post = handle_score-Alike b c r.body ub uc
      scored other = both refl
