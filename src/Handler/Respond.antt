-- ===== src/Handler/Respond.antt =====
-- The handler's answers.
use fraud_detection_api.Base.{
  ℕ, ◌+◌, ◌≡◌, refl, sym, ◌∙◌, ap, subst, true, length, tally, tally-le, arith, Bytes, none, some,
  Option-cases, ◌≢◌, bytes_eq, bytes_eq_iff, ◌==◌, ◌&&◌, ◌↔◌, inl, inr,
}
use mathlib.Core.Option.{some-injective}
use fraud_detection_api.Run.{ok, Returns, Returns-if, returns, Returns-bind, Returns-map}
use fraud_detection_api.Config.{codes}
use fraud_detection_api.Runtime.{Runtime}
use fraud_detection_api.Request.{Request, reset, zero_request}
use fraud_detection_api.Parse.Grammar.{payload}
use fraud_detection_api.Parse.Refinement.{parse_strict_request-checked}
use fraud_detection_api.Vectorize.{vectorize}
use fraud_detection_api.Quantize.{quantize_vector}
use fraud_detection_api.Quantize.Bytes.{GivesBytes, quantize_query-quantize_vector}
use fraud_detection_api.Graph.{Graph}
use fraud_detection_api.Graph.WellFormed.{WellFormed}
use fraud_detection_api.Query.Start.{Usable}
use fraud_detection_api.Query.Answer.{Answer, query_fast5-Answer}
use fraud_detection_api.Handler.{
  json_content_type, ready_body, Method, get, post, other, HttpRequest, Response, WorkBuf,
  write_json, resp_fallback, only_status, score, handle_score, handle,
}
use fraud_detection_api.Handler.Verdict.{
  verdict, labelled, count_frauds-tally, response_table-verdict,
}

module _ (go : Runtime) (gives : GivesBytes go) (g : Graph) (w : WellFormed g) where
  -- The effect of a request that was parsed.
  pub record Scored (req : Request go) (b : WorkBuf go) (r : Response) : Type 0 where
    pub answer : Answer g (quantize_vector go (vectorize go req)) b.slot b.out
    pub response : r ≡ write_json (verdict (tally (labelled g) b.out))

  score-Scored :
      (b : WorkBuf go) → Usable g b.slot → Returns (λ (c, r). Scored b.req c r) (score go g b)
  unfolding score
  score-Scored b u =
      let v = vectorize go b.req in
      let a = quantize_vector go v in
      let (same, bytes) = quantize_query-quantize_vector go gives v in
      rw same (
        Returns-bind (query_fast5-Answer g w a bytes b.slot u) λ (slot, out) r.
          let few = tally-le (labelled g) out in
          let size = r.best.size in
          rw
            (
              count_frauds-tally g out 0 w r.inside,
              response_table-verdict (tally (labelled g) out + 0) (omega arith),
            )
            (returns
              (record { answer = r; response = ap (λ k. write_json (verdict k)) (omega arith) })))

  -- The /fraud-score path: what the buffer held before has no part in the request.
  pub record Scoring (body : Bytes) (b : WorkBuf go) (r : Response) : Type 0 where
    pub usable : Usable g b.slot
    pub refused : payload go (reset go (zero_request go)) body ≡ none → r ≡ write_json (verdict 5)
    pub scored :
        (req : Request go)
        → payload go (reset go (zero_request go)) body ≡ some req
        → Scored req b r

  reset-zero_request : (r : Request go) → reset go r ≡ reset go (zero_request go)
  unfolding reset zero_request
  reset-zero_request r = refl

  resp_fallback-verdict : resp_fallback ≡ verdict 5
  unfolding resp_fallback verdict
  resp_fallback-verdict = refl

  -- A body is scored if the reference grammar accepts it, and gets the fallback otherwise.
  handle_score-Scoring :
      (b : WorkBuf go) (body : Bytes)
      → Usable g b.slot
      → Returns (λ (c, r). Scoring body c r) (handle_score go g b body)
  unfolding handle_score
  handle_score-Scoring b body u =
      rw
        (
          handle_score,
          reset-zero_request b.req,
          parse_strict_request-checked go body (reset go (zero_request go)),
        )
        (elim (Option-cases (payload go (reset go (zero_request go)) body)) [
          | inl bad ↦ rw bad (
              returns (record {
                usable = u;
                refused = λ _. ap write_json resp_fallback-verdict;
                scored = λ req good. absurd (cc);
              }))
          | inr (req, good) ↦ rw good (
              Returns-map (score-Scored (record b { req = req }) u) λ (c, r) m. record {
                usable = m.answer.found.usable;
                refused = λ bad. absurd (cc);
                scored = λ other same.
                    subst (λ x. Scored x c r) (some-injective _ _ (sym good ∙ same)) m;
              })
        ])

  -- One request, by its path and its method.
  pub record Served (c : HttpRequest) (b : WorkBuf go) (r : Response) : Type 0 where
    pub usable : Usable g b.slot
    pub ready :
        c.path ≡ codes "/ready"
        → c.method ≡ get
        → r ≡ record { status = 200; content_type = codes "application/json"; body = codes "ok" }
    pub scoring : c.path ≡ codes "/fraud-score" → c.method ≡ post → Scoring c.body b r
    pub not_get : c.path ≡ codes "/ready" → c.method ≢ get → r ≡ only_status 405
    pub not_post : c.path ≡ codes "/fraud-score" → c.method ≢ post → r ≡ only_status 405
    pub unknown : c.path ≢ codes "/ready" → c.path ≢ codes "/fraud-score" → r ≡ only_status 404

  -- The two paths.
  differ : codes "/ready" ≢ codes "/fraud-score"
  differ e =
      let l : length (codes "/ready") ≡ length (codes "/fraud-score") = ap length e in
      absurd (omega arith)

  matches :
      (p text : Bytes) (n : ℕ)
      → length text ≡ n
      → ((length p == n && bytes_eq p text) ≡ true) ↔ (p ≡ text)
  matches p text n l =
      let (to, from) = bytes_eq_iff p text in
      (λ t. to (ground arith), λ e. (let yes = from e in let same = ap length e in ground arith))

  ready-Served :
      (b : WorkBuf go) (path : Bytes) (method : Method) (body : Bytes)
      → Usable g b.slot
      → path ≡ codes "/ready"
      → Returns
          (λ (d, r). Served (record { path = path; method = method; body = body }) d r)
          (elim method [
            | get ↦
                ok (b, record { status = 200; content_type = json_content_type; body = ready_body })
            | _ ↦ ok (b, only_status 405)
          ])
  ready-Served b path get body u e = returns (record {
    usable = u;
    ready = λ _ _. refl;
    scoring = λ f. absurd (differ (sym e ∙ f));
    not_get = λ _ n. absurd (n refl);
    not_post = λ f. absurd (differ (sym e ∙ f));
    unknown = λ n. absurd (n e);
  })
  ready-Served b path post body u e = returns (record {
    usable = u;
    ready = λ _ m. absurd (cc);
    scoring = λ f. absurd (differ (sym e ∙ f));
    not_get = λ _ _. refl;
    not_post = λ f. absurd (differ (sym e ∙ f));
    unknown = λ n. absurd (n e);
  })
  ready-Served b path other body u e = returns (record {
    usable = u;
    ready = λ _ m. absurd (cc);
    scoring = λ f. absurd (differ (sym e ∙ f));
    not_get = λ _ _. refl;
    not_post = λ f. absurd (differ (sym e ∙ f));
    unknown = λ n. absurd (n e);
  })

  score-Served :
      (b : WorkBuf go) (path : Bytes) (method : Method) (body : Bytes)
      → Usable g b.slot
      → path ≡ codes "/fraud-score"
      → Returns
          (λ (d, r). Served (record { path = path; method = method; body = body }) d r)
          (elim method [ post ↦ handle_score go g b body | _ ↦ ok (b, only_status 405) ])
  score-Served b path get body u e = returns (record {
    usable = u;
    ready = λ f. absurd (differ (sym f ∙ e));
    scoring = λ _ m. absurd (cc);
    not_get = λ f. absurd (differ (sym f ∙ e));
    not_post = λ _ _. refl;
    unknown = λ _ n. absurd (n e);
  })
  score-Served b path post body u e = Returns-map (handle_score-Scoring b body u) λ (d, r) m.
      record {
        usable = m.usable;
        ready = λ f. absurd (differ (sym f ∙ e));
        scoring = λ _ _. m;
        not_get = λ f. absurd (differ (sym f ∙ e));
        not_post = λ _ n. absurd (n refl);
        unknown = λ _ n. absurd (n e);
      }
  score-Served b path other body u e = returns (record {
    usable = u;
    ready = λ f. absurd (differ (sym f ∙ e));
    scoring = λ _ m. absurd (cc);
    not_get = λ f. absurd (differ (sym f ∙ e));
    not_post = λ _ _. refl;
    unknown = λ _ n. absurd (n e);
  })

  -- Every request is answered: over a well-formed graph and a usable slot, with conversions to
  -- uint8 that give bytes, the handler neither panics nor runs out of rounds, and leaves the slot
  -- usable for the next request. GET /ready answers ok. POST /fraud-score answers, for a body of
  -- the grammar, the verdict for the labels of the five ids that the query of its vector gives, and
  -- the verdict of five frauds for any other body. Another method gives 405 and another path 404.
  pub handle-Served :
      (b : WorkBuf go) (c : HttpRequest)
      → Usable g b.slot
      → Returns (λ (d, r). Served c d r) (handle go g b c)
  unfolding handle
  handle-Served b c u =
      let (is_ready, ready_is) = matches c.path (codes "/ready") 6 refl in
      let (is_score, score_is) = matches c.path (codes "/fraud-score") 12 refl in
      Returns-if (length c.path == 6 && bytes_eq c.path (codes "/ready"))
        (λ t. ready-Served b c.path c.method c.body u (is_ready t))
        λ f.
          Returns-if (length c.path == 12 && bytes_eq c.path (codes "/fraud-score"))
            (λ t. score-Served b c.path c.method c.body u (is_score t))
            λ o. returns (record {
              usable = u;
              ready = λ e. absurd (cc (ready_is e));
              scoring = λ e. absurd (cc (score_is e));
              not_get = λ e. absurd (cc (ready_is e));
              not_post = λ e. absurd (cc (score_is e));
              unknown = λ _ _. refl;
            })
