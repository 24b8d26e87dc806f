-- ===== src/BuildIndex/Built.antt =====
-- What `BuildIndex` makes of an input, errors included, and that the finished index answers queries.
use fraud_detection_api.Base.{
  leb, ◌==◌, if◌then◌else◌, Bool-cases, length, pos, ℕ, zero, suc, ◌+◌, ◌-◌, ◌%◌, ◌^◌, ◌<◌, ◌≡◌,
  refl, sym, ap, ◌∙◌, subst, inl, inr, Bool, true, false, Option, none, some, List, [], ◌∷◌, arith,
}
use fraud_detection_api.Build.{Builder, label_fraud}
use fraud_detection_api.Build.Added.{insert-Added}
use fraud_detection_api.Build.Ready.{Ready}
use fraud_detection_api.Build.Select.{Sorter}
use fraud_detection_api.Build.Steps.{Added}
use fraud_detection_api.BuildIndex.{
  Record, Input, stream_loop, stream_records, is_fraud_label, insert_record, build_index,
}
use fraud_detection_api.Graph.{Graph, vector_at, is_fraud}
use fraud_detection_api.Quantize.{quantize_vector}
use fraud_detection_api.Quantize.Bytes.{GivesBytes, quantize_query-quantize_vector}
use fraud_detection_api.Query.Pick.{free}
use fraud_detection_api.Run.{Run, Returns, Returns-bind, Returns-map, ok, returns}
use fraud_detection_api.Runtime.{Runtime}

module _ (go : Runtime) where
  -- The records that are inserted where there is room for `room`.
  unfoldable pub accepted : ℕ → List (Option (Record go)) → List (Record go)
  accepted room [] = []
  accepted room (none ∷ rest) = []
  accepted zero (some r ∷ rest) = []
  accepted (suc room) (some r ∷ rest) = r ∷ accepted room rest

  -- There is an error: a record that is not decoded, or a record too many.
  unfoldable pub refused : ℕ → List (Option (Record go)) → Bool
  refused room [] = false
  refused room (none ∷ rest) = true
  refused zero (some r ∷ rest) = true
  refused (suc room) (some r ∷ rest) = refused room rest

  -- A wrong opening token is an error before the first record.
  unfoldable pub decoded : Input go → List (Option (Record go))
  decoded input = elim input.opening [
    | none ↦ none ∷ []
    | some false ↦ none ∷ []
    | some true ↦ input.records
  ]

  -- The nodes from `k` on hold the records.
  pub data HoldsRecords : Graph → ℕ → List (Record go) → Type 0 where
    holds_none : {g : Graph} {k : ℕ} → HoldsRecords g k []
    holds_next :
        {g : Graph} {k : ℕ} {r : Record go} {rest : List (Record go)}
        → vector_at g k ≡ ok (quantize_vector go r.vector)
        → is_fraud g k ≡ ok (is_fraud_label go r)
        → HoldsRecords g (suc k) rest
        → HoldsRecords g k (r ∷ rest)

  -- The builder, the count and the error of a run that started with `k` nodes.
  pub record Built (k : ℕ) (b : Builder) (records : List (Option (Record go)))
      (r : (Builder × ℕ) × Bool) : Type 0 where
    pub ready : Ready r.0.1 r.0.0
    pub count : r.0.1 ≡ k + length (accepted (b.graph.n - k) records)
    pub error_given : r.1 ≡ refused (b.graph.n - k) records
    pub n_same : r.0.0.graph.n ≡ b.graph.n
    pub holds : HoldsRecords r.0.0.graph k (accepted (b.graph.n - k) records)
    pub old_vectors :
        (other : ℕ) → other < k → vector_at r.0.0.graph other ≡ vector_at b.graph other
    pub old_labels : (other : ℕ) → other < k → is_fraud r.0.0.graph other ≡ is_fraud b.graph other

  label_eq : (t : Bool) → (if t then label_fraud else 0) == 1 ≡ t
  label_eq true = refl
  label_eq false = refl

  module _ (gives : GivesBytes go) (sorter : Sorter) (draw : ℕ → ℕ) where
    abbrev fn : ℕ → Record go → Builder × ℕ → Run ((Builder × ℕ) × Bool)
    fn = insert_record go sorter (λ i. pos (draw i))

    Built-none : (k : ℕ) (b : Builder) → Ready k b → Built k b [] ((b, k), false)
    unfolding accepted refused
    Built-none k b r = record {
      ready = r;
      count = omega arith;
      error_given = refl;
      n_same = refl;
      holds = holds_none;
      old_vectors = λ other l. refl;
      old_labels = λ other l. refl;
    }

    Built-undecoded :
        (k : ℕ) (b : Builder) (rest : List (Option (Record go)))
        → Ready k b
        → Built k b (none ∷ rest) ((b, k), true)
    unfolding accepted refused
    Built-undecoded k b rest r = record {
      ready = r;
      count = omega arith;
      error_given = refl;
      n_same = refl;
      holds = holds_none;
      old_vectors = λ other l. refl;
      old_labels = λ other l. refl;
    }

    Built-full :
        (k : ℕ) (b : Builder) (x : Record go) (rest : List (Option (Record go)))
        → Ready k b
        → b.graph.n - k ≡ 0
        → Built k b (some x ∷ rest) ((b, k), true)
    unfolding accepted refused
    Built-full k b x rest r full = record {
      ready = r;
      count =
          (let none_in : k ≡ k + length (accepted 0 (some x ∷ rest)) = omega arith in
            none_in ∙ ap (λ room. k + length (accepted room (some x ∷ rest))) (sym full));
      error_given = ap (λ room. refused room (some x ∷ rest)) (sym full);
      n_same = refl;
      holds =
          subst (λ room. HoldsRecords b.graph k (accepted room (some x ∷ rest))) (sym full)
            holds_none;
      old_vectors = λ other l. refl;
      old_labels = λ other l. refl;
    }

    -- One record, then the others.
    Built-next :
        (k : ℕ) (b c : Builder) (x : Record go) (rest : List (Option (Record go)))
        (r : (Builder × ℕ) × Bool)
        → k < b.graph.n
        → Added k b (quantize_vector go x.vector) (if is_fraud_label go x then label_fraud else 0) c
        → Built (suc k) c rest r
        → Built k b (some x ∷ rest) r
    unfolding accepted refused
    Built-next k b c x rest r room a o =
        let n_eq = a.n_same in
        let e : b.graph.n - k ≡ suc (c.graph.n - suc k) = omega arith in
        record {
          ready = o.ready;
          count = o.count ∙ omega arith ∙ ap (λ m. k + length (accepted m (some x ∷ rest))) (sym e);
          error_given = o.error_given ∙ ap (λ m. refused m (some x ∷ rest)) (sym e);
          n_same = o.n_same ∙ a.n_same;
          holds =
              subst (λ m. HoldsRecords r.0.0.graph k (accepted m (some x ∷ rest))) (sym e)
                (holds_next (o.old_vectors k (omega arith) ∙ a.new_vector)
                  (o.old_labels k (omega arith)
                    ∙ a.new_label
                    ∙ ap ok (label_eq (is_fraud_label go x)))
                  o.holds);
          old_vectors = λ other l. o.old_vectors other (omega arith) ∙ a.old_vectors other l;
          old_labels = λ other l. o.old_labels other (omega arith) ∙ a.old_labels other l;
        }

    -- What the callback gives where there is room.
    data Inserting (k : ℕ) (b : Builder) (x : Record go) : (Builder × ℕ) × Bool → Type 0 where
      inserting :
          {c : Builder}
          → Added k b
              (quantize_vector go x.vector)
              (if is_fraud_label go x then label_fraud else 0)
              c
          → Inserting k b x ((c, suc k), false)

    insert_record-Inserting :
        (k : ℕ) (b : Builder) (x : Record go)
        → Ready k b
        → k < b.graph.n
        → Returns (Inserting k b x) (fn k x (b, k))
    unfolding insert_record
    insert_record-Inserting k b x r free =
        let (_, bytes) = quantize_query-quantize_vector go gives x.vector in
        let small = r.linked.size_ok in
        let next : (k + 1) % 2 ^ 32 ≡ suc k = omega arith in
        let room : leb b.graph.n k ≡ false = ground arith in
        rw (room, next)
          (Returns-bind
            (insert-Added sorter k b (quantize_vector go x.vector)
              (if is_fraud_label go x then label_fraud else 0) (draw k) r free bytes)
            λ c a. returns (inserting a))

    full_record :
        (k : ℕ) (b : Builder) (x : Record go)
        → leb b.graph.n k ≡ true
        → fn k x (b, k) ≡ ok ((b, k), true)
    unfolding insert_record
    full_record k b x full = rw full refl

    after :
        (k : ℕ) (b : Builder) (x : Record go) (rest : List (Option (Record go)))
        → k < b.graph.n
        → (p : (Builder × ℕ) × Bool) → Inserting k b x p
        → ((c : Builder)
            → Added k b
                (quantize_vector go x.vector)
                (if is_fraud_label go x then label_fraud else 0)
                c
            → Returns (Built (suc k) c rest) (stream_loop go fn (suc k) rest (c, suc k)))
        → Returns
            (Built k b (some x ∷ rest))
            (let next = stream_loop go fn (suc k) rest p.0 in if p.1 then ok (p.0, true) else next)
    after k b x rest free _ (inserting {c} a) others =
        Returns-map (others c a) λ s o. Built-next k b c x rest s free a o

    stream_loop-Built :
        (k : ℕ) (b : Builder) (records : List (Option (Record go)))
        → Ready k b
        → Returns (Built k b records) (stream_loop go fn k records (b, k))
    unfolding stream_loop
    stream_loop-Built k b [] r = returns (Built-none k b r)
    stream_loop-Built k b (none ∷ rest) r = returns (Built-undecoded k b rest r)
    stream_loop-Built k b (some x ∷ rest) r = elim (Bool-cases (leb b.graph.n k)) [
      | inl full ↦ rw (full_record k b x full) (returns (Built-full k b x rest r (ground arith)))
      | inr room ↦
          let free : k < b.graph.n = ground arith in
          let small = r.linked.size_ok in
          let next : (k + 1) % 2 ^ 32 ≡ suc k = omega arith in
          Returns-bind (insert_record-Inserting k b x r free) λ p i.
            rw next (after k b x rest free p i λ c a. stream_loop-Built (suc k) c rest a.ready)
    ]

    -- Where a conversion to uint8 gives a byte (`GivesBytes`) and no drawn level is negative,
    -- `BuildIndex` on an empty builder with the invariant `Ready 0` (N below 2 ^ 31, m and m0 at most
    -- 255, tables of the right sizes) does not panic, whatever the input is. It inserts the records
    -- up to the first that is not decoded or that the builder has no room for, gives an error in
    -- exactly those cases or for a wrong opening token, and returns the number of inserted records.
    -- Node i holds the quantized vector of record i and whether its label is "fraud", and the builder
    -- keeps its invariant.
    pub build_index-Built :
        (input : Input go) (b : Builder)
        → Ready 0 b
        → Returns (Built 0 b (decoded input)) (build_index go sorter (λ i. pos (draw i)) input b)
    unfolding build_index stream_records decoded
    build_index-Built input b r = by_opening input.opening
      where
        by_opening :
            (opening : Option Bool)
            → Returns
                (Built 0 b (decoded (record { opening = opening; records = input.records })))
                (build_index go sorter
                  (λ i. pos (draw i))
                  (record { opening = opening; records = input.records })
                  b)
        by_opening none = returns (Built-undecoded 0 b [] r)
        by_opening (some false) = returns (Built-undecoded 0 b [] r)
        by_opening (some true) = stream_loop-Built 0 b input.records r
