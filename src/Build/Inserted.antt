-- ===== src/Build/Inserted.antt =====
-- The layers of an insertion keep the invariant of the builder.
use fraud_detection_api.Base.{
  ltb, Bool-cases, length, ltb_ℤ, pos, tally, tally-le, ℕ, zero, suc, ◌+◌, ◌<◌, ◌≡◌, refl, inl, inr,
  List, [], ◌∷◌, arith,
}
use fraud_detection_api.Build.{Builder}
use fraud_detection_api.Build.Bidirectional.{connect_bidirectional-Step}
use fraud_detection_api.Build.Diverse.{Within}
use fraud_detection_api.Build.Found.{search_layer-Searched}
use fraud_detection_api.Build.Greedy.{greedy_descend-IsPeak}
use fraud_detection_api.Build.Held.{is_found}
use fraud_detection_api.Build.Insert.{
  descend_above, best_of, next_entry, capacity, insert_at, insert_down,
}
use fraud_detection_api.Build.Linked.{Linked, Kept-refl, Kept-trans, Step}
use fraud_detection_api.Build.Select.{Sorter}
use fraud_detection_api.Build.Selected.{select-Selected}
use fraud_detection_api.Dist.Bounds.{IsByte, widen}
use fraud_detection_api.Graph.{Graph}
use fraud_detection_api.Query.Heap.{DistItem}
use fraud_detection_api.Run.{Returns, Returns-bind, Returns-map, returns}
use fraud_detection_api.Vector.{Vector, Each}

Within-found :
    (g : Graph) (a : Vector ℕ) (k : ℕ) (cands : List DistItem)
    → tally (is_found g a k) cands ≡ length cands
    → Within k cands
Within-found g a k [] s = refl
Within-found g a k (c ∷ cands) s =
    let most = tally-le (is_found g a k) cands in
    let rest : tally (is_found g a k) cands ≡ length cands = ground arith in
    ground (arith, Within-found g a k cands rest)

best_of-lt :
    (k : ℕ) (best : DistItem) (cands : List DistItem)
    → best.id < k
    → Within k cands
    → (best_of best cands).id < k
unfolding best_of
best_of-lt k best [] h w = h
best_of-lt k best (c ∷ cands) h w =
    let most = tally-le (λ x. ltb x.id k) cands in
    elim (Bool-cases (ltb_ℤ c.dist best.dist)) [
      | inl closer ↦ rw (closer, best_of) (best_of-lt k c cands (ground arith) (ground arith))
      | inr farther ↦ rw (farther, best_of) (best_of-lt k best cands h (ground arith))
    ]

next_entry-lt :
    (k entry : ℕ) (cands : List DistItem) → entry < k → Within k cands → next_entry entry cands < k
unfolding next_entry
next_entry-lt k entry [] h w = h
next_entry-lt k entry (c ∷ cands) h w =
    let most = tally-le (λ x. ltb x.id k) cands in
    best_of-lt k c cands (ground arith) (ground arith)

module _ (sorter : Sorter) (k : ℕ) (a : Vector ℕ) (ha : Each IsByte a) where
  pub descend_above-lt :
      (r : ℕ) (b : Builder) (level entry : ℕ)
      → Linked k b
      → entry < k
      → Returns (λ x. x < k) (descend_above r b (widen a) (pos level) entry)
  unfolding descend_above
  descend_above-lt zero b level entry o h = returns h
  descend_above-lt (suc r) b level entry o h =
      Returns-bind (greedy_descend-IsPeak k b o a ha (level + suc r) entry h)
        λ next p. descend_above-lt r b level next o p.inside

  insert_at-Step :
      (b : Builder) (id entry l : ℕ)
      → Linked k b
      → id < k
      → entry < k
      → Returns (λ r. Step k b r.0 × (r.1 < k)) (insert_at sorter b (widen a) id entry l)
  unfolding insert_at
  insert_at-Step b id entry l o h e =
      Returns-bind (search_layer-Searched k b a entry b.ef_c l o ha e) λ (b1, cands) s.
        let (p, kept) = s.step in
        let within = Within-found b.graph a k cands s.sound in
        Returns-bind
          (select-Selected sorter k b1.graph p.vectors_ok p.bound cands (capacity b1.graph l)
            within)
          λ (selected, after) c.
            Returns-bind (connect_bidirectional-Step sorter k b1 id l selected p h c.within)
              λ b2 (q, kept').
                returns
                  ((q, Kept-trans b b1 b2 kept kept'), next_entry-lt k entry after e c.after_within)

  pub insert_down-Step :
      (l : ℕ) (b : Builder) (id entry : ℕ)
      → Linked k b
      → id < k
      → entry < k
      → Returns (Step k b) (insert_down l sorter b (widen a) id entry)
  unfolding insert_down
  insert_down-Step zero b id entry o h e = returns (o, Kept-refl b)
  insert_down-Step (suc l) b id entry o h e =
      Returns-bind (insert_at-Step b id entry l o h e) λ (b1, next) ((p, kept), low).
        Returns-map (insert_down-Step l b1 id next p h low)
          λ b2 (q, kept'). (q, Kept-trans b b1 b2 kept kept')
