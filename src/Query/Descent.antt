-- ===== src/Query/Descent.antt =====
-- The hill-climb of the upper layers: it ends, at a node with no closer neighbor.
use fraud_detection_api.Base.{
  ℕ, zero, suc, ◌<◌, ◌≤◌, ◌≡◌, refl, sym, ◌∙◌, ap, subst, ℤ, pos, List, All, arith, false,
}
use fraud_detection_api.Run.{
  ok, Returns, returns, Returns-bind, Returns-map, Returns-if, Returns-bind_eq, ok-injective,
}
use fraud_detection_api.Vector.{Vector, Each}
use fraud_detection_api.Dist.Bounds.{IsByte, widen}
use fraud_detection_api.Graph.{Graph, upper_neighbors}
use fraud_detection_api.Graph.WellFormed.{WellFormed, WellFormed-VectorsOk, top}
use fraud_detection_api.Graph.Upper.{upper_neighbors-All}
use fraud_detection_api.Query.Near.{near, vector_at-vec, dist-near}
use fraud_detection_api.Query.Climb.{NoCloser, climb_all-Climbed}
use fraud_detection_api.Query.Search.{Climb, climb_loop, greedy_descend_upper, descend}

module _ (g : Graph) (w : WellFormed g) (a : Vector ℕ) (ha : Each IsByte a) where
  -- A node with no closer neighbor on the layer, that is no farther than `entry`.
  pub record IsLocal (layer entry r : ℕ) : Type 0 where
    pub inside : r < g.n
    pub closer : near g a r ≤ near g a entry
    pub least :
        (nbs : List ℤ) → upper_neighbors g r layer ≡ ok nbs → All (NoCloser g a (near g a r)) nbs

  -- Each round but the last moves closer, so the distance bounds the rounds.
  climb_loop-IsLocal :
      (k l current : ℕ) (best_dist : ℤ)
      → l < top g
      → current < g.n
      → best_dist ≡ pos (near g a current)
      → near g a current < k
      → Returns (IsLocal (suc l) current) (climb_loop k g (widen a) (suc l) current best_dist)
  unfolding climb_loop
  climb_loop-IsLocal zero l current best_dist hl h e f = absurd (omega arith)
  climb_loop-IsLocal (suc k) l current best_dist hl h e f =
      let c0 : Climb = record { current = current; best_dist = best_dist; improved = false } in
      Returns-bind_eq (upper_neighbors-All g w.upper_ok current l hl) λ nbs ranges read.
        Returns-bind
          (climb_all-Climbed g (WellFormed-VectorsOk g w) g.n (omega arith) a ha c0 nbs
            (record { inside = h; exact = e }) ranges)
          λ c m.
            Returns-if c.improved
              (λ on.
                Returns-map
                  (climb_loop-IsLocal k l c.current c.best_dist hl m.at.inside m.at.exact
                    (omega (arith, m.progress refl on)))
                  λ r o. record {
                    inside = o.inside;
                    closer = (let p = o.closer in omega (arith, m.progress refl on));
                    least = o.least;
                  })
              λ stay.
                let same = (m.kept stay).0 in
                returns (record {
                  inside = m.at.inside;
                  closer = m.closer;
                  least = λ others again.
                      subst (All (NoCloser g a (near g a c.current)))
                        (ok-injective
                          (sym read ∙ ap (λ r. upper_neighbors g r (suc l)) (sym same) ∙ again))
                        m.least;
                })

  -- The greedy descent on an upper layer ends, without a panic, at a node of the graph that is no
  -- farther from the query than its start and that has no closer neighbor on that layer.
  pub greedy_descend_upper-IsLocal :
      (l entry : ℕ)
      → l < top g
      → entry < g.n
      → Returns (IsLocal (suc l) entry) (greedy_descend_upper g (widen a) entry (suc l))
  unfolding greedy_descend_upper
  greedy_descend_upper-IsLocal l entry hl h =
      rw
        (
          vector_at-vec g (WellFormed-VectorsOk g w) a ha entry h,
          dist-near g (WellFormed-VectorsOk g w) a ha entry h,
        )
        (climb_loop-IsLocal (suc (near g a entry)) l entry (pos (near g a entry)) hl h refl
          (omega arith))

  -- The descent through the layers from `layers` down to 1.
  pub descend-closer :
      (layers entry : ℕ)
      → layers ≤ top g
      → entry < g.n
      → Returns (λ r. (r < g.n) × (near g a r ≤ near g a entry)) (descend layers g (widen a) entry)
  unfolding descend
  descend-closer zero entry hl h = returns (h, omega arith)
  descend-closer (suc l) entry hl h =
      Returns-bind (greedy_descend_upper-IsLocal l entry hl h) λ r o.
        Returns-map (descend-closer l r (omega arith) o.inside)
          λ s (inside, closer). (inside, (let p = o.closer in omega arith))
