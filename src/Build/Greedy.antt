-- ===== src/Build/Greedy.antt =====
-- The hill-climb of the builder: it ends, at a node with no closer neighbor.
use fraud_detection_api.Base.{
  All, ℤ, pos, ℕ, zero, suc, ◌≤◌, ◌<◌, ◌≡◌, refl, sym, ap, ◌∙◌, subst, false, List, arith,
}
use fraud_detection_api.Build.{Builder, neighbors_at}
use fraud_detection_api.Build.Linked.{Linked, neighbors_at-All}
use fraud_detection_api.Build.Search.{greedy_loop, greedy_descend}
use fraud_detection_api.Dist.Bounds.{IsByte, widen}
use fraud_detection_api.Query.Climb.{NoCloser, climb_all-Climbed}
use fraud_detection_api.Query.Near.{near, vector_at-vec, dist-near}
use fraud_detection_api.Query.Search.{Climb}
use fraud_detection_api.Run.{
  ok-injective, Returns, Returns-bind_eq, Returns-bind, Returns-if, Returns-map, ok, returns,
}
use fraud_detection_api.Vector.{Vector, Each}

module _ (k : ℕ) (b : Builder) (o : Linked k b) (a : Vector ℕ) (ha : Each IsByte a) where
  -- A node below `k` with no closer neighbor on the layer, that is no farther than `entry`.
  pub record IsPeak (l entry r : ℕ) : Type 0 where
    pub inside : r < k
    pub closer : near b.graph a r ≤ near b.graph a entry
    pub least :
        (nbs : List ℤ)
        → neighbors_at b r (pos l) ≡ ok nbs
        → All (NoCloser b.graph a (near b.graph a r)) nbs

  -- Each round but the last moves closer, so the distance bounds the rounds.
  greedy_loop-IsPeak :
      (r l current : ℕ) (best_dist : ℤ)
      → current < k
      → best_dist ≡ pos (near b.graph a current)
      → near b.graph a current < r
      → Returns (IsPeak l current) (greedy_loop r b (widen a) (pos l) current best_dist)
  unfolding greedy_loop
  greedy_loop-IsPeak zero l current best_dist h e f = absurd (omega arith)
  greedy_loop-IsPeak (suc r) l current best_dist h e f =
      let c0 : Climb = record { current = current; best_dist = best_dist; improved = false } in
      Returns-bind_eq (neighbors_at-All k b o current l h) λ nbs ranges read.
        Returns-bind
          (climb_all-Climbed b.graph o.vectors_ok k o.bound a ha c0 nbs
            (record { inside = h; exact = e }) ranges)
          λ c m.
            Returns-if c.improved
              (λ on.
                Returns-map
                  (greedy_loop-IsPeak r l c.current c.best_dist m.at.inside m.at.exact
                    (omega (arith, m.progress refl on)))
                  λ x p. record {
                    inside = p.inside;
                    closer = (let q = p.closer in omega (arith, m.progress refl on));
                    least = p.least;
                  })
              λ stay.
                let same = (m.kept stay).0 in
                returns (record {
                  inside = m.at.inside;
                  closer = m.closer;
                  least = λ others again.
                      subst (All (NoCloser b.graph a (near b.graph a c.current)))
                        (ok-injective
                          (sym read ∙ ap (λ x. neighbors_at b x (pos l)) (sym same) ∙ again))
                        m.least;
                })

  -- The greedy descent of an insertion, on any layer, ends without a panic at an inserted node that
  -- is no farther from the new vector than its start and that has no closer neighbor there.
  pub greedy_descend-IsPeak :
      (l entry : ℕ)
      → entry < k
      → Returns (IsPeak l entry) (greedy_descend b (widen a) entry (pos l))
  unfolding greedy_descend
  greedy_descend-IsPeak l entry h =
      let bound = o.bound in
      rw
        (
          vector_at-vec b.graph o.vectors_ok a ha entry (omega arith),
          dist-near b.graph o.vectors_ok a ha entry (omega arith),
        )
        (greedy_loop-IsPeak (suc (near b.graph a entry)) l entry (pos (near b.graph a entry)) h refl
          (omega arith))
