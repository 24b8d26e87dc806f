-- ===== src/Query/Climb.antt =====
-- One round of the hill-climb: the scan of the neighbors of a node.
use fraud_detection_api.Base.{
  ℕ, ◌<◌, ◌≤◌, ◌≡◌, refl, ℤ, pos, negsuc, ltb_ℤ, List, [], ◌∷◌, All, arith, true, false, Bool-cases,
  inl, inr,
}
use fraud_detection_api.Run.{Returns, returns, Returns-map}
use fraud_detection_api.Vector.{Vector, Each}
use fraud_detection_api.Dist.Bounds.{IsByte, widen}
use fraud_detection_api.Graph.{Graph}
use fraud_detection_api.Graph.WellFormed.{VectorsOk, InRange}
use fraud_detection_api.Query.Near.{near, vector_at-vec, dist-near}
use fraud_detection_api.Query.Search.{Climb, climb_all}

-- The neighbor entry is the sentinel, or no closer than `d`.
abbrev pub NoCloser : Graph → Vector ℕ → ℕ → ℤ → Type 0
NoCloser g a d (pos nb) = d ≤ near g a nb
NoCloser g a d (negsuc _) = Unit {0}

module _ (g : Graph) (w : VectorsOk g) (k : ℕ) (bound : k ≤ g.n) (a : Vector ℕ)
    (ha : Each IsByte a) where
  -- The variables of the climb hold a node and its distance.
  pub record IsAt (c : Climb) : Type 0 where
    pub inside : c.current < k
    pub exact : c.best_dist ≡ pos (near g a c.current)

  -- What the scan of the neighbors does to the variables.
  pub record Climbed (c : Climb) (nbs : List ℤ) (c' : Climb) : Type 0 where
    pub at : IsAt c'
    pub closer : near g a c'.current ≤ near g a c.current
    pub kept : c'.improved ≡ false → (c'.current ≡ c.current) × (c.improved ≡ false)
    pub progress :
        c.improved ≡ false → c'.improved ≡ true → near g a c'.current < near g a c.current
    pub least : All (NoCloser g a (near g a c'.current)) nbs

  NoCloser-trans : (d d' : ℕ) (x : ℤ) → d' ≤ d → NoCloser g a d x → NoCloser g a d' x
  NoCloser-trans d d' (pos nb) h n = omega arith
  NoCloser-trans d d' (negsuc x) h n = tt

  ltb-near :
      (c : Climb) (nb : ℕ)
      → IsAt c
      → ltb_ℤ (pos (near g a nb)) c.best_dist ≡ true
      → near g a nb < near g a c.current
  ltb-near c nb i t = let e = i.exact in ground arith

  near-ltb :
      (c : Climb) (nb : ℕ)
      → IsAt c
      → ltb_ℤ (pos (near g a nb)) c.best_dist ≡ false
      → near g a c.current ≤ near g a nb
  near-ltb c nb i t = let e = i.exact in ground arith

  pub climb_all-Climbed :
      (c : Climb) (nbs : List ℤ)
      → IsAt c
      → All (InRange k) nbs
      → Returns (Climbed c nbs) (climb_all g (widen a) c nbs)
  unfolding climb_all
  climb_all-Climbed c [] i h = returns (record {
    at = i;
    closer = omega arith;
    kept = λ e. (refl, e);
    progress = λ e f. absurd (cc);
    least = tt;
  })
  climb_all-Climbed c (negsuc x ∷ nbs) i h = Returns-map (climb_all-Climbed c nbs i h.1) λ c' m.
      record {
        at = m.at;
        closer = m.closer;
        kept = m.kept;
        progress = m.progress;
        least = (tt, m.least);
      }
  climb_all-Climbed c (pos nb ∷ nbs) i h =
      let low = h.0 in
      let d = pos (near g a nb) in
      rw (vector_at-vec g w a ha nb (omega arith), dist-near g w a ha nb (omega arith))
        (elim (Bool-cases (ltb_ℤ d c.best_dist)) [
          | inl t ↦
              let less = ltb-near c nb i t in
              let moved : Climb = record { current = nb; best_dist = d; improved = true } in
              rw t (
                Returns-map
                  (climb_all-Climbed moved nbs (record { inside = h.0; exact = refl }) h.1)
                  λ c' m. record {
                    at = m.at;
                    closer = (let l = m.closer in omega arith);
                    kept = λ e. absurd (cc ((m.kept e).1));
                    progress = λ e f. (let l = m.closer in omega arith);
                    least = (m.closer, m.least);
                  })
          | inr t ↦
              let more = near-ltb c nb i t in
              rw t (
                Returns-map (climb_all-Climbed c nbs i h.1) λ c' m. record {
                  at = m.at;
                  closer = m.closer;
                  kept = m.kept;
                  progress = m.progress;
                  least = ((let l = m.closer in omega arith), m.least);
                })
        ])
