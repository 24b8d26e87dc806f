-- ===== src/Query/Near.antt =====
-- The distance of a node of a graph from a query of bytes.
use fraud_detection_api.Base.{ℕ, ◌<◌, ◌≤◌, ◌≡◌, refl, pos}
use fraud_detection_api.Run.{ok, err, panic, out_of_fuel, Returns-inv}
use fraud_detection_api.Vector.{Vector, Each}
use fraud_detection_api.Dist.{dist}
use fraud_detection_api.Dist.Bounds.{IsByte, widen, euclid, euclid-le, dist_exact}
use fraud_detection_api.Graph.{Graph, vector_at}
use fraud_detection_api.Graph.WellFormed.{VectorsOk, vector_at-Each}

abbrev origin : Vector ℕ
origin = record {
  v0 = 0;
  v1 = 0;
  v2 = 0;
  v3 = 0;
  v4 = 0;
  v5 = 0;
  v6 = 0;
  v7 = 0;
  v8 = 0;
  v9 = 0;
  v10 = 0;
  v11 = 0;
  v12 = 0;
  v13 = 0;
}

-- The stored vector of a node.
unfoldable pub vec : Graph → ℕ → Vector ℕ
vec g id = elim (vector_at g id) [ ok v ↦ v | err ↦ origin | panic ↦ origin | out_of_fuel ↦ origin ]

-- The squared Euclidean distance of a node from the query `a`.
unfoldable pub near : Graph → Vector ℕ → ℕ → ℕ
near g a id = euclid a (vec g id)

module _ (g : Graph) (w : VectorsOk g) (id : ℕ) (h : id < g.n) where
  pub vec-Each : (vector_at g id ≡ ok (vec g id)) × Each IsByte (vec g id)
  unfolding vec
  vec-Each = let (v, e, b) = Returns-inv (vector_at-Each g w id h) in rw (e, vec) (refl, b)

module _ (g : Graph) (w : VectorsOk g) (a : Vector ℕ) (ha : Each IsByte a) (id : ℕ)
    (h : id < g.n) where
  pub vector_at-vec : vector_at g id ≡ ok (vec g id)
  vector_at-vec = (vec-Each g w id h).0

  pub dist-near : dist (widen a) (vec g id) ≡ pos (near g a id)
  unfolding near
  dist-near = (dist_exact a (vec g id) ha ((vec-Each g w id h).1)).0

  pub near-le : near g a id ≤ 910350
  unfolding near
  near-le = euclid-le a (vec g id) ha ((vec-Each g w id h).1)
