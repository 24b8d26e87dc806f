-- ===== src/Build/Held.antt =====
-- The results of a search of the builder: a max-heap that keeps the nearest of what it is given.
use fraud_detection_api.Base.{
  ltb, ◌==◌, if◌then◌else◌, length, get_or, ℤ, leb_ℤ, eqb_ℤ, pos, weight, tally, tally-le,
  Same-length, ℕ, suc, ◌-◌, ◌≤◌, ◌<◌, ◌≡◌, Bool, true, ◌&&◌, List, [], ◌∷◌, arith,
}
use fraud_detection_api.Build.Queue.{
  push_max, pop_max, IsMaxHeap, push_max-Same, pop_max-Same, root_farther,
}
use fraud_detection_api.Graph.{Graph}
use fraud_detection_api.Query.Heap.{DistItem}
use fraud_detection_api.Query.Near.{near}
use fraud_detection_api.Run.{Returns, Returns-if, Returns-map, ok, returns}
use fraud_detection_api.Vector.{Vector}

-- The item is a node below `k` with its distance.
abbrev pub is_found : Graph → Vector ℕ → ℕ → DistItem → Bool
is_found g a k c = ltb c.id k && eqb_ℤ c.dist (pos (near g a c.id))

module _ (g : Graph) (a : Vector ℕ) (k : ℕ) (gen : ℕ) (d0 : ℤ) where
  -- Different visited nodes with their distances, the farthest at the root; one of them is no
  -- farther than `d0`.
  pub record Held (seen : List ℕ) (h : List DistItem) : Type 0 where
    pub heap : IsMaxHeap h
    pub sound : tally (is_found g a k) h ≡ length h
    pub close : 0 < tally (λ c. leb_ℤ c.dist d0) h
    pub once : (v : ℕ) → tally (λ c. c.id == v) h ≤ weight (get_or seen v 0 == gen)

  pub push_max-Held :
      (seen : List ℕ) (h : List DistItem) (n : ℕ)
      → n < k
      → tally (λ c. c.id == n) h ≡ 0
      → get_or seen n 0 ≡ gen
      → Held seen h
      → Returns
          (λ r. Held seen r × (length r ≡ suc (length h)))
          (push_max h (record { id = n; dist = pos (near g a n) }))
  push_max-Held seen h n l new visited o =
      let x : DistItem = record { id = n; dist = pos (near g a n) } in
      let sound = o.sound in
      let fine : is_found g a k x ≡ true = ground arith in
      Returns-map (push_max-Same h x o.heap) λ r (heap, same).
        let size = Same-length r (x ∷ h) same in
        (
          record {
            heap = heap;
            sound = ground (arith, same (is_found g a k));
            close = (let c = o.close in ground (arith, same (λ c. leb_ℤ c.dist d0)));
            once = λ v. ground (arith, same (λ c. c.id == v), o.once v);
          },
          size,
        )

  -- The root of at least two items is not the only near one.
  pop_max-Held :
      (seen : List ℕ) (x y : DistItem) (h : List DistItem)
      → Held seen (x ∷ y ∷ h)
      → Returns (λ r. Held seen r × (length r ≡ suc (length h))) (pop_max (x ∷ y ∷ h))
  pop_max-Held seen x y h o = Returns-map (pop_max-Same x (y ∷ h) o.heap) λ r (heap, same).
      let size = Same-length r (y ∷ h) same in
      (
        record {
          heap = heap;
          sound =
              (let s = o.sound in
                ground (arith, same (is_found g a k), tally-le (is_found g a k) (y ∷ h)));
          close =
              (let c = o.close in
                ground (arith, same (λ c. leb_ℤ c.dist d0), root_farther x y h o.heap));
          once = λ v. ground (arith, same (λ c. c.id == v), o.once v);
        },
        size,
      )

  -- A push, and a pop if there are more than `ef`.
  pub trim-Held :
      (ef : ℕ) (seen : List ℕ) (h : List DistItem)
      → Held seen h
      → 1 < length h
      → length h ≤ suc (suc (ef - 1))
      → Returns
          (λ r. Held seen r × (0 < length r) × (length r ≤ suc (ef - 1)))
          (if ltb ef (length h) then pop_max h else ok h)
  trim-Held ef seen [] o many few = absurd (omega arith)
  trim-Held ef seen (x ∷ []) o many few = absurd (omega arith)
  trim-Held ef seen (x ∷ y ∷ h) o many few =
      Returns-if (ltb ef (suc (suc (length h))))
        (λ full.
          Returns-map (pop_max-Held seen x y h o)
            λ r (held, size). (held, omega arith, omega arith))
        λ fits.
          returns
            (o, omega arith, (let l : suc (suc (length h)) ≤ ef = ground arith in omega arith))
