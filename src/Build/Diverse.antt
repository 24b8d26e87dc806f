-- ===== src/Build/Diverse.antt =====
-- One candidate of the choice of neighbors, against the items that are kept.
-- The ids are below `k`.
use fraud_detection_api.Base.{
  ltb, ◌==◌, if◌then◌else◌, length, get_or, drop, ℤ, ◌≤ℤ◌, ◌<ℤ◌, ltb_ℤ, pos, tally, tally-le, ℕ,
  zero, suc, ◌≤◌, ◌<◌, ◌≡◌, refl, Bool, true, false, List, [], ◌∷◌, ◌++◌, arith,
}
use fraud_detection_api.Build.Select.{is_diverse}
use fraud_detection_api.Dist.Bounds.{euclid, dist_exact}
use fraud_detection_api.Exact.{exact}
use fraud_detection_api.Graph.{Graph}
use fraud_detection_api.Graph.WellFormed.{VectorsOk}
use fraud_detection_api.Query.Heap.{DistItem}
use fraud_detection_api.Query.Heap.Order.{item, far}
use fraud_detection_api.Query.Near.{vec, vec-Each}
use fraud_detection_api.Run.{Returns, Returns-if, Returns-map, returns}

abbrev pub Within : ℕ → List DistItem → Type 0
Within k cands = tally (λ c. ltb c.id k) cands ≡ length cands

-- The squared distance of two nodes.
unfoldable pub apart : Graph → ℕ → ℕ → ℕ
apart g x y = euclid (vec g x) (vec g y)

-- No item is farther from the query than from an item before it.
abbrev pub IsDiverse : Graph → List DistItem → Type 0
IsDiverse g kept =
    (i j : ℕ)
    → i < j
    → j < length kept
    → far kept j ≤ℤ pos (apart g (item kept j).id (item kept i).id)

pub get_or-append_one {ℓ} :
    {A : Type ℓ} (xs : List A) (y d : A) (j : ℕ)
    → get_or (xs ++ y ∷ []) j d ≡ (if j == length xs then y else get_or xs j d)
get_or-append_one [] y d zero = refl
get_or-append_one [] y d (suc j) = ground arith
get_or-append_one (x ∷ xs) y d zero = ground arith
get_or-append_one (x ∷ xs) y d (suc j) = ground (arith, get_or-append_one xs y d j)

pub drop-cons {ℓ} :
    {A : Type ℓ} (p : A → Bool) (n : ℕ) (xs : List A) → tally p (drop n xs) ≤ tally p xs
drop-cons p zero xs = omega arith
drop-cons p (suc n) [] = omega arith
drop-cons p (suc n) (x ∷ xs) = omega (arith, drop-cons p n xs)

-- Some kept item is closer to the candidate than the query is.
abbrev pub IsCovered : Graph → DistItem → List DistItem → Type 0
IsCovered g c kept = (j : ℕ) × (j < length kept) × (pos (apart g c.id (item kept j).id) <ℤ c.dist)

-- The test of a candidate against the kept items.
pub record Tested (g : Graph) (id : ℕ) (d : ℤ) (kept : List DistItem) (good : Bool) : Type 0 where
  pub yes_all : good ≡ true → (i : ℕ) → i < length kept → d ≤ℤ pos (apart g id (item kept i).id)
  pub no_some : good ≡ false → IsCovered g (record { id = id; dist = d }) kept

Tested-cons :
    (g : Graph) (id : ℕ) (d : ℤ) (c : DistItem) (kept : List DistItem) (good : Bool)
    → d ≤ℤ pos (apart g id c.id)
    → Tested g id d kept good
    → Tested g id d (c ∷ kept) good
Tested-cons g id d c kept good h t = record {
  yes_all = λ e. both e;
  no_some = λ e. let (j, l, e) = t.no_some e in (suc j, omega arith, e);
}
  where
    both :
        good ≡ true → (i : ℕ) → i < suc (length kept) → d ≤ℤ pos (apart g id (item (c ∷ kept) i).id)
    both e zero l = h
    both e (suc i) l = t.yes_all e i (omega arith)

module _ (k : ℕ) (g : Graph) (w : VectorsOk g) (bound : k ≤ g.n) where
  pub is_diverse-Tested :
      (id : ℕ) (d : ℤ) (kept : List DistItem)
      → id < k
      → Within k kept
      → Returns (Tested g id d kept) (is_diverse g (vec g id) d kept)
  unfolding is_diverse apart
  is_diverse-Tested id d [] h within =
      returns (record { yes_all = λ yes i l. absurd (omega arith); no_some = λ e. absurd (cc) })
  is_diverse-Tested id d (c ∷ kept) h within =
      let most = tally-le (λ x. ltb x.id k) kept in
      let low : c.id < k = ground arith in
      let (at, bytes) = vec-Each g w c.id (omega arith) in
      let (_, mine) = vec-Each g w id (omega arith) in
      let (_, exact, _) = dist_exact (vec g id) (vec g c.id) mine bytes in
      rw (at, exact)
        (Returns-if (ltb_ℤ (pos (euclid (vec g id) (vec g c.id))) d)
          (λ near.
            returns (record {
              yes_all = λ e. absurd (cc);
              no_some = λ e. (0, omega arith, ground arith);
            }))
          λ far.
            Returns-map (is_diverse-Tested id d kept h (ground arith))
              λ good t. Tested-cons g id d c kept good (ground arith) t)
