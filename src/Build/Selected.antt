-- ===== src/Build/Selected.antt =====
-- Algorithm 4 of the HNSW paper: what `selectNeighborsHeuristic` guarantees.
use mathlib.Core.Path.{ap₂}
use fraud_detection_api.Base.{
  ltb, leb, ◌==◌, length, drop, ◌≤ℤ◌, eqb_ℤ, tally, Same, tally_find, Same-length, ℕ, zero, suc,
  ◌+◌, ◌≤◌, ◌<◌, ◌≡◌, refl, sym, subst, ◌⊎◌, inl, Bool, true, not, ◌&&◌, List, [], ◌∷◌, ◌++◌, arith,
}
use fraud_detection_api.Build.Chosen.{Grown, Within-append, keep_loop-Grown}
use fraud_detection_api.Build.Diverse.{Within, IsDiverse, drop-cons, IsCovered}
use fraud_detection_api.Build.Select.{Sorter, select_neighbors_heuristic}
use fraud_detection_api.Graph.{Graph}
use fraud_detection_api.Graph.Lookup.{eq_of_eqb_ℤ}
use fraud_detection_api.Graph.WellFormed.{VectorsOk}
use fraud_detection_api.Query.Heap.{DistItem}
use fraud_detection_api.Query.Heap.Order.{no_item, item, far}
use fraud_detection_api.Run.{Returns, Returns-bind, Returns-if, returns}

-- No item is nearer than the one before it.
abbrev pub Ascends : List DistItem → Type 0
Ascends h = (i : ℕ) → suc i < length h → far h i ≤ℤ far h (suc i)

-- The first of ascending items is a nearest.
pub first_nearest : (h : List DistItem) (i : ℕ) → Ascends h → i < length h → far h 0 ≤ℤ far h i
first_nearest h zero s l = omega arith
first_nearest h (suc i) s l = omega (arith, s i l, first_nearest h i s (omega arith))

-- What is chosen from the candidates, and the array behind the choice.
pub record Selected (k : ℕ) (g : Graph) (m : ℕ) (cands : List DistItem)
    (r : List DistItem × List DistItem) : Type 0 where
  pub few : length r.0 ≤ m
  pub within : Within k r.0
  pub after_within : Within k r.1
  pub from : (p : DistItem → Bool) → tally p r.0 ≤ tally p cands
  pub nearest : 0 < m → (i : ℕ) → i < length cands → (0 < length r.0) × (far r.0 0 ≤ℤ far cands i)
  pub complete :
      length r.0 < m
      → (i : ℕ) → i < length cands
      → ((j : ℕ) × (j < length r.0) × (item r.0 j ≡ item cands i)) ⊎ IsCovered g (item cands i) r.0
  pub choice : (length cands ≤ m → Same r.0 cands) × (m < length cands → IsDiverse g r.0)

abbrev same_item : DistItem → DistItem → Bool
same_item x c = (c.id == x.id) && eqb_ℤ c.dist x.dist

same_item-eq : (x c : DistItem) → same_item x c ≡ true → c ≡ x
same_item-eq x c e =
    let ids : c.id ≡ x.id = ground arith in
    let dists : c.dist ≡ x.dist = eq_of_eqb_ℤ c.dist x.dist (ground arith) in
    ap₂ (λ i d. record { id = i; dist = d }) ids dists

tally-same_item :
    (xs : List DistItem) (i : ℕ) → i < length xs → 0 < tally (same_item (item xs i)) xs
tally-same_item [] i l = absurd (omega arith)
tally-same_item (y ∷ ys) zero l = ground arith
tally-same_item (y ∷ ys) (suc i) l = ground (arith, tally-same_item ys i)

-- An item of a list stands in every list of the same items.
Same-item :
    (xs ys : List DistItem) (i : ℕ)
    → Same ys xs
    → i < length xs
    → (j : ℕ) × (j < length ys) × (item ys j ≡ item xs i)
Same-item xs ys i s l =
    let p = same_item (item xs i) in
    let some_one : 0 < tally p ys = omega (arith, s p, tally-same_item xs i l) in
    let (j, inside, e) = tally_find p ys no_item some_one in
    (j, inside, same_item-eq (item xs i) (item ys j) e)

tally_complement :
    (p : DistItem → Bool) (xs : List DistItem) → tally p xs + tally (λ c. not (p c)) xs ≡ length xs
tally_complement p [] = refl
tally_complement p (x ∷ xs) = ground (arith, tally_complement p xs)

-- A part of items below `k` is below `k`.
Within-part :
    (k : ℕ) (r xs : List DistItem)
    → ((p : DistItem → Bool) → tally p r ≤ tally p xs)
    → Within k xs
    → Within k r
Within-part k r xs from w =
    let p = λ (c : DistItem). ltb c.id k in
    omega (arith, tally_complement p r, tally_complement p xs, from (λ c. not (p c)))

module _ (sorter : Sorter) (k : ℕ) (g : Graph) (w : VectorsOk g) (bound : k ≤ g.n)
    (cands : List DistItem) (m : ℕ) (within : Within k cands) where
  abbrev sorted : List DistItem
  sorted = sorter.sort_slice cands

  sorted-size : length sorted ≡ length cands
  sorted-size = Same-length sorted cands (sorter.sort_slice-Same cands)

  sorted-Within : Within k sorted
  sorted-Within = omega (arith, sorter.sort_slice-Same cands (λ c. ltb c.id k), sorted-size)

  found :
      (i : ℕ) → i < length cands → (j : ℕ) × (j < length sorted) × (item sorted j ≡ item cands i)
  found i l = Same-item cands sorted i (sorter.sort_slice-Same cands) l

  -- The first sorted item is no farther than any candidate.
  sorted-first : (i : ℕ) → i < length cands → far sorted 0 ≤ℤ far cands i
  sorted-first i l =
      let (j, inside, e) = found i l in
      let first =
        first_nearest sorted j
          (λ x h. sorter.sort_slice-ascends cands x (let s = sorted-size in omega arith)) inside in
      subst (λ c. far sorted 0 ≤ℤ c.dist) e first

  Selected-Grown :
      (kept : List DistItem)
      → Grown g m [] sorted kept
      → m < length cands
      → Selected k g m cands (kept, kept ++ drop (length kept) sorted)
  Selected-Grown kept o many =
      let size = sorted-size in
      let rest = drop (length kept) sorted in
      let kept_within = Within-part k kept sorted (λ p. omega (arith, o.from p)) sorted-Within in
      record {
        few = o.few;
        within = kept_within;
        after_within =
            Within-append k g w bound kept rest kept_within
              (Within-part k rest sorted (λ p. drop-cons p (length kept) sorted) sorted-Within);
        from = λ p. omega (arith, o.from p, sorter.sort_slice-Same cands p);
        nearest = λ some_room i l.
            (let (inside, e) = o.first refl some_room (omega arith) in
              (inside, subst (λ c. c.dist ≤ℤ far cands i) (sym e) (sorted-first i l)));
        complete = λ few i l.
            (let (j, inside, e) = found i l in
              subst (λ c. ((x : ℕ) × (x < length kept) × (item kept x ≡ c)) ⊎ IsCovered g c kept) e
                (o.complete few j inside));
        choice = (λ fits. absurd (omega arith), λ more. o.diverse);
      }

  -- For candidates below `k` the choice of neighbors does not panic. It gives at most `m` of the
  -- candidates, the nearest of them first if `m` is not 0; all of them if they are at most `m`, and
  -- otherwise each is no farther from the query than from each item chosen before it. If fewer than
  -- `m` are chosen, every other candidate is closer to a chosen item than to the query.
  pub select-Selected : Returns (Selected k g m cands) (select_neighbors_heuristic sorter g cands m)
  unfolding select_neighbors_heuristic
  select-Selected =
      let size = sorted-size in
      Returns-if (leb (length sorted) m)
        (λ all. returns (record {
          few = ground arith;
          within = sorted-Within;
          after_within = sorted-Within;
          from = λ p. omega (arith, sorter.sort_slice-Same cands p);
          nearest = λ some_room i l. (omega arith, sorted-first i l);
          complete = λ few i l. inl (found i l);
          choice = (λ fits. sorter.sort_slice-Same cands, λ many. absurd (ground arith));
        }))
        λ many.
          Returns-bind
            (keep_loop-Grown k g w bound m [] sorted (omega arith) (λ i j l h. absurd (omega arith))
              refl sorted-Within)
            λ kept o. returns (Selected-Grown kept o (ground arith))
