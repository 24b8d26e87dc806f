-- ===== src/Query/Heap/Pop.antt =====
-- `popMin` removes the root and keeps the heap order.
use mathlib.Core.Logic.{◌≢◌}
use fraud_detection_api.Base.{
  ◌⊎◌, ℕ, zero, suc, ◌+◌, ◌-◌, ◌*◌, ◌<◌, ◌≤◌, ◌≡◌, refl, ◌≤ℤ◌, ◌<ℤ◌, leb_ℤ, ltb_ℤ, ltb, leb,
  Bool-cases, inl, inr, if◌then◌else◌, true, false, List, [], ◌∷◌, take, length, length-take,
  get_or-set, get_or-take, tally-take, exchange, length-exchange, get_or-exchange, Same-exchange,
  arith,
}
use fraud_detection_api.Run.{
  ok, Returns, returns, Returns-map, Returns-bind, Returns-if, Returns-inv,
}
use fraud_detection_api.Query.Heap.{DistItem, parent, smaller_child, pop_loop, pop_min}
use fraud_detection_api.Query.Heap.Order.{
  no_item, item, far, IsHeap, Sifted, Spans, fetch-item, swap-exchange,
}

-- Only the edges below `i` may be out of order.
record Sinking (h : List DistItem) (i : ℕ) : Type 0 where
  edges : (c : ℕ) → 0 < c → c < length h → parent c ≢ i → far h (parent c) ≤ℤ far h c
  spans : Spans h i

-- `m` is the child of `i` that is not farther than the other.
record IsSmaller (h : List DistItem) (i m : ℕ) : Type 0 where
  inside : m < length h
  child : (m ≡ 2 * i + 1) ⊎ (m ≡ 2 * i + 2)
  least : (c : ℕ) → 0 < c → c < length h → parent c ≡ i → far h m ≤ℤ far h c

smaller_child-IsSmaller :
    (h : List DistItem) (n i : ℕ)
    → length h ≡ n
    → 2 * i + 1 < length h
    → Returns (IsSmaller h i) (smaller_child h n i)
unfolding smaller_child
smaller_child-IsSmaller h n i e l =
    Returns-if (ltb (2 * i + 1 + 1) n)
      (λ both.
        rw (fetch-item h (2 * i + 1 + 1) (ground arith), fetch-item h (2 * i + 1) l) (pick both))
      (λ one.
        returns (record { inside = l; child = omega arith; least = λ c p q r. only c p q r one }))
  where
    only :
        (c : ℕ)
        → 0 < c
        → c < length h
        → parent c ≡ i
        → ltb (2 * i + 1 + 1) n ≡ false
        → far h (2 * i + 1) ≤ℤ far h c
    only c p q r one = let c_eq : c ≡ 2 * i + 1 = ground arith in rw c_eq (omega arith)

    either : (c : ℕ) → 0 < c → parent c ≡ i → (c ≡ 2 * i + 1) ⊎ (c ≡ 2 * i + 1 + 1)
    either c p r = omega arith

    pick :
        ltb (2 * i + 1 + 1) n ≡ true
        → Returns (IsSmaller h i) (
            ok (
              if ltb_ℤ (far h (2 * i + 1 + 1)) (far h (2 * i + 1))
              then 2 * i + 1 + 1
              else 2 * i + 1))
    pick both = elim (Bool-cases (ltb_ℤ (far h (2 * i + 1 + 1)) (far h (2 * i + 1)))) [
      | inl right ↦ rw right (
          returns (record {
            inside = ground arith;
            child = omega arith;
            least = λ c p q r. elim (either c p r) [
              | inl a ↦ rw a (ground arith)
              | inr b ↦ rw b (omega arith)
            ];
          }))
      | inr left ↦ rw left (
          returns (record {
            inside = l;
            child = omega arith;
            least = λ c p q r. elim (either c p r) [
              | inl a ↦ rw a (omega arith)
              | inr b ↦ rw b (ground arith)
            ];
          }))
    ]

exchange-Sinking :
    (h : List DistItem) (i m : ℕ)
    → Sinking h i
    → IsSmaller h i m
    → far h m <ℤ far h i
    → Sinking (exchange h i m no_item) m
exchange-Sinking h i m v s below =
    let hm = s.inside in
    let side = s.child in
    let hi : i < length h = omega arith in
    let size = length-exchange h i m no_item in
    let at = get_or-exchange h i m no_item hi hm in
    record {
      edges = λ c p q r. ground (arith, at c, at (parent c), v.edges c, v.spans m, s.least c);
      spans = λ c p q r t. ground (arith, at c, at (parent m), v.edges c);
    }

pop_loop-Sifted :
    (k : ℕ) (h : List DistItem) (n i : ℕ)
    → length h ≡ n
    → i ≤ n
    → n < i + k
    → Sinking h i
    → Returns (Sifted h) (pop_loop k h n i)
unfolding pop_loop
pop_loop-Sifted zero h n i e b f v = absurd (omega arith)
pop_loop-Sifted (suc k) h n i e b f v =
    Returns-if (leb n (2 * i + 1)) (λ leaf. returns (λ c p q. ground (arith, v.edges c), λ p. refl))
      λ inner. Returns-bind (smaller_child-IsSmaller h n i e (ground arith)) λ m s.
        let hi : i < length h = ground arith in
        rw (fetch-item h i hi, fetch-item h m s.inside, swap-exchange h i m hi s.inside)
          (Returns-if (leb_ℤ (far h i) (far h m))
            (λ settled. returns (λ c p q. ground (arith, v.edges c, s.least c), λ p. refl))
            λ below.
              let side = s.child in
              let (g, run, (heap, same)) = Returns-inv (
                pop_loop-Sifted k (exchange h i m no_item) n m
                  (omega (arith, length-exchange h i m no_item)) (omega (arith, s.inside))
                  (omega arith) (exchange-Sinking h i m v s (ground arith))) in
              rw run (
                returns
                  (heap, λ p. omega (arith, same p, Same-exchange h i m no_item hi s.inside p))))

-- Popping a heap returns a heap of the items behind the root.
pub pop_min-Sifted :
    (x : DistItem) (h : List DistItem) → IsHeap (x ∷ h) → Returns (Sifted h) (pop_min (x ∷ h))
unfolding pop_min
pop_min-Sifted x [] o = returns (λ c p q. absurd (omega arith), λ p. refl)
pop_min-Sifted x (y ∷ r) o =
    Returns-if (leb (length (x ∷ y ∷ r)) 1) (λ one. absurd (ground arith))
      λ more.
        let size : suc (suc (length r)) - 1 ≡ suc (length r) = omega arith in
        let last = item (y ∷ r) (length r) in
        let g = take (suc (length r)) (last ∷ y ∷ r) in
        let short = length-take (suc (length r)) (last ∷ y ∷ r) in
        let start : Sinking g 0 = record {
          edges = λ c p q s. ground (
            arith,
            o c,
            get_or-take (suc (length r)) (last ∷ y ∷ r) c no_item,
            get_or-take (suc (length r)) (last ∷ y ∷ r) (parent c) no_item,
            get_or-set (x ∷ y ∷ r) 0 c last no_item,
            get_or-set (x ∷ y ∷ r) 0 (parent c) last no_item,
          );
          spans = λ c p q s t. absurd (omega arith);
        } in
        rw (size, fetch-item (x ∷ y ∷ r) (suc (length r)) (omega arith))
          (Returns-map
            (pop_loop-Sifted (suc (suc (length r))) g (suc (length r)) 0 (omega arith) (omega arith)
              (omega arith) start)
            λ f (heap, same). (
              heap,
              λ p. omega (arith, same p, tally-take p (suc (length r)) (last ∷ y ∷ r) no_item refl),
            ))
