-- ===== src/Query/Heap/Push.antt =====
-- `pushMin` adds one item and keeps the heap order.
use mathlib.Core.Logic.{◌≢◌}
use fraud_detection_api.Base.{
  ℕ, zero, suc, ◌<◌, ◌≤ℤ◌, ◌<ℤ◌, leb_ℤ, ltb, List, [], ◌∷◌, ◌++◌, length, length-append,
  get_or-append, tally-append, exchange, length-exchange, get_or-exchange, Same-exchange, arith,
}
use fraud_detection_api.Run.{Returns, returns, Returns-if, Returns-inv}
use fraud_detection_api.Query.Heap.{DistItem, parent, push_loop, push_min}
use fraud_detection_api.Query.Heap.Order.{
  no_item, far, IsHeap, Sifted, Spans, fetch-item, swap-exchange,
}

-- Only the edge above `i` may be out of order.
record Rising (h : List DistItem) (i : ℕ) : Type 0 where
  inside : i < length h
  edges : (c : ℕ) → 0 < c → c < length h → c ≢ i → far h (parent c) ≤ℤ far h c
  spans : Spans h i

exchange-Rising :
    (h : List DistItem) (i : ℕ)
    → Rising h i
    → 0 < i
    → far h i <ℤ far h (parent i)
    → Rising (exchange h (parent i) i no_item) (parent i)
exchange-Rising h i v up below =
    let high : parent i < length h = (let l = v.inside in omega arith) in
    let size = length-exchange h (parent i) i no_item in
    let at = get_or-exchange h (parent i) i no_item high v.inside in
    record {
      inside = omega arith;
      edges =
          λ c p q r. ground (arith, at c, at (parent c), v.edges c, v.spans c, v.edges (parent i));
      spans =
          λ c p q r s. ground (arith, at c, at (parent (parent i)), v.edges c, v.edges (parent i));
    }

push_loop-Sifted :
    (k : ℕ) (h : List DistItem) (i : ℕ) → i < k → Rising h i → Returns (Sifted h) (push_loop k h i)
unfolding push_loop
push_loop-Sifted zero h i f v = absurd (omega arith)
push_loop-Sifted (suc k) h i f v =
    Returns-if (ltb 0 i)
      (λ up.
        let high : parent i < length h = (let l = v.inside in omega arith) in
        rw
          (
            fetch-item h (parent i) high,
            fetch-item h i v.inside,
            swap-exchange h (parent i) i high v.inside,
          )
          (Returns-if (leb_ℤ (far h (parent i)) (far h i))
            (λ settled. returns (λ c p q. ground (arith, v.edges c), λ p. omega arith))
            λ below.
              let (g, run, (heap, same)) = Returns-inv (
                push_loop-Sifted k (exchange h (parent i) i no_item) (parent i) (ground arith)
                  (exchange-Rising h i v (ground arith) (ground arith))) in
              rw run (
                returns (
                  heap,
                  λ p. omega (arith, same p, Same-exchange h (parent i) i no_item high v.inside p),
                ))))
      (λ root. returns (λ c p q. ground (arith, v.edges c), λ p. omega arith))

-- Pushing onto a heap returns a heap of the same items and the new one.
pub push_min-Sifted :
    (h : List DistItem) (x : DistItem) → IsHeap h → Returns (Sifted (x ∷ h)) (push_min h x)
unfolding push_min
push_min-Sifted h x o =
    let size = length-append h (x ∷ []) in
    let start : Rising (h ++ x ∷ []) (length h) = record {
      inside = omega arith;
      edges = λ c p q r. ground (
        arith,
        o c,
        get_or-append h (x ∷ []) c no_item,
        get_or-append h (x ∷ []) (parent c) no_item,
      );
      spans = λ c p q r s. absurd (omega arith);
    } in
    let (g, run, (heap, same)) =
      Returns-inv
        (push_loop-Sifted (suc (length h)) (h ++ x ∷ []) (length h) (omega arith) start) in
    rw run (returns (heap, λ p. omega (arith, same p, tally-append p h (x ∷ []))))
