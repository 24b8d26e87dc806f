-- ===== src/Build/Queue.antt =====
-- internal/hnsw/hnsw.go: the heaps of the builder, on Go's container/heap. Its sifts make the
-- comparisons and swaps of `pushMin` and `popMin`; the max-heap is the min-heap of the negated
-- distances. A pop returns the root, which the caller reads beforehand.
use mathlib.Core.Path.{ap₂}
use fraud_detection_api.Base.{
  ℤ, ◌≤ℤ◌, neg_ℤ, pos, negsuc, tally, Same, zero, suc, ◌≡◌, refl, sym, ap, ◌∙◌, subst, Bool, List,
  [], ◌∷◌, map, arith,
}
use fraud_detection_api.Query.Heap.{DistItem, push_min, pop_min}
use fraud_detection_api.Query.Heap.Order.{IsHeap, root_le}
use fraud_detection_api.Query.Heap.Pop.{pop_min-Sifted}
use fraud_detection_api.Query.Heap.Push.{push_min-Sifted}
use fraud_detection_api.Run.{◌>>=◌, Run, Returns, Returns-bind, ok, returns}

abbrev pub flip : DistItem → DistItem
flip c = record { id = c.id; dist = neg_ℤ c.dist }

unfoldable pub push_max : List DistItem → DistItem → Run (List DistItem)
push_max h x = do r ← push_min (map flip h) (flip x); ok (map flip r)

unfoldable pub pop_max : List DistItem → Run (List DistItem)
pop_max h = do r ← pop_min (map flip h); ok (map flip r)

neg_neg : (z : ℤ) → neg_ℤ (neg_ℤ z) ≡ z
neg_neg (pos zero) = refl
neg_neg (pos (suc n)) = refl
neg_neg (negsuc n) = refl

flip-flip : (c : DistItem) → flip (flip c) ≡ c
flip-flip c = ap (λ d. record { id = c.id; dist = d }) (neg_neg c.dist)

map-flip-flip : (h : List DistItem) → map flip (map flip h) ≡ h
map-flip-flip [] = refl
map-flip-flip (c ∷ h) = ap₂ ◌∷◌ (flip-flip c) (map-flip-flip h)

tally-flip :
    (p : DistItem → Bool) (h : List DistItem) → tally p (map flip h) ≡ tally (λ c. p (flip c)) h
tally-flip p [] = refl
tally-flip p (c ∷ h) = omega (arith, tally-flip p h)

-- The farthest item is at the root.
abbrev pub IsMaxHeap : List DistItem → Type 0
IsMaxHeap h = IsHeap (map flip h)

-- From the items of the negated heap to those of the heap.
Same-flip : (r h : List DistItem) → Same r (map flip h) → Same (map flip r) h
Same-flip r h s p =
    tally-flip p r
    ∙ s (λ c. p (flip c))
    ∙ sym (tally-flip p (map flip h))
    ∙ ap (tally p) (map-flip-flip h)

pub push_max-Same :
    (h : List DistItem) (x : DistItem)
    → IsMaxHeap h
    → Returns (λ r. IsMaxHeap r × Same r (x ∷ h)) (push_max h x)
unfolding push_max
push_max-Same h x o =
    Returns-bind (push_min-Sifted (map flip h) (flip x) o) λ r (heap, same).
      returns (subst IsHeap (sym (map-flip-flip r)) heap, Same-flip r (x ∷ h) same)

pub pop_max-Same :
    (x : DistItem) (h : List DistItem)
    → IsMaxHeap (x ∷ h)
    → Returns (λ r. IsMaxHeap r × Same r h) (pop_max (x ∷ h))
unfolding pop_max
pop_max-Same x h o =
    Returns-bind (pop_min-Sifted (flip x) (map flip h) o)
      λ r (heap, same). returns (subst IsHeap (sym (map-flip-flip r)) heap, Same-flip r h same)

neg_le : (x y : ℤ) → neg_ℤ x ≤ℤ neg_ℤ y → y ≤ℤ x
neg_le (pos zero) (pos zero) h = omega arith
neg_le (pos zero) (pos (suc y)) h = omega arith
neg_le (pos zero) (negsuc y) h = omega arith
neg_le (pos (suc x)) (pos zero) h = omega arith
neg_le (pos (suc x)) (pos (suc y)) h = omega arith
neg_le (pos (suc x)) (negsuc y) h = omega arith
neg_le (negsuc x) (pos zero) h = omega arith
neg_le (negsuc x) (pos (suc y)) h = omega arith
neg_le (negsuc x) (negsuc y) h = omega arith

-- The second item of a max-heap is no farther than the root.
pub root_farther : (x y : DistItem) (h : List DistItem) → IsMaxHeap (x ∷ y ∷ h) → y.dist ≤ℤ x.dist
root_farther x y h o =
    neg_le x.dist y.dist (root_le (flip x ∷ flip y ∷ map flip h) 1 o (omega arith))
