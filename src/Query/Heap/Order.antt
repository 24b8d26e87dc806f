-- ===== src/Query/Heap/Order.antt =====
-- The order of the candidate heap: no item is closer than the one above it.
use fraud_detection_api.Base.{
  ℕ, zero, suc, ◌<◌, ◌≡◌, ℤ, pos, ◌≤ℤ◌, List, length, get_or, Same, exchange, get_elem?-get_or,
  arith,
}
use fraud_detection_api.Run.{ok}
use fraud_detection_api.Graph.{fetch}
use fraud_detection_api.Query.Heap.{DistItem, swap, parent}

abbrev pub no_item : DistItem
no_item = record { id = 0; dist = pos 0 }

abbrev pub item : List DistItem → ℕ → DistItem
item h i = get_or h i no_item

-- The distance of the item at `i`.
abbrev pub far : List DistItem → ℕ → ℤ
far h i = (get_or h i no_item).dist

-- Every edge of the tree is in order.
abbrev pub IsHeap : List DistItem → Type 0
IsHeap h = (c : ℕ) → 0 < c → c < length h → far h (parent c) ≤ℤ far h c

-- A heap of the same items.
abbrev pub Sifted : List DistItem → List DistItem → Type 0
Sifted h g = IsHeap g × Same g h

-- The edges from the parent of `i` to the children of `i` are in order.
abbrev pub Spans : List DistItem → ℕ → Type 0
Spans h i = (c : ℕ) → 0 < c → c < length h → parent c ≡ i → 0 < i → far h (parent i) ≤ℤ far h c

pub fetch-item : (h : List DistItem) (i : ℕ) → i < length h → fetch h i ≡ ok (item h i)
fetch-item h i l = rw (get_elem?-get_or h i no_item l)

pub swap-exchange :
    (h : List DistItem) (i j : ℕ)
    → i < length h
    → j < length h
    → swap h i j ≡ ok (exchange h i j no_item)
unfolding swap exchange
swap-exchange h i j hi hj = rw (fetch-item h j hj, fetch-item h i hi)

root_le_below :
    (k : ℕ) (h : List DistItem) (i : ℕ) → IsHeap h → i < k → i < length h → far h 0 ≤ℤ far h i
root_le_below zero h i o f l = absurd (omega arith)
root_le_below (suc k) h i o f l = ground (arith, o i, root_le_below k h (parent i) o)

-- The root of a heap is a nearest item.
pub root_le : (h : List DistItem) (i : ℕ) → IsHeap h → i < length h → far h 0 ≤ℤ far h i
root_le h i o l = root_le_below (suc i) h i o (omega arith) l
