-- ===== src/Build/Links.antt =====
-- The maps of neighbor lists: what an update does to them, and when they are sound.
use fraud_detection_api.Base.{
  ◌==◌, if◌then◌else◌, Bool-cases, length, replicate, All, length-append, length-replicate,
  All-append, All-replicate, ℤ, pos_part, ltb_ℤ, pos, negsuc, weight, tally, ℕ, zero, suc, ◌+◌, ◌-◌,
  ◌≤◌, ◌<◌, ◌≡◌, refl, ap, inl, inr, false, List, [], ◌∷◌, arith,
}
use fraud_detection_api.Build.{
  Links, links_of, has_node, put, ensure_layers, register_all, register_on_upper_layers,
}
use fraud_detection_api.Graph.WellFormed.{InRange}
use fraud_detection_api.Run.{Returns, Returns-bind, Returns-if, Returns-map, returns}

-- The id of a node below `k`.
abbrev pub IsNode : ℕ → ℤ → Type 0
IsNode k (pos n) = n < k
IsNode k (negsuc _) = ⊥

pub All-IsNode : (k : ℕ) (xs : List ℤ) → All (IsNode k) xs → All (InRange k) xs
All-IsNode k [] i = tt
All-IsNode k (pos n ∷ xs) i = (i.0, All-IsNode k xs i.1)
All-IsNode k (negsuc n ∷ xs) i = absurd i.0

-- The keys are nodes below `k`, each of them once, and so are the neighbors.
pub record LinksOk (k : ℕ) (links : Links) : Type 0 where
  pub inside : All (λ e. (e.0 < k) × All (IsNode k) e.1) links
  pub once : (v : ℕ) → tally (λ e. e.0 == v) links ≤ 1

pub empty-LinksOk : (k : ℕ) → LinksOk k []
empty-LinksOk k = record { inside = tt; once = λ v. omega arith }

pub IsNode-le : (k k' : ℕ) (x : ℤ) → k ≤ k' → IsNode k x → IsNode k' x
IsNode-le k k' (pos n) h i = omega arith
IsNode-le k k' (negsuc n) h i = absurd i

All-IsNode-le : (k k' : ℕ) (xs : List ℤ) → k ≤ k' → All (IsNode k) xs → All (IsNode k') xs
All-IsNode-le k k' [] h i = tt
All-IsNode-le k k' (x ∷ xs) h i = (IsNode-le k k' x h i.0, All-IsNode-le k k' xs h i.1)

pub LinksOk-le : (k k' : ℕ) (links : Links) → k ≤ k' → LinksOk k links → LinksOk k' links
LinksOk-le k k' links h o = record { inside = go links o.inside; once = o.once }
  where
    go :
        (es : Links)
        → All (λ e. (e.0 < k) × All (IsNode k) e.1) es
        → All (λ e. (e.0 < k') × All (IsNode k') e.1) es
    go [] i = tt
    go (e ∷ es) i = ((omega arith, All-IsNode-le k k' e.1 h i.0.1), go es i.1)

pub links_of-All :
    (k : ℕ) (links : Links) (id : ℕ)
    → All (λ e. (e.0 < k) × All (IsNode k) e.1) links
    → All (IsNode k) (links_of links id)
unfolding links_of
links_of-All k [] id i = tt
links_of-All k (e ∷ es) id i = elim (Bool-cases (e.0 == id)) [
  | inl found ↦ rw found (i.0.1)
  | inr other ↦ rw other (links_of-All k es id i.1)
]

put-inside :
    (k : ℕ) (links : Links) (id : ℕ) (nbs : List ℤ)
    → id < k
    → All (IsNode k) nbs
    → All (λ e. (e.0 < k) × All (IsNode k) e.1) links
    → All (λ e. (e.0 < k) × All (IsNode k) e.1) (put links id nbs)
unfolding put
put-inside k [] id nbs h n i = ((h, n), tt)
put-inside k (e ∷ es) id nbs h n i = elim (Bool-cases (e.0 == id)) [
  | inl found ↦ rw found ((h, n), i.1)
  | inr other ↦ rw other (i.0, put-inside k es id nbs h n i.1)
]

-- The keys behind an update: a new key is added once.
pub tally-put :
    (links : Links) (id : ℕ) (nbs : List ℤ) (v : ℕ)
    → tally (λ e. e.0 == v) (put links id nbs)
      ≡ tally (λ e. e.0 == v) links + (if has_node links id then 0 else weight (id == v))
unfolding put has_node
tally-put [] id nbs v = omega arith
tally-put (e ∷ es) id nbs v = ground (arith, tally-put es id nbs v)

tally-has_node :
    (links : Links) (id : ℕ) → has_node links id ≡ false → tally (λ e. e.0 == id) links ≡ 0
unfolding has_node
tally-has_node [] id h = refl
tally-has_node (e ∷ es) id h = ground (arith, tally-has_node es id)

pub put-LinksOk :
    (k : ℕ) (links : Links) (id : ℕ) (nbs : List ℤ)
    → id < k
    → All (IsNode k) nbs
    → LinksOk k links
    → LinksOk k (put links id nbs)
put-LinksOk k links id nbs h n o = record {
  inside = put-inside k links id nbs h n o.inside;
  once = λ v. ground (arith, tally-put links id nbs v, o.once v, tally-has_node links id);
}

-- A key is found behind its update, with the new list; other keys keep theirs.
pub links_of-put :
    (links : Links) (id : ℕ) (nbs : List ℤ) (v : ℕ)
    → links_of (put links id nbs) v ≡ (if id == v then nbs else links_of links v)
unfolding put links_of
links_of-put [] id nbs v = refl
links_of-put (e ∷ es) id nbs v = ground (arith, links_of-put es id nbs v)

-- All layers.
pub All-LinksOk-le :
    (k k' : ℕ) (layers : List Links) → k ≤ k' → All (LinksOk k) layers → All (LinksOk k') layers
All-LinksOk-le k k' [] h o = tt
All-LinksOk-le k k' (links ∷ layers) h o =
    (LinksOk-le k k' links h o.0, All-LinksOk-le k k' layers h o.1)

pub ensure_layers-LinksOk :
    (k : ℕ) (layers : List Links) (level : ℤ)
    → All (LinksOk k) layers
    → All (LinksOk k) (ensure_layers layers level)
      × (pos_part level ≤ length (ensure_layers layers level))
      × (length layers ≤ length (ensure_layers layers level))
unfolding ensure_layers
ensure_layers-LinksOk k layers level o =
    let more = replicate (pos_part level - length layers) [] in
    let size = length-append layers more in
    let added : length more ≡ pos_part level - length layers =
      length-replicate (pos_part level - length layers) [] in
    (
      All-append (LinksOk k) layers more o (All-replicate (LinksOk k) _ [] (empty-LinksOk k)),
      omega arith,
      omega arith,
    )

register_all-LinksOk :
    (r k id : ℕ) (layers : List Links)
    → id < k
    → r ≤ length layers
    → All (LinksOk k) layers
    → Returns
        (λ layers'. All (LinksOk k) layers' × (length layers' ≡ length layers))
        (register_all r id layers)
unfolding register_all
register_all-LinksOk zero k id layers h l o = returns (o, refl)
register_all-LinksOk (suc r) k id [] h l o = absurd (omega arith)
register_all-LinksOk (suc r) k id (links ∷ layers) h l o =
    Returns-bind (register_all-LinksOk r k id layers h (omega arith) o.1) λ rest (fine, size).
      elim (Bool-cases (has_node links id)) [
        | inl old ↦ rw old (returns ((o.0, fine), ap suc size))
        | inr new ↦ rw new (returns ((put-LinksOk k links id [] h tt o.0, fine), ap suc size))
      ]

pub register_on_upper_layers-LinksOk :
    (k id : ℕ) (level : ℤ) (layers : List Links)
    → id < k
    → All (LinksOk k) layers
    → Returns
        (λ layers'. All (LinksOk k) layers' × (length layers ≤ length layers'))
        (register_on_upper_layers layers id level)
unfolding register_on_upper_layers
register_on_upper_layers-LinksOk k id level layers h o =
    Returns-if (ltb_ℤ level (pos 1)) (λ low. returns (o, omega arith))
      λ high.
        let (fine, enough, more) = ensure_layers-LinksOk k layers level o in
        Returns-map (register_all-LinksOk (pos_part level) k id _ h enough fine)
          λ layers' (good, size). (good, omega arith)
