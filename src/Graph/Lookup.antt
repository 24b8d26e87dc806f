-- ===== src/Graph/Lookup.antt =====
-- The binary search of `upperLocalIndex`, on an ascending layer.
use mathlib.Core.Logic.{◌≢◌}
use fraud_detection_api.Base.{
  ℕ, zero, suc, ◌+◌, ◌-◌, ◌/◌, ◌<◌, ◌≤◌, ◌≡◌, sym, ◌∙◌, ap, ◌⊎◌, inl, inr, ℤ, pos, ◌<ℤ◌, ◌≤ℤ◌,
  ltb_ℤ, eqb_ℤ, ltb, List, [], ◌∷◌, length, get_elem?, get_or, take, drop, arith, Option, none,
  some, true, Bool-cases, Option-cases, if◌then◌else◌,
}
use fraud_detection_api.Run.{Returns, returns, Returns-map, Returns-if}
use fraud_detection_api.Graph.{Graph, search_loop, found_at}
use fraud_detection_api.Graph.WellFormed.{offset, fetch-get_or}

abbrev node : List ℤ → ℕ → ℤ
node nodes i = get_or nodes i (pos 0)

abbrev pub IsAscending : List ℤ → Type 0
IsAscending nodes = (i j : ℕ) → i < j → j < length nodes → node nodes i <ℤ node nodes j

-- The target's place lies in the range from `lo` to `hi`.
pub record Bracket (nodes : List ℤ) (target : ℤ) (lo hi : ℕ) : Type 0 where
  pub below : (i : ℕ) → i < lo → node nodes i <ℤ target
  pub above : (i : ℕ) → hi ≤ i → i < length nodes → target ≤ℤ node nodes i

pub record Narrowed (nodes : List ℤ) (target : ℤ) (lo hi r : ℕ) : Type 0 where
  pub from : lo ≤ r
  pub to : r ≤ hi
  pub place : IsAscending nodes → Bracket nodes target lo hi → Bracket nodes target r r

Bracket-right :
    (nodes : List ℤ) (target : ℤ) (lo hi mid : ℕ)
    → mid < length nodes
    → node nodes mid <ℤ target
    → IsAscending nodes
    → Bracket nodes target lo hi
    → Bracket nodes target (mid + 1) hi
Bracket-right nodes target lo hi mid l t asc b = record {
  below = λ i h. split i (omega arith);
  above = b.above;
}
  where
    split : (i : ℕ) → (i < mid) ⊎ (i ≡ mid) → node nodes i <ℤ target
    split i (inl p) = omega (arith, asc i mid p l)
    split i (inr e) = rw e t

Bracket-left :
    (nodes : List ℤ) (target : ℤ) (lo hi mid : ℕ)
    → target ≤ℤ node nodes mid
    → IsAscending nodes
    → Bracket nodes target lo hi
    → Bracket nodes target lo mid
Bracket-left nodes target lo hi mid t asc b = record {
  below = b.below;
  above = λ i h l. split i l (omega arith);
}
  where
    split : (i : ℕ) → i < length nodes → (mid < i) ⊎ (i ≡ mid) → target ≤ℤ node nodes i
    split i l (inl p) = omega (arith, asc mid i p l)
    split i l (inr e) = rw e t

pub search_loop-Narrowed :
    (k : ℕ) (nodes : List ℤ) (target : ℤ) (lo hi : ℕ)
    → hi < lo + k
    → lo ≤ hi
    → hi ≤ length nodes
    → Returns (Narrowed nodes target lo hi) (search_loop k nodes target lo hi)
unfolding search_loop
search_loop-Narrowed zero nodes target lo hi f h l = absurd (omega arith)
search_loop-Narrowed (suc k) nodes target lo hi f h l =
    Returns-if (ltb lo hi)
      (λ open_range.
        let mid = (lo + hi) / 2 in
        let range : (lo ≤ mid) × (mid < hi) = (let o : lo < hi = ground arith in omega arith) in
        let inside : mid < length nodes = omega arith in
        rw (fetch-get_or nodes mid (pos 0) inside) (
          Returns-if (ltb_ℤ (node nodes mid) target)
            (λ less.
              Returns-map
                (search_loop-Narrowed k nodes target (mid + 1) hi (omega arith) (omega arith) l)
                λ r n. record {
                  from = (let a = n.from in omega arith);
                  to = n.to;
                  place = λ asc b.
                      n.place asc
                        (Bracket-right nodes target lo hi mid inside (ground arith) asc b);
                })
            λ not_less.
              Returns-map
                (search_loop-Narrowed k nodes target lo mid (omega arith) (omega arith)
                  (omega arith))
                λ r n. record {
                  from = n.from;
                  to = (let a = n.to in omega arith);
                  place = λ asc b.
                      n.place asc (Bracket-left nodes target lo hi mid (ground arith) asc b);
                }))
      λ closed.
        let e : hi ≡ lo = ground arith in
        returns (record {
          from = omega arith;
          to = h;
          place = λ asc b. record { below = b.below; above = λ i p. b.above i (omega arith) };
        })

-- The nodes of a layer, in the order in which they are stored.
abbrev pub layer_nodes : Graph → ℕ → List ℤ
layer_nodes g layer =
    take (offset g layer - offset g (layer - 1)) (drop (offset g (layer - 1)) g.upper_nodes)

-- `some i` where the target stands at `i`, and `none` where it stands nowhere.
abbrev pub Locates : List ℤ → ℤ → Option ℕ → Type 0
Locates nodes target (some i) = get_elem? nodes i ≡ some target
Locates nodes target none = (i : ℕ) → get_elem? nodes i ≢ some target

pub eq_of_eqb_ℤ : (x y : ℤ) → eqb_ℤ x y ≡ true → x ≡ y
eq_of_eqb_ℤ x y h = ground arith

eqb_ℤ_refl : (x : ℤ) → eqb_ℤ x x ≡ true
eqb_ℤ_refl x = ground arith

pub lt-length_of_get_elem? {ℓ} :
    {A : Type ℓ} (xs : List A) (i : ℕ) {a : A}
    → get_elem? xs i ≡ some a
    → (i < length xs) × ((d : A) → get_or xs i d ≡ a)
lt-length_of_get_elem? [] i e = cc
lt-length_of_get_elem? (x ∷ xs) zero e = (omega arith, λ d. cc)
lt-length_of_get_elem? (x ∷ xs) (suc i) e =
    let (l, k) = lt-length_of_get_elem? xs i e in (omega arith, k)

-- In ascending nodes only the place that the search ends at can hold the target.
place_unique :
    (nodes : List ℤ) (target : ℤ) (lo i : ℕ)
    → IsAscending nodes
    → Bracket nodes target lo lo
    → get_elem? nodes i ≡ some target
    → i ≡ lo
place_unique nodes target lo i asc b f =
    let (l, at) = lt-length_of_get_elem? nodes i f in
    ground (arith, at (pos 0), b.below i, b.above lo, asc lo i)

pub found_at-Locates :
    (nodes : List ℤ) (target : ℤ) (lo : ℕ)
    → IsAscending nodes
    → Bracket nodes target lo lo
    → Locates nodes target (if found_at nodes target lo then some lo else none)
found_at-Locates nodes target lo asc b = elim (Option-cases (get_elem? nodes lo)) [
  | inl e ↦
      rw (found_at, e)
        (λ i f. let same = place_unique nodes target lo i asc b f in cc (ap (get_elem? nodes) same))
  | inr (x, e) ↦ elim (Bool-cases (eqb_ℤ x target)) [
    | inl same ↦ rw (found_at, e, same) (rw e (ap some (eq_of_eqb_ℤ x target same)))
    | inr other ↦
        rw (found_at, e, other)
          (λ i f.
            let same = place_unique nodes target lo i asc b f in
            let at : some x ≡ some target = sym e ∙ ap (get_elem? nodes) (sym same) ∙ f in
            let eq : x ≡ target = (cc at) in
            cc (sym other ∙ ap (λ y. eqb_ℤ y target) eq ∙ eqb_ℤ_refl target))
  ]
]
