-- ===== src/Build/Sizes.antt =====
-- How many slots `Finalize` fills: a layer has at most one entry for a node.
use fraud_detection_api.Base.{
  ltb, ◌==◌, length, get_or, take, replicate, All, length-append, length-take, length-replicate,
  All-take, All-append, All-replicate, neg_part, signed32, pos, negsuc, tally, ℕ, zero, suc, ◌+◌,
  ◌-◌, ◌*◌, ◌%◌, ◌^◌, ◌≤◌, ◌<◌, ◌≡◌, refl, ap, ◌∙◌, List, [], ◌∷◌, ◌++◌, map, arith,
}
use fraud_detection_api.Build.{Links, links_of}
use fraud_detection_api.Build.Finalize.{
  insert_id, sort_ids, ids_in, offsets_from, layer_counts, layer_conns, flatten_nodes,
  flatten_counts, flatten_conns,
}
use fraud_detection_api.Build.Links.{IsNode, All-IsNode, LinksOk, links_of-All}
use fraud_detection_api.Graph.WellFormed.{InRange}

-- All entries of some layers.
unfoldable pub slots : List Links → ℕ
slots [] = 0
slots (links ∷ layers) = length links + slots layers

tally-below :
    (links : Links) (k : ℕ)
    → tally (λ e. ltb e.0 (suc k)) links
      ≡ tally (λ e. ltb e.0 k) links + tally (λ e. e.0 == k) links
tally-below [] k = omega arith
tally-below (e ∷ links) k = ground (arith, tally-below links k)

tally_none : (links : Links) → tally (λ e. ltb e.0 0) links ≡ 0
tally_none [] = refl
tally_none (e ∷ links) = ground (arith, tally_none links)

few_below :
    (links : Links) (k : ℕ)
    → ((v : ℕ) → tally (λ e. e.0 == v) links ≤ 1)
    → tally (λ e. ltb e.0 k) links ≤ k
few_below links zero once = omega (arith, tally_none links)
few_below links (suc k) once = omega (arith, tally-below links k, few_below links k once, once k)

pub all_below :
    (k : ℕ) (links : Links)
    → All (λ e. (e.0 < k) × All (IsNode k) e.1) links
    → tally (λ e. ltb e.0 k) links ≡ length links
all_below k [] h = refl
all_below k (e ∷ links) h = let l = h.0.0 in ground (arith, all_below k links h.1)

pub LinksOk-length : (k : ℕ) (links : Links) → LinksOk k links → length links ≤ k
LinksOk-length k links o = omega (arith, all_below k links o.inside, few_below links k o.once)

pub slots-le :
    (k : ℕ) (layers : List Links) → All (LinksOk k) layers → slots layers ≤ length layers * k
unfolding slots
slots-le k [] h = omega arith
slots-le k (links ∷ layers) h =
    let one = LinksOk-length k links h.0 in let rest = slots-le k layers h.1 in grind arith

length-insert_id : (x : ℕ) (ids : List ℕ) → length (insert_id x ids) ≡ suc (length ids)
unfolding insert_id
length-insert_id x [] = refl
length-insert_id x (y ∷ ids) = ground (arith, length-insert_id x ids)

length-sort_ids : (ids : List ℕ) → length (sort_ids ids) ≡ length ids
unfolding sort_ids
length-sort_ids [] = refl
length-sort_ids (x ∷ ids) = length-insert_id x (sort_ids ids) ∙ ap suc (length-sort_ids ids)

pub length-map {ℓ κ} :
    {A : Type ℓ} {B : Type κ} (f : A → B) (xs : List A) → length (map f xs) ≡ length xs
length-map f [] = refl
length-map f (x ∷ xs) = ap suc (length-map f xs)

pub length-ids_in : (links : Links) → length (ids_in links) ≡ length links
length-ids_in links = length-sort_ids (map (λ e. e.0) links) ∙ length-map (λ e. e.0) links

pub length-flatten_nodes : (layers : List Links) → length (flatten_nodes layers) ≡ slots layers
unfolding flatten_nodes slots
length-flatten_nodes [] = refl
length-flatten_nodes (links ∷ layers) = omega (
  arith,
  length-append (map (λ id. signed32 id) (ids_in links)) (flatten_nodes layers),
  length-map (λ id. signed32 id) (ids_in links),
  length-ids_in links,
  length-flatten_nodes layers,
)

pub length-layer_counts :
    (m : ℕ) (links : Links) (ids : List ℕ) → length (layer_counts m links ids) ≡ length ids
unfolding layer_counts
length-layer_counts m links [] = refl
length-layer_counts m links (id ∷ ids) = ap suc (length-layer_counts m links ids)

pub length-flatten_counts :
    (m : ℕ) (layers : List Links) → length (flatten_counts m layers) ≡ slots layers
unfolding flatten_counts slots
length-flatten_counts m [] = refl
length-flatten_counts m (links ∷ layers) = omega (
  arith,
  length-append (layer_counts m links (ids_in links)) (flatten_counts m layers),
  length-layer_counts m links (ids_in links),
  length-ids_in links,
  length-flatten_counts m layers,
)

layer_counts-le :
    (m : ℕ) (links : Links) (ids : List ℕ) → All (λ c. c ≤ m) (layer_counts m links ids)
unfolding layer_counts
layer_counts-le m links [] = tt
layer_counts-le m links (id ∷ ids) = (omega arith, layer_counts-le m links ids)

pub flatten_counts-le : (m : ℕ) (layers : List Links) → All (λ c. c ≤ m) (flatten_counts m layers)
unfolding flatten_counts
flatten_counts-le m [] = tt
flatten_counts-le m (links ∷ layers) =
    All-append (λ c. c ≤ m) (layer_counts m links (ids_in links)) _
      (layer_counts-le m links (ids_in links)) (flatten_counts-le m layers)

pub length-layer_conns :
    (m : ℕ) (links : Links) (ids : List ℕ) → length (layer_conns m links ids) ≡ length ids * m
unfolding layer_conns
length-layer_conns m links [] = omega arith
length-layer_conns m links (id ∷ ids) =
    let row = take m (links_of links id) in
    let short = length-take m (links_of links id) in
    let fill = length-replicate (m - length row) (negsuc 0) in
    let back = length-append (replicate (m - length row) (negsuc 0)) (layer_conns m links ids) in
    let whole =
      length-append row (replicate (m - length row) (negsuc 0) ++ layer_conns m links ids) in
    let rest = length-layer_conns m links ids in
    let step : suc (length ids) * m ≡ m + length ids * m = grind arith in omega arith

pub length-flatten_conns :
    (m : ℕ) (layers : List Links) → length (flatten_conns m layers) ≡ slots layers * m
unfolding flatten_conns slots
length-flatten_conns m [] = omega arith
length-flatten_conns m (links ∷ layers) =
    let whole = length-append (layer_conns m links (ids_in links)) (flatten_conns m layers) in
    let one = length-layer_conns m links (ids_in links) in
    let ids = length-ids_in links in
    let rest = length-flatten_conns m layers in
    let step : (length links + slots layers) * m ≡ length links * m + slots layers * m =
      grind arith in
    let same : length (ids_in links) * m ≡ length links * m = ap (λ x. x * m) ids in omega arith

layer_conns-All :
    (k m : ℕ) (links : Links) (ids : List ℕ)
    → LinksOk k links
    → All (InRange k) (layer_conns m links ids)
unfolding layer_conns
layer_conns-All k m links [] o = tt
layer_conns-All k m links (id ∷ ids) o =
    let row = take m (links_of links id) in
    All-append (InRange k) row _
      (All-take (InRange k) m (links_of links id)
        (All-IsNode k (links_of links id) (links_of-All k links id o.inside)))
      (All-append (InRange k) (replicate (m - length row) (negsuc 0)) _
        (All-replicate (InRange k) (m - length row) (negsuc 0) tt)
        (layer_conns-All k m links ids o))

pub flatten_conns-All :
    (k m : ℕ) (layers : List Links)
    → All (LinksOk k) layers
    → All (InRange k) (flatten_conns m layers)
unfolding flatten_conns
flatten_conns-All k m [] o = tt
flatten_conns-All k m (links ∷ layers) o =
    All-append (InRange k) (layer_conns m links (ids_in links)) _
      (layer_conns-All k m links (ids_in links) o.0) (flatten_conns-All k m layers o.1)

-- Offsets below 2 ^ 31 are exact.
pub length-offsets_from :
    (total : ℕ) (layers : List Links) → length (offsets_from total layers) ≡ length layers
unfolding offsets_from
length-offsets_from total [] = refl
length-offsets_from total (links ∷ layers) =
    ap suc (length-offsets_from (total + length links) layers)

pub offset_at :
    (total : ℕ) (layers : List Links) (l : ℕ)
    → total + slots layers < 2 ^ 31
    → l ≤ length layers
    → get_or (pos total ∷ offsets_from total layers) l (pos 0) ≡ pos (total + slots (take l layers))
unfolding offsets_from slots
offset_at total layers zero small h = ap pos (omega arith)
offset_at total [] (suc l) small h = absurd (omega arith)
offset_at total (links ∷ layers) (suc l) small h =
    let next = total + length links in
    let exact : signed32 (next % 2 ^ 32) ≡ pos next = ground arith in
    ap (λ x. get_or (x ∷ offsets_from next layers) l (pos 0)) exact
    ∙ offset_at next layers l (omega arith) (omega arith)
    ∙ ap pos (omega arith)

pub offsets-nonneg :
    (total : ℕ) (layers : List Links)
    → total + slots layers < 2 ^ 31
    → All (λ x. neg_part x ≡ 0) (offsets_from total layers)
unfolding offsets_from slots
offsets-nonneg total [] small = tt
offsets-nonneg total (links ∷ layers) small =
    let next = total + length links in
    let exact : signed32 (next % 2 ^ 32) ≡ pos next = ground arith in
    (ap neg_part exact, offsets-nonneg next layers (omega arith))

-- The slots of more layers are not fewer.
pub slots-take : (layers : List Links) (l : ℕ) → slots (take l layers) ≤ slots layers
unfolding slots
slots-take layers zero = omega arith
slots-take [] (suc l) = omega arith
slots-take (links ∷ layers) (suc l) = omega (arith, slots-take layers l)

pub slots-take-suc :
    (layers : List Links) (l : ℕ) → slots (take l layers) ≤ slots (take (suc l) layers)
unfolding slots
slots-take-suc layers zero = omega arith
slots-take-suc [] (suc l) = omega arith
slots-take-suc (links ∷ layers) (suc l) = omega (arith, slots-take-suc layers l)
