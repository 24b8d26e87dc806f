-- ===== src/Build/Slots.antt =====
-- Where `Finalize` puts a layer: its nodes, counts and connections, from the layer's offset.
use Prim.Native.Nat.{min}
use mathlib.Core.Path.{ap₂}
use fraud_detection_api.Base.{
  length, get_or, take, drop, replicate, length-take, length-replicate, take-length_append, ℤ,
  signed32, negsuc, ℕ, zero, suc, ◌+◌, ◌-◌, ◌*◌, ◌≤◌, ◌<◌, ◌≡◌, refl, sym, ap, ◌∙◌, List, [], ◌∷◌,
  ◌++◌, arith,
}
use fraud_detection_api.Build.{Links, links_of}
use fraud_detection_api.Build.Finalize.{
  ids_in, layer_counts, layer_conns, flatten_nodes, flatten_counts, flatten_conns,
}
use fraud_detection_api.Build.Sizes.{
  slots, length-map, length-ids_in, length-layer_counts, length-layer_conns,
}
use fraud_detection_api.Build.Sorted.{stored_ids}

pub drop-append {ℓ} :
    {A : Type ℓ} (n : ℕ) (xs ys : List A) → drop (length xs + n) (xs ++ ys) ≡ drop n ys
drop-append n [] ys = ap (λ m. drop m ys) (omega arith)
drop-append n (x ∷ xs) ys =
    let e : suc (length xs) + n ≡ suc (length xs + n) = omega arith in
    ap (λ m. drop m (x ∷ xs ++ ys)) e ∙ drop-append n xs ys

append_assoc {ℓ} : {A : Type ℓ} (xs ys zs : List A) → (xs ++ ys) ++ zs ≡ xs ++ (ys ++ zs)
append_assoc [] ys zs = refl
append_assoc (x ∷ xs) ys zs = ap (◌∷◌ x) (append_assoc xs ys zs)

module _ (m : ℕ) where
  -- Behind the slots of the first `l` layers come those of the others.
  pub drop-flatten_nodes :
      (layers : List Links) (l : ℕ)
      → drop (slots (take l layers)) (flatten_nodes layers) ≡ flatten_nodes (drop l layers)
  unfolding slots flatten_nodes
  drop-flatten_nodes layers zero = refl
  drop-flatten_nodes [] (suc l) = refl
  drop-flatten_nodes (links ∷ layers) (suc l) =
      let block = stored_ids (ids_in links) in
      let size : length block ≡ length links =
        length-map (λ id. signed32 id) (ids_in links) ∙ length-ids_in links in
      ap (λ n. drop (n + slots (take l layers)) (block ++ flatten_nodes layers)) (sym size)
      ∙ drop-append (slots (take l layers)) block (flatten_nodes layers)
      ∙ drop-flatten_nodes layers l

  pub drop-flatten_counts :
      (layers : List Links) (l : ℕ)
      → drop (slots (take l layers)) (flatten_counts m layers) ≡ flatten_counts m (drop l layers)
  unfolding slots flatten_counts
  drop-flatten_counts layers zero = refl
  drop-flatten_counts [] (suc l) = refl
  drop-flatten_counts (links ∷ layers) (suc l) =
      let block = layer_counts m links (ids_in links) in
      let size : length block ≡ length links =
        length-layer_counts m links (ids_in links) ∙ length-ids_in links in
      ap (λ n. drop (n + slots (take l layers)) (block ++ flatten_counts m layers)) (sym size)
      ∙ drop-append (slots (take l layers)) block (flatten_counts m layers)
      ∙ drop-flatten_counts layers l

  pub drop-flatten_conns :
      (layers : List Links) (l : ℕ)
      → drop (slots (take l layers) * m) (flatten_conns m layers) ≡ flatten_conns m (drop l layers)
  unfolding slots flatten_conns
  drop-flatten_conns layers zero =
      let e : 0 * m ≡ 0 = omega arith in ap (λ n. drop n (flatten_conns m layers)) e
  drop-flatten_conns [] (suc l) =
      let e : 0 * m ≡ 0 = omega arith in ap (λ n. drop n (flatten_conns m [])) e
  drop-flatten_conns (links ∷ layers) (suc l) =
      let block = layer_conns m links (ids_in links) in
      let size = length-layer_conns m links (ids_in links) in
      let ids = ap (λ n. n * m) (length-ids_in links) in
      let split : (length links + slots (take l layers)) * m
          ≡ length links * m + slots (take l layers) * m =
        grind arith in
      let e : (length links + slots (take l layers)) * m
          ≡ length block + slots (take l layers) * m =
        omega arith in
      ap (λ n. drop n (block ++ flatten_conns m layers)) e
      ∙ drop-append (slots (take l layers) * m) block (flatten_conns m layers)
      ∙ drop-flatten_conns layers l

  -- The count and the row of the `i`-th node of a layer.
  pub get_or-layer_counts :
      (links : Links) (ids : List ℕ) (rest : List ℕ) (i : ℕ)
      → m ≤ 255
      → i < length ids
      → get_or (layer_counts m links ids ++ rest) i 0
        ≡ min (length (links_of links (get_or ids i 0))) m
  unfolding layer_counts
  get_or-layer_counts links [] rest i small h = absurd (omega arith)
  get_or-layer_counts links (id ∷ ids) rest zero small h = omega arith
  get_or-layer_counts links (id ∷ ids) rest (suc i) small h =
      get_or-layer_counts links ids rest i small (omega arith)

  pub row-layer_conns :
      (links : Links) (ids : List ℕ) (rest : List ℤ) (i : ℕ)
      → i < length ids
      → take
          (min (length (links_of links (get_or ids i 0))) m)
          (drop (i * m) (layer_conns m links ids ++ rest))
        ≡ take m (links_of links (get_or ids i 0))
  unfolding layer_conns
  row-layer_conns links [] rest i h = absurd (omega arith)
  row-layer_conns links (id ∷ ids) rest zero h =
      let row = take m (links_of links id) in
      let fill = replicate (m - length row) (negsuc 0) in
      let size : min (length (links_of links id)) m ≡ length row =
        omega (arith, length-take m (links_of links id)) in
      let none_before : 0 * m ≡ 0 = omega arith in
      ap₂ (λ n o. take n (drop o ((row ++ (fill ++ layer_conns m links ids)) ++ rest))) size
        none_before
      ∙ ap (take (length row)) (append_assoc row (fill ++ layer_conns m links ids) rest)
      ∙ take-length_append row ((fill ++ layer_conns m links ids) ++ rest)
  row-layer_conns links (id ∷ ids) rest (suc i) h =
      let row = take m (links_of links id) in
      let fill = replicate (m - length row) (negsuc 0) in
      let tail = layer_conns m links ids in
      let row_len = length-take m (links_of links id) in
      let fill_len = length-replicate (m - length row) (negsuc 0) in
      let e : suc i * m ≡ length row + (length fill + i * m) =
        (let step : suc i * m ≡ m + i * m = grind arith in omega arith) in
      let c = min (length (links_of links (get_or ids i 0))) m in
      ap₂ (λ n xs. take c (drop n xs)) e
        (append_assoc row (fill ++ tail) rest ∙ ap (λ xs. row ++ xs) (append_assoc fill tail rest))
      ∙ ap (take c) (drop-append (length fill + i * m) row (fill ++ (tail ++ rest)))
      ∙ ap (take c) (drop-append (i * m) fill (tail ++ rest))
      ∙ row-layer_conns links ids rest i (omega arith)
