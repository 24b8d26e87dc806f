-- ===== src/Build/Layers.antt =====
-- The upper layers of a finished graph are the maps of the builder.
use Prim.Native.Nat.{min}
use mathlib.Core.Path.{ap₂}
use fraud_detection_api.Base.{
  le→leb, length, get_or, take, drop, All, take-length_append, All-get_or, ℤ, pos_part, neg_part,
  signed32, pos, negsuc, get_or-take, get_or-drop, ℕ, zero, suc, ◌+◌, ◌-◌, ◌*◌, ◌^◌, ◌≤◌, ◌<◌, ◌≡◌,
  refl, sym, ap, ◌∙◌, subst, Option, none, some, List, [], ◌∷◌, ◌++◌, arith,
}
use fraud_detection_api.Build.{Links, Builder, links_of}
use fraud_detection_api.Build.Finalize.{
  ids_in, offsets_from, layer_conns, flatten_nodes, flatten_counts, flatten_conns, finalize_at,
  finalize,
}
use fraud_detection_api.Build.Finalized.{flat_UpperOk, slots_small}
use fraud_detection_api.Build.Links.{LinksOk}
use fraud_detection_api.Build.Places.{
  drop-get_or, slots-take-get_or, take_empty, drop-drop, located, absent,
}
use fraud_detection_api.Build.Ready.{Ready}
use fraud_detection_api.Build.Sizes.{
  slots, length-map, length-ids_in, length-flatten_counts, length-flatten_conns,
  length-offsets_from, offset_at, slots-take,
}
use fraud_detection_api.Build.Slots.{
  drop-flatten_nodes, drop-flatten_counts, drop-flatten_conns, get_or-layer_counts, row-layer_conns,
}
use fraud_detection_api.Build.Sorted.{stored_ids, ids_in-IsAscending}
use fraud_detection_api.Graph.{Graph, fetch, cut, index_of, upper_neighbors}
use fraud_detection_api.Graph.Lookup.{IsAscending, layer_nodes, Locates}
use fraud_detection_api.Graph.Upper.{upper_local_index-Locates}
use fraud_detection_api.Graph.WellFormed.{offset, fetch-get_or, cut-take, row_end}
use fraud_detection_api.Run.{◌>>=◌, Run, Returns, Returns-bind, ok, returns}

module _ (k : ℕ) (b : Builder) (r : Ready k b) (some_node : 0 < k) (layers : List Links)
    (fine : All (LinksOk k) layers) (enough : length layers ≡ pos_part b.graph.max_layer)
    (few : slots layers < 2 ^ 31) (l : ℕ) (h : l < length layers) where
  abbrev g' : Graph
  g' = record b.graph {
    upper_off = pos 0 ∷ offsets_from 0 layers;
    upper_nodes = flatten_nodes layers;
    upper_cnt = flatten_counts b.graph.m layers;
    upper_conn = flatten_conns b.graph.m layers;
  }

  abbrev links : Links
  links = get_or layers l []

  abbrev base : ℕ
  base = slots (take l layers)

  links-LinksOk : LinksOk k links
  links-LinksOk = All-get_or (LinksOk k) layers l [] fine h

  offset-base : get_or (pos 0 ∷ offsets_from 0 layers) l (pos 0) ≡ pos base
  offset-base = offset_at 0 layers l (omega arith) (omega arith) ∙ ap pos (omega arith)

  layer_nodes-stored : layer_nodes g' (suc l) ≡ stored_ids (ids_in links)
  unfolding flatten_nodes
  layer_nodes-stored =
      let back : suc l - 1 ≡ l = omega arith in
      let low = ap pos_part offset-base in
      let high = ap pos_part (offset_at 0 layers (suc l) (omega arith) h) in
      let step = slots-take-get_or layers l h in
      let size : length (stored_ids (ids_in links)) ≡ length links =
        length-map (λ id. signed32 id) (ids_in links) ∙ length-ids_in links in
      let first : offset g' (suc l - 1) ≡ base = ap (offset g') back ∙ low in
      let width : offset g' (suc l) - offset g' (suc l - 1) ≡ length (stored_ids (ids_in links)) =
        omega arith in
      ap₂ (λ n o. take n (drop o (flatten_nodes layers))) width first
      ∙ ap (take (length (stored_ids (ids_in links))))
          (drop-flatten_nodes b.graph.m layers l ∙ ap flatten_nodes (drop-get_or layers l h))
      ∙ take-length_append (stored_ids (ids_in links)) (flatten_nodes (drop (suc l) layers))

  module _ (id i : ℕ) (inside : i < length links) (at : get_or (ids_in links) i 0 ≡ id) where
    abbrev m : ℕ
    m = b.graph.m

    abbrev cnt : ℕ
    cnt = min (length (links_of links id)) m

    slot_inside : base + i < slots layers
    slot_inside =
        let step = slots-take-get_or layers l h in
        let most = slots-take layers (suc l) in omega arith

    count_at : get_or (flatten_counts m layers) (base + i) 0 ≡ cnt
    unfolding flatten_counts
    count_at =
        let count = length-ids_in links in
        sym (get_or-drop base (flatten_counts m layers) i 0)
        ∙ ap (λ xs. get_or xs i 0)
            (drop-flatten_counts m layers l ∙ ap (flatten_counts m) (drop-get_or layers l h))
        ∙ get_or-layer_counts m links (ids_in links) (flatten_counts m (drop (suc l) layers)) i
            r.linked.m_le (omega arith)
        ∙ ap (λ x. min (length (links_of links x)) m) at

    row_at : take cnt (drop ((base + i) * m) (flatten_conns m layers)) ≡ take m (links_of links id)
    unfolding flatten_conns
    row_at =
        let count = length-ids_in links in
        let spread : (base + i) * m ≡ base * m + i * m = grind arith in
        ap (λ n. take cnt (drop n (flatten_conns m layers))) spread
        ∙ ap (take cnt) (drop-drop (base * m) (i * m) (flatten_conns m layers))
        ∙ ap (λ xs. take cnt (drop (i * m) xs))
            (drop-flatten_conns m layers l ∙ ap (flatten_conns m) (drop-get_or layers l h))
        ∙ subst
            (λ v.
              take (min (length (links_of links v)) m) (
                drop (i * m)
                  (layer_conns m links (ids_in links) ++ flatten_conns m (drop (suc l) layers)))
              ≡ take m (links_of links v))
            at
            (row-layer_conns m links (ids_in links) (flatten_conns m (drop (suc l) layers)) i
              (omega arith))

  -- What `upper_neighbors` does with the place that the search gives.
  abbrev from_place : ℕ → Option ℕ → Run (List ℤ)
  from_place l' none = ok []
  from_place l' (some i) = do
    from ← fetch g'.upper_off l'
    start ← index_of from
    cnt ← fetch g'.upper_cnt (start + i)
    cut g'.upper_conn ((start + i) * g'.m) ((start + i) * g'.m + cnt)

  module _ (id : ℕ) (id_small : id < 2 ^ 31) where
    bound_small : k ≤ 2 ^ 31
    bound_small = let s = r.linked.size_ok in let n = r.linked.bound in omega arith

    from_place-links :
        (place : Option ℕ)
        → Locates (stored_ids (ids_in links)) (signed32 id) place
        → from_place l place ≡ ok (take b.graph.m (links_of links id))
    from_place-links none none_there = ap ok (
        sym (
          take_empty b.graph.m (links_of links id)
            (absent k links links-LinksOk bound_small id id_small none_there)))
    from_place-links (some i) e =
        let m = b.graph.m in
        let (inside, at) = located k links links-LinksOk bound_small id id_small i e in
        let within = slot_inside id i inside at in
        let offsets = length-offsets_from 0 layers in
        let counts = length-flatten_counts m layers in
        let conns = length-flatten_conns m layers in
        let count = count_at id i inside at in
        let short : min (length (links_of links id)) m ≤ m = omega arith in
        let stop =
          row_end (base + i) (slots layers) m (min (length (links_of links id)) m) within short in
        let n_eq : (base + i) * m + min (length (links_of links id)) m - (base + i) * m
            ≡ min (length (links_of links id)) m =
          omega arith in
        rw
          (
            fetch-get_or (pos 0 ∷ offsets_from 0 layers) l (pos 0) (omega arith),
            offset-base,
            fetch-get_or (flatten_counts m layers) (base + i) 0 (omega arith),
            count,
            cut-take (flatten_conns m layers) ((base + i) * m)
                ((base + i) * m + min (length (links_of links id)) m) (omega arith) (omega arith),
            n_eq,
          )
          (ap ok (row_at id i inside at))

    upper_neighbors-links :
        Returns (λ nbs. nbs ≡ take b.graph.m (links_of links id)) (upper_neighbors g' id (suc l))
    unfolding upper_neighbors
    upper_neighbors-links =
        let back : suc l - 1 ≡ l = omega arith in
        let nodes = sym layer_nodes-stored in
        let ascending : IsAscending (layer_nodes g' (suc l)) =
          subst IsAscending nodes (ids_in-IsAscending k links bound_small links-LinksOk) in
        Returns-bind
          (upper_local_index-Locates g' (flat_UpperOk k b r some_node layers fine enough few) id l
            (omega arith) ascending)
          λ place found.
            let stored : Locates (stored_ids (ids_in links)) (signed32 id) place =
              subst (λ xs. Locates xs (signed32 id) place) layer_nodes-stored found in
            let read : from_place (suc l - 1) place ≡ ok (take b.graph.m (links_of links id)) =
              ap (λ n. from_place n place) back ∙ from_place-links place stored in
            subst (Returns (λ nbs. nbs ≡ take b.graph.m (links_of links id))) (sym read)
              (returns refl)

finalize_at-links :
    (k : ℕ) (b : Builder) (r : Ready k b) (some_node : 0 < k) (small : b.graph.n * 31 < 2 ^ 31)
    (id l : ℕ)
    → id < 2 ^ 31
    → l < pos_part b.graph.max_layer
    → (max_l : ℤ) → b.graph.max_layer ≡ max_l
    → Returns
        (λ f.
          Returns
            (λ nbs. nbs ≡ take b.graph.m (links_of (get_or b.upper_conns l []) id))
            (upper_neighbors f.graph id (suc l)))
        (finalize_at b max_l)
unfolding finalize_at
finalize_at-links k b r some_node small id l h inside (negsuc x) e =
    absurd (let t = r.top_ok in let f = ap neg_part e in omega arith)
finalize_at-links k b r some_node small id l h inside (pos zero) e =
    absurd (let f = ap pos_part e in omega arith)
finalize_at-links k b r some_node small id l h inside (pos (suc j)) e =
    let (fine, size, few) = slots_small k b j r e small in
    let enough = r.layers_enough in
    let top = ap pos_part e in
    let layers = take (suc j) b.upper_conns in
    let same : get_or layers l [] ≡ get_or b.upper_conns l [] =
      get_or-take (suc j) b.upper_conns l [] (omega arith) in
    rw (le→leb (suc j) (length b.upper_conns) (omega arith)) (
      returns (
        subst
          (λ links.
            Returns (λ nbs. nbs ≡ take b.graph.m (links_of links id))
              (upper_neighbors (g' k b r some_node layers fine (size ∙ sym top) few l (omega arith))
                id (suc l)))
          same
          (upper_neighbors-links k b r some_node layers fine (size ∙ sym top) few l (omega arith) id
            h)))

-- For a sound builder with at least one inserted node and 31 * N below 2 ^ 31, a layer `l + 1` of the
-- index and an id below 2 ^ 31: `upperNeighbors` on the graph that `Finalize` makes does not panic and
-- gives the first M of the neighbors that the builder's map of the layer has for the id, and none
-- if the map lacks it. So the sorted nodes, offsets, counts and rows implement the map.
pub finalize-links :
    (k : ℕ) (b : Builder) (r : Ready k b) (some_node : 0 < k) (small : b.graph.n * 31 < 2 ^ 31)
    (id l : ℕ)
    → id < 2 ^ 31
    → l < pos_part b.graph.max_layer
    → Returns
        (λ f.
          Returns
            (λ nbs. nbs ≡ take b.graph.m (links_of (get_or b.upper_conns l []) id))
            (upper_neighbors f.graph id (suc l)))
        (finalize b)
unfolding finalize
finalize-links k b r some_node small id l h inside =
    finalize_at-links k b r some_node small id l h inside b.graph.max_layer refl
