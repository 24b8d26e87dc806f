-- ===== src/Build/Finalize.antt =====
-- internal/hnsw/hnsw.go: `Finalize`. The arrays are filled slot by slot, layer after layer, so they
-- are the concatenations of what the layers give. The ids of a layer are keys of a map, all
-- different, so `sort.Slice` can only give one order: the one of an insertion sort.
use Prim.Native.Nat.{min}
use fraud_detection_api.Base.{
  leb, if◌then◌else◌, length, take, replicate, ℤ, signed32, pos, negsuc, ℕ, zero, suc, ◌+◌, ◌-◌,
  ◌%◌, ◌^◌, List, [], ◌∷◌, ◌++◌, map,
}
use fraud_detection_api.Build.{Links, Builder, links_of}
use fraud_detection_api.Run.{Run, panic, ok}

unfoldable pub insert_id : ℕ → List ℕ → List ℕ
insert_id x [] = x ∷ []
insert_id x (y ∷ ys) = if leb x y then x ∷ y ∷ ys else y ∷ insert_id x ys

unfoldable pub sort_ids : List ℕ → List ℕ
unfolding insert_id
sort_ids [] = []
sort_ids (x ∷ xs) = insert_id x (sort_ids xs)

abbrev pub ids_in : Links → List ℕ
ids_in links = sort_ids (map (λ e. e.0) links)

-- `off[1:]`, for `total` nodes below.
unfoldable pub offsets_from : ℕ → List Links → List ℤ
offsets_from total [] = []
offsets_from total (links ∷ layers) =
    signed32 ((total + length links) % 2 ^ 32) ∷ offsets_from (total + length links) layers

unfoldable pub layer_counts : ℕ → Links → List ℕ → List ℕ
unfolding links_of
layer_counts m links [] = []
layer_counts m links (id ∷ ids) =
    (min (length (links_of links id)) m % 256) ∷ layer_counts m links ids

unfoldable pub layer_conns : ℕ → Links → List ℕ → List ℤ
unfolding links_of
layer_conns m links [] = []
layer_conns m links (id ∷ ids) =
    let row = take m (links_of links id) in
    row ++ (replicate (m - length row) (negsuc 0) ++ layer_conns m links ids)

unfoldable pub flatten_nodes : List Links → List ℤ
unfolding sort_ids
flatten_nodes [] = []
flatten_nodes (links ∷ layers) = map (λ id. signed32 id) (ids_in links) ++ flatten_nodes layers

unfoldable pub flatten_counts : ℕ → List Links → List ℕ
unfolding sort_ids layer_counts
flatten_counts m [] = []
flatten_counts m (links ∷ layers) = layer_counts m links (ids_in links) ++ flatten_counts m layers

unfoldable pub flatten_conns : ℕ → List Links → List ℤ
unfolding sort_ids layer_conns
flatten_conns m [] = []
flatten_conns m (links ∷ layers) = layer_conns m links (ids_in links) ++ flatten_conns m layers

-- For the top layer `maxL`. A layer that `upperConns` lacks is read out of range.
unfoldable pub finalize_at : Builder → ℤ → Run Builder
unfolding flatten_nodes flatten_counts flatten_conns offsets_from
finalize_at b (pos zero) = ok (record b {
  graph = record b.graph {
    upper_off = pos 0 ∷ [];
    upper_nodes = [];
    upper_cnt = [];
    upper_conn = [];
  };
})
finalize_at b (pos (suc l)) =
    let layers = take (suc l) b.upper_conns in
    let flat = record b {
      graph = record b.graph {
        upper_off = pos 0 ∷ offsets_from 0 layers;
        upper_nodes = flatten_nodes layers;
        upper_cnt = flatten_counts b.graph.m layers;
        upper_conn = flatten_conns b.graph.m layers;
      };
    } in
    if leb (suc l) (length b.upper_conns) then ok flat else panic
finalize_at b (negsuc _) = panic

unfoldable pub finalize : Builder → Run Builder
unfolding finalize_at
finalize b = finalize_at b b.graph.max_layer
