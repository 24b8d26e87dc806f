-- ===== src/Build.antt =====
-- internal/hnsw/hnsw.go: the builder of the index, and its accessors. The heaps and the result
-- buffer, which every search empties first, are variables of the search; the random source is the
-- level that it draws, an argument of `insert`. A map of neighbor lists is an association list.
pub mod Links
pub mod Linked
pub mod Queue
pub mod Search
pub mod Held
pub mod Hunting
pub mod Layer
pub mod Found
pub mod Greedy
pub mod Select
pub mod Diverse
pub mod Chosen
pub mod Selected
pub mod Copy
pub mod Connect
pub mod Rows
pub mod Edges
pub mod Bidirectional
pub mod Bits
pub mod Stored
pub mod Insert
pub mod Inserted
pub mod Ready
pub mod Steps
pub mod Added
pub mod Finalize
pub mod Sizes
pub mod Finalized
pub mod Sorted
pub mod Slots
pub mod Places
pub mod Layers
pub mod Tests
use fraud_detection_api.Base.{
  leb, ◌==◌, if◌then◌else◌, length, take, drop, replicate, ℤ, pos_part, ltb_ℤ, pos, negsuc, ℕ, zero,
  suc, ◌+◌, ◌-◌, ◌*◌, ◌/◌, ◌%◌, ◌^◌, Bool, false, ◌||◌, List, [], ◌∷◌, ◌++◌,
}
use fraud_detection_api.Config.{vector_dim}
use fraud_detection_api.Graph.{Graph, fetch, layer0_neighbors}
use fraud_detection_api.Query.Slot.{store}
use fraud_detection_api.Run.{◌>>=◌, Run, panic, ok}
use fraud_detection_api.Vector.{Vector}

-- Node ids with their neighbor lists on one layer.
abbrev pub Links : Type 0
Links = List (ℕ × List ℤ)

pub record Builder : Type 0 where
  pub graph : Graph
  pub levels : List ℤ
  pub upper_conns : List Links
  pub ef_c : ℕ
  pub visited : List ℕ
  pub vis_gen : ℕ
  pub inserted : ℕ

-- `m[id]`, which is nil for a missing key.
unfoldable pub links_of : Links → ℕ → List ℤ
links_of [] id = []
links_of (e ∷ es) id = if e.0 == id then e.1 else links_of es id

unfoldable pub has_node : Links → ℕ → Bool
has_node [] id = false
has_node (e ∷ es) id = (e.0 == id) || has_node es id

-- `m[id] = nbs`
unfoldable pub put : Links → ℕ → List ℤ → Links
put [] id nbs = (id, nbs) ∷ []
put (e ∷ es) id nbs = if e.0 == id then (id, nbs) ∷ es else e ∷ put es id nbs

-- `make` fills with zeros; `conn0` is then filled with -1.
unfoldable pub new_builder : ℕ → ℕ → ℕ → ℕ → Builder
new_builder n m m0 ef = record {
  graph = record {
    n = n;
    m = m;
    m0 = m0;
    vectors = replicate (n * vector_dim) 0;
    conn0 = replicate (n * m0) (negsuc 0);
    conn0_cnt = replicate n 0;
    labels = replicate (((n + 7) % 2 ^ 32) / 8) 0;
    upper_off = [];
    upper_nodes = [];
    upper_cnt = [];
    upper_conn = [];
    entry_point = 0;
    max_layer = pos 0;
  };
  levels = replicate n (pos 0);
  upper_conns = [];
  ef_c = ef;
  visited = replicate n 0;
  vis_gen = 0;
  inserted = 0;
}

abbrev pub label_fraud : ℕ
label_fraud = 1

-- `x | 1<<k` and `x &^ 1<<k`
abbrev pub set_bit : ℕ → ℕ → ℕ
set_bit x k = if (x / 2 ^ k) % 2 == 1 then x else x + 2 ^ k

abbrev pub clear_bit : ℕ → ℕ → ℕ
clear_bit x k = if (x / 2 ^ k) % 2 == 1 then x - 2 ^ k else x

unfoldable pub set_label : Graph → ℕ → ℕ → Run Graph
set_label g id label = do
  x ← fetch g.labels (id / 8)
  labels ←
      store g.labels (id / 8)
        (if label == label_fraud then set_bit x (id % 8) else clear_bit x (id % 8))
  ok (record g { labels = labels })

-- The bytes of `xs` from the front replaced by those of `ys`.
unfoldable pub overlay {ℓ} : {A : Type ℓ} → List A → List A → List A
overlay [] ys = []
overlay (x ∷ xs) [] = x ∷ xs
overlay (x ∷ xs) (y ∷ ys) = y ∷ overlay xs ys

-- `copy(xs[off:], ys)`
unfoldable pub copy_at {ℓ} : {A : Type ℓ} → List A → ℕ → List A → Run (List A)
unfolding overlay
copy_at xs off ys =
    if leb off (length xs) then ok (take off xs ++ overlay (drop off xs) ys) else panic

-- `v[:]`
abbrev pub entries {ℓ} : {A : Type ℓ} → Vector A → List A
entries v =
    v.v0 ∷ v.v1 ∷ v.v2 ∷ v.v3 ∷ v.v4 ∷ v.v5 ∷ v.v6 ∷ v.v7 ∷ v.v8 ∷ v.v9 ∷ v.v10 ∷ v.v11 ∷ v.v12
    ∷ v.v13 ∷ []

unfoldable pub ensure_layers : List Links → ℤ → List Links
ensure_layers layers up_to = layers ++ replicate (pos_part up_to - length layers) []

-- The loop over the layers, from the first.
unfoldable pub register_all : ℕ → ℕ → List Links → Run (List Links)
unfolding has_node put
register_all zero id layers = ok layers
register_all (suc k) id [] = panic
register_all (suc k) id (links ∷ layers) = do
  rest ← register_all k id layers
  ok ((if has_node links id then links else put links id []) ∷ rest)

unfoldable pub register_on_upper_layers : List Links → ℕ → ℤ → Run (List Links)
unfolding register_all ensure_layers
register_on_upper_layers layers id level =
    if ltb_ℤ level (pos 1)
    then ok layers
    else register_all (pos_part level) id (ensure_layers layers level)

unfoldable pub neighbors_at : Builder → ℕ → ℤ → Run (List ℤ)
unfolding links_of
neighbors_at b id (pos zero) = layer0_neighbors b.graph id
neighbors_at b id (pos (suc l)) =
    if leb (length b.upper_conns) l
    then ok []
    else (do links ← fetch b.upper_conns l; ok (links_of links id))
neighbors_at b id (negsuc _) = panic
