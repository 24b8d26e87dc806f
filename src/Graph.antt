-- ===== src/Graph.antt =====
-- internal/hnsw/hnsw.go: the runtime graph and its accessors. The slices are lists; an index or a
-- slice beyond the length is a panic (Go also lets a slice reach into spare capacity). `raw`, which
-- only keeps the file's bytes alive, is left out.
pub mod WellFormed
pub mod Lookup
pub mod Upper
pub mod Tests
use fraud_detection_api.Base.{
  signed32, ℕ, zero, suc, ◌+◌, ◌-◌, ◌*◌, ◌/◌, ◌%◌, ◌^◌, ℤ, pos, negsuc, ltb_ℤ, eqb_ℤ, Bool, false,
  ◌||◌, List, [], ◌∷◌, Option, none, some, ◌==◌, ltb, leb, if◌then◌else◌, length, get_elem?, take,
  drop,
}
use fraud_detection_api.Run.{Run, ok, panic, out_of_fuel, ◌>>=◌, or_panic}
use fraud_detection_api.Config.{vector_dim}
use fraud_detection_api.Vector.{Vector}

pub record Graph : Type 0 where
  pub n : ℕ
  pub m : ℕ
  pub m0 : ℕ
  pub vectors : List ℕ
  pub conn0 : List ℤ
  pub conn0_cnt : List ℕ
  pub labels : List ℕ
  pub upper_off : List ℤ
  pub upper_nodes : List ℤ
  pub upper_cnt : List ℕ
  pub upper_conn : List ℤ
  pub entry_point : ℕ
  pub max_layer : ℤ

-- `xs[i]`
abbrev pub fetch {ℓ} : {A : Type ℓ} → List A → ℕ → Run A
fetch xs i = or_panic (get_elem? xs i)

-- `xs[a:b]`
abbrev pub cut {ℓ} : {A : Type ℓ} → List A → ℕ → ℕ → Run (List A)
cut xs a b =
    if leb a b then (if leb b (length xs) then ok (take (b - a) (drop a xs)) else panic) else panic

-- `int(x)` as an index.
abbrev pub index_of : ℤ → Run ℕ
index_of (pos n) = ok n
index_of (negsuc n) = panic

-- The array pointer conversion of a slice of 14 bytes.
unfoldable pub to_vector : List ℕ → Run (Vector ℕ)
to_vector (a0 ∷ a1 ∷ a2 ∷ a3 ∷ a4 ∷ a5 ∷ a6 ∷ a7 ∷ a8 ∷ a9 ∷ a10 ∷ a11 ∷ a12 ∷ a13 ∷ rest) =
    ok (record {
      v0 = a0;
      v1 = a1;
      v2 = a2;
      v3 = a3;
      v4 = a4;
      v5 = a5;
      v6 = a6;
      v7 = a7;
      v8 = a8;
      v9 = a9;
      v10 = a10;
      v11 = a11;
      v12 = a12;
      v13 = a13;
    })
to_vector _ = panic

unfoldable pub vector_at : Graph → ℕ → Run (Vector ℕ)
vector_at g id = do s ← cut g.vectors (id * vector_dim) (id * vector_dim + vector_dim); to_vector s

unfoldable pub layer0_neighbors : Graph → ℕ → Run (List ℤ)
layer0_neighbors g id = do cnt ← fetch g.conn0_cnt id; cut g.conn0 (id * g.m0) (id * g.m0 + cnt)

-- `labels[id>>3]&(1<<(id&7)) != 0`
unfoldable pub is_fraud : Graph → ℕ → Run Bool
is_fraud g id = do b ← fetch g.labels (id / 8); ok ((b / 2 ^ (id % 8)) % 2 == 1)

unfoldable pub upper_nodes_of : Graph → ℕ → Run (List ℤ)
upper_nodes_of g layer =
    let nodes = do
      from ← fetch g.upper_off (layer - 1)
      to ← fetch g.upper_off layer
      a ← index_of from
      b ← index_of to
      cut g.upper_nodes a b
    in if ltb layer 1 || ltb_ℤ g.max_layer (pos layer) then ok [] else nodes

-- The binary search of `upperLocalIndex`, with fuel.
unfoldable pub search_loop : ℕ → List ℤ → ℤ → ℕ → ℕ → Run ℕ
search_loop zero nodes target lo hi = out_of_fuel
search_loop (suc k) nodes target lo hi =
    let mid = (lo + hi) / 2 in
    let right = search_loop k nodes target (mid + 1) hi in
    let left = search_loop k nodes target lo mid in
    let halve = (fetch nodes mid >>= λ x. if ltb_ℤ x target then right else left) in
    if ltb lo hi then halve else ok lo

-- `lo < len(nodes) && nodes[lo] == target`
abbrev pub found_at : List ℤ → ℤ → ℕ → Bool
found_at nodes target lo = elim (get_elem? nodes lo) [ none ↦ false | some x ↦ eqb_ℤ x target ]

-- `none` is -1.
unfoldable pub upper_local_index : Graph → ℕ → ℕ → Run (Option ℕ)
upper_local_index g id layer = do
  nodes ← upper_nodes_of g layer
  lo ← search_loop (suc (length nodes)) nodes (signed32 id) 0 (length nodes)
  ok (if found_at nodes (signed32 id) lo then some lo else none)

unfoldable pub upper_neighbors : Graph → ℕ → ℕ → Run (List ℤ)
upper_neighbors g id layer = do
  place ← upper_local_index g id layer
  elim place [
    | none ↦ ok []
    | some local ↦ (do
      from ← fetch g.upper_off (layer - 1)
      base ← index_of from
      cnt ← fetch g.upper_cnt (base + local)
      cut g.upper_conn ((base + local) * g.m) ((base + local) * g.m + cnt))
  ]
