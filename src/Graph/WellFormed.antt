-- ===== src/Graph/WellFormed.antt =====
-- When the slices of a graph fit together, and that its accessors then never panic.
use fraud_detection_api.Base.{
  ℕ, suc, ◌+◌, ◌-◌, ◌*◌, ◌/◌, ◌^◌, ◌<◌, ◌≤◌, ◌≡◌, refl, ℤ, pos, negsuc, pos_part, neg_part, List,
  ◌∷◌, length, get_or, get_elem?-get_or, take, drop, length-cut, All, All-take, All-drop,
  All-get_or, arith, le→leb,
}
use fraud_detection_api.Run.{ok, Returns, returns}
use fraud_detection_api.Vector.{Each}
use fraud_detection_api.Dist.Bounds.{IsByte}
use fraud_detection_api.Graph.{
  Graph, fetch, cut, index_of, to_vector, vector_at, layer0_neighbors, is_fraud,
}

-- A neighbor entry: the sentinel -1, or the id of a node below `n`.
abbrev pub InRange : ℕ → ℤ → Type 0
InRange n (pos k) = k < n
InRange n (negsuc _) = Unit {0}

-- The layers above layer 0 are runs of `upper_nodes`, from one offset to the next.
abbrev pub offset : Graph → ℕ → ℕ
offset g layer = pos_part (get_or g.upper_off layer (pos 0))

abbrev pub top : Graph → ℕ
top g = pos_part g.max_layer

pub record UpperOk (g : Graph) : Type 0 where
  pub top_ok : neg_part g.max_layer ≡ 0
  pub offsets_size : length g.upper_off ≡ suc (top g)
  pub offsets_ok : All (λ x. neg_part x ≡ 0) g.upper_off
  pub offsets_le : (layer : ℕ) → layer ≤ top g → offset g layer ≤ length g.upper_nodes
  pub offsets_mono : (layer : ℕ) → layer < top g → offset g layer ≤ offset g (suc layer)
  pub counts_size : length g.upper_cnt ≡ length g.upper_nodes
  pub counts_le : All (λ c. c ≤ g.m) g.upper_cnt
  pub conns_size : length g.upper_conn ≡ length g.upper_nodes * g.m
  pub conns_ok : All (InRange g.n) g.upper_conn

-- The table of vectors is full, of bytes.
pub record VectorsOk (g : Graph) : Type 0 where
  pub size : length g.vectors ≡ g.n * 14
  pub bytes : All IsByte g.vectors

pub record WellFormed (g : Graph) : Type 0 where
  pub entry_ok : g.entry_point < g.n
  pub size_ok : g.n < 2 ^ 31
  pub vectors_size : length g.vectors ≡ g.n * 14
  pub vectors_ok : All IsByte g.vectors
  pub counts_size : length g.conn0_cnt ≡ g.n
  pub counts_le : All (λ c. c ≤ g.m0) g.conn0_cnt
  pub conns_size : length g.conn0 ≡ g.n * g.m0
  pub conns_ok : All (InRange g.n) g.conn0
  pub labels_size : length g.labels ≡ (g.n + 7) / 8
  pub upper_ok : UpperOk g

pub WellFormed-VectorsOk : (g : Graph) → WellFormed g → VectorsOk g
WellFormed-VectorsOk g w = record { size = w.vectors_size; bytes = w.vectors_ok }

pub fetch-get_or {ℓ} :
    {A : Type ℓ} (xs : List A) (i : ℕ) (d : A) → i < length xs → fetch xs i ≡ ok (get_or xs i d)
fetch-get_or xs i d h = rw (get_elem?-get_or xs i d h)

pub cut-take {ℓ} :
    {A : Type ℓ} (xs : List A) (a b : ℕ)
    → a ≤ b
    → b ≤ length xs
    → cut xs a b ≡ ok (take (b - a) (drop a xs))
cut-take xs a b h k = rw (le→leb a b h, le→leb b (length xs) k)

pub index_of-pos_part : (x : ℤ) → neg_part x ≡ 0 → index_of x ≡ ok (pos_part x)
index_of-pos_part (pos n) h = refl
index_of-pos_part (negsuc n) h = absurd (omega arith)

-- The last entry of a row lies in the table.
pub row_end : (i n w c : ℕ) → i < n → c ≤ w → i * w + c ≤ n * w
row_end i n w c h k = grind arith

to_vector-Each :
    (xs : List ℕ) → length xs ≡ 14 → All IsByte xs → Returns (Each IsByte) (to_vector xs)
unfolding to_vector
to_vector-Each (a0 ∷ a1 ∷ a2 ∷ a3 ∷ a4 ∷ a5 ∷ a6 ∷ a7 ∷ a8 ∷ a9 ∷ a10 ∷ a11 ∷ a12 ∷ a13 ∷ rest) e
      h =
    returns (ground arith)
to_vector-Each _ e h = absurd (omega arith)

module _ (g : Graph) (w : VectorsOk g) (id : ℕ) (h : id < g.n) where
  pub vector_at-Each : Returns (Each IsByte) (vector_at g id)
  unfolding vector_at
  vector_at-Each =
      let inside : id * 14 + 14 ≤ length g.vectors = (let e = w.size in omega arith) in
      rw (cut-take g.vectors (id * 14) (id * 14 + 14) (omega arith) inside) (
        to_vector-Each _
          (omega (arith, length-cut {0} g.vectors (id * 14) (id * 14 + 14) (omega arith) inside))
          (All-take IsByte _ _ (All-drop IsByte _ _ w.bytes)))

module _ (g : Graph) (w : WellFormed g) (id : ℕ) (h : id < g.n) where
  pub layer0_neighbors-All : Returns (All (InRange g.n)) (layer0_neighbors g id)
  unfolding layer0_neighbors
  layer0_neighbors-All =
      let inside : id < length g.conn0_cnt = (let e = w.counts_size in omega arith) in
      let fits = All-get_or (λ c. c ≤ g.m0) g.conn0_cnt id 0 w.counts_le inside in
      let stop : id * g.m0 + get_or g.conn0_cnt id 0 ≤ length g.conn0 =
        (let e = w.conns_size in
          omega (arith, row_end id g.n g.m0 (get_or g.conn0_cnt id 0) h fits)) in
      rw
        (
          fetch-get_or g.conn0_cnt id 0 inside,
          cut-take g.conn0 (id * g.m0) (id * g.m0 + get_or g.conn0_cnt id 0) (omega arith) stop,
        )
        (returns (All-take (InRange g.n) _ _ (All-drop (InRange g.n) _ _ w.conns_ok)))

  pub is_fraud-ok : Returns (λ _. Unit {0}) (is_fraud g id)
  unfolding is_fraud
  is_fraud-ok =
      rw (fetch-get_or g.labels (id / 8) 0 (let e = w.labels_size in omega arith)) (returns tt)
