-- ===== src/Build/Stored.antt =====
-- What an insertion stores of a node: its vector and its label, which are found again.
use mathlib.Core.Path.{ap₂}
use native.Mathlib.Decide.{ℕ_discrete, dec_lt}
use fraud_detection_api.Base.{
  ◌==◌, if◌then◌else◌, length, set, get_or, take, drop, length-set, length-cut, get_or-set,
  get_or-take, get_or-drop, ℕ, suc, ◌+◌, ◌-◌, ◌*◌, ◌/◌, ◌%◌, ◌≤◌, ◌<◌, ◌≡◌, refl, sym, ap, ◌∙◌, ◌≢◌,
  Bool, true, false, List, [], ◌∷◌, arith,
}
use fraud_detection_api.Build.{set_label, entries}
use fraud_detection_api.Build.Bits.{bit, put_bit, bit-put_bit}
use fraud_detection_api.Build.Copy.{Copied}
use fraud_detection_api.Graph.{Graph, to_vector, vector_at, is_fraud}
use fraud_detection_api.Graph.WellFormed.{fetch-get_or, cut-take}
use fraud_detection_api.Query.Admit.{store-set}
use fraud_detection_api.Run.{Returns, ok, returns}
use fraud_detection_api.Vector.{Vector}

get_or-ext {ℓ} :
    {A : Type ℓ} (xs ys : List A) (d : A)
    → length xs ≡ length ys
    → ((j : ℕ) → j < length xs → get_or xs j d ≡ get_or ys j d)
    → xs ≡ ys
get_or-ext [] [] d l h = refl
get_or-ext [] (y ∷ ys) d l h = absurd (omega arith)
get_or-ext (x ∷ xs) [] d l h = absurd (omega arith)
get_or-ext (x ∷ xs) (y ∷ ys) d l h =
    ap₂ ◌∷◌ (h 0 (omega arith)) (get_or-ext xs ys d (omega arith) λ j p. h (suc j) (omega arith))

-- The 14 bytes of a node.
row_at : List ℕ → ℕ → List ℕ
row_at xs id = take (id * 14 + 14 - id * 14) (drop (id * 14) xs)

row_at-length : (xs : List ℕ) (id : ℕ) → id * 14 + 14 ≤ length xs → length (row_at xs id) ≡ 14
unfolding row_at
row_at-length xs id h = omega (arith, length-cut {0} xs (id * 14) (id * 14 + 14) (omega arith) h)

row_at-get_or :
    (xs : List ℕ) (id j : ℕ) → j < 14 → get_or (row_at xs id) j 0 ≡ get_or xs (id * 14 + j) 0
unfolding row_at
row_at-get_or xs id j h =
    get_or-take (id * 14 + 14 - id * 14) (drop (id * 14) xs) j 0 (omega arith)
    ∙ get_or-drop (id * 14) xs j 0

vector_at-row :
    (g : Graph) (id : ℕ)
    → id * 14 + 14 ≤ length g.vectors
    → vector_at g id ≡ to_vector (row_at g.vectors id)
unfolding vector_at row_at
vector_at-row g id h = rw (cut-take g.vectors (id * 14) (id * 14 + 14) (omega arith) h) refl

module _ (g : Graph) (vectors : List ℕ) (id : ℕ) (v : Vector ℕ) (h : id < g.n)
    (size : length g.vectors ≡ g.n * 14) (c : Copied g.vectors (id * 14) (entries v) vectors) where
  pub vector_at-new : vector_at (record g { vectors = vectors }) id ≡ ok v
  unfolding to_vector
  vector_at-new =
      let len = c.size in
      let e : row_at vectors id ≡ entries v =
        get_or-ext (row_at vectors id) (entries v) 0 (row_at-length vectors id (omega arith)) λ j l.
          let short : j < 14 = (let s = row_at-length vectors id (omega arith) in omega arith) in
          row_at-get_or vectors id j short ∙ c.new j 0 short in
      vector_at-row (record g { vectors = vectors }) id (omega arith) ∙ ap to_vector e

  pub vector_at-old :
      (other : ℕ)
      → other < g.n
      → other ≢ id
      → vector_at (record g { vectors = vectors }) other ≡ vector_at g other
  vector_at-old other l apart_from =
      let len = c.size in
      let e : row_at vectors other ≡ row_at g.vectors other =
        get_or-ext (row_at vectors other) (row_at g.vectors other) 0
          (row_at-length vectors other (omega arith)
            ∙ sym (row_at-length g.vectors other (omega arith)))
          λ j p.
            let short : j < 14 =
              (let s = row_at-length vectors other (omega arith) in omega arith) in
            row_at-get_or vectors other j short
            ∙ elim (dec_lt other id) [
              | yes below ↦ c.old_below (other * 14 + j) 0 (omega arith)
              | no above ↦ c.old_above (other * 14 + j) 0 (omega arith)
            ]
            ∙ sym (row_at-get_or g.vectors other j short) in
      vector_at-row (record g { vectors = vectors }) other (omega arith)
      ∙ ap to_vector e
      ∙ sym (vector_at-row g other (omega arith))

-- A label that is set is found again, and the labels of the other nodes stay.
pub record Labelled (g : Graph) (id label : ℕ) (g' : Graph) : Type 0 where
  pub others : g' ≡ record g { labels = g'.labels }
  pub size : length g'.labels ≡ length g.labels
  pub reads :
      (other : ℕ)
      → other < g.n
      → is_fraud g' other ≡ (if id == other then ok (label == 1) else is_fraud g other)

if_ok : (t x y : Bool) → ok (if t then x else y) ≡ (if t then ok x else ok y)
if_ok true x y = refl
if_ok false x y = refl

label_reads :
    (g : Graph) (id label other : ℕ)
    → id < g.n
    → other < g.n
    → length g.labels ≡ (g.n + 7) / 8
    → (let x = get_or g.labels (id / 8) 0 in
        let g' = record g { labels = set g.labels (id / 8) (put_bit (label == 1) x (id % 8)) } in
        is_fraud g' other ≡ (if id == other then ok (label == 1) else is_fraud g other))
unfolding is_fraud
label_reads g id label other h l size =
    let x = get_or g.labels (id / 8) 0 in
    let x' = put_bit (label == 1) x (id % 8) in
    let labels = set g.labels (id / 8) x' in
    let len = length-set g.labels (id / 8) x' in
    let at = get_or-set g.labels (id / 8) (other / 8) x' 0 (omega arith) in
    let read = bit-put_bit (label == 1) x (id % 8) (other % 8) in
    let old = get_or g.labels (other / 8) 0 in
    let z = get_or labels (other / 8) 0 in
    let value : (bit z (other % 8) == 1)
        ≡ (if id == other then label == 1 else bit old (other % 8) == 1) =
      elim (ℕ_discrete (id / 8) (other / 8)) [
        | yes same ↦
            let z_eq : z ≡ x' = ground arith in
            let z_bit = ap (λ y. bit y (other % 8)) z_eq in
            let x_bit = ap (λ i. bit (get_or g.labels i 0) (other % 8)) same in
            elim (ℕ_discrete (id % 8) (other % 8)) [
              | yes one ↦ let e : id ≡ other = omega arith in ground arith
              | no two ↦ let e : id ≢ other = (λ p. two (ap (λ i. i % 8) p)) in ground arith
            ]
        | no far_off ↦
            let z_eq : z ≡ old = ground arith in
            let z_bit = ap (λ y. bit y (other % 8)) z_eq in
            let e : id ≢ other = (λ p. far_off (ap (λ i. i / 8) p)) in ground arith
      ] in
    rw
      (
        fetch-get_or labels (other / 8) 0 (omega arith),
        fetch-get_or g.labels (other / 8) 0 (omega arith),
      )
      (ap ok value ∙ if_ok (id == other) (label == 1) (bit old (other % 8) == 1))

-- With a full table of labels, `SetLabel` on a node does not panic and changes the labels only:
-- `IsFraud` of that node is then whether the label is 1, and that of every other node is as before.
pub set_label-Labelled :
    (g : Graph) (id label : ℕ)
    → id < g.n
    → length g.labels ≡ (g.n + 7) / 8
    → Returns (Labelled g id label) (set_label g id label)
unfolding set_label
set_label-Labelled g id label h size =
    let x = get_or g.labels (id / 8) 0 in
    let x' = put_bit (label == 1) x (id % 8) in
    rw
      (fetch-get_or g.labels (id / 8) 0 (omega arith), store-set g.labels (id / 8) x' (omega arith))
      (returns (record {
        others = refl;
        size = length-set g.labels (id / 8) x';
        reads = λ other l. label_reads g id label other h l size;
      }))
