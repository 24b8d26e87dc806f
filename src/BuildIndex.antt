-- ===== src/BuildIndex.antt =====
-- internal/buildindex/buildindex.go: `StreamRecords` and `BuildIndex`. What encoding/json decodes of the
-- input is an argument; the progress callback, which only prints, is left out.
pub mod Built
pub mod Asked
mod Tests
use fraud_detection_api.Base.{
  leb, if◌then◌else◌, Bytes, bytes_eq, ℤ, ℕ, ◌+◌, ◌%◌, ◌^◌, Bool, true, false, Option, none, some,
  List, [], ◌∷◌,
}
use fraud_detection_api.Build.{Builder, label_fraud}
use fraud_detection_api.Build.Insert.{insert}
use fraud_detection_api.Build.Select.{Sorter}
use fraud_detection_api.Config.{codes}
use fraud_detection_api.Quantize.{quantize_vector}
use fraud_detection_api.Run.{◌>>=◌, Run, ok}
use fraud_detection_api.Runtime.{Runtime}
use fraud_detection_api.Vector.{Vector}

module _ (go : Runtime) where
  open go use {Float32}

  pub record Record : Type 0 where
    pub vector : Vector Float32
    pub label : Bytes

  -- What the decoder gives: the opening token (an error, or whether it is `[`), and the records, in
  -- order, up to the first one that it cannot decode.
  pub record Input : Type 0 where
    pub opening : Option Bool
    pub records : List (Option Record)

  -- The loop over the records. `fn` and the loop end with the state and whether there is an error.
  unfoldable pub stream_loop {ℓ} :
      {S : Type ℓ}
      → (ℕ → Record → S → Run (S × Bool))
      → ℕ
      → List (Option Record)
      → S
      → Run (S × Bool)
  stream_loop fn idx [] s = ok (s, false)
  stream_loop fn idx (none ∷ rest) s = ok (s, true)
  stream_loop fn idx (some r ∷ rest) s = do
    (t, failed) ← fn idx r s
    let next = stream_loop fn ((idx + 1) % 2 ^ 32) rest t
    if failed then ok (t, true) else next

  unfoldable pub stream_records {ℓ} :
      {S : Type ℓ} → (ℕ → Record → S → Run (S × Bool)) → Input → S → Run (S × Bool)
  unfolding stream_loop
  stream_records fn input s = elim input.opening [
    | none ↦ ok (s, true)
    | some false ↦ ok (s, true)
    | some true ↦ stream_loop fn 0 input.records s
  ]

  abbrev pub is_fraud_label : Record → Bool
  is_fraud_label r = bytes_eq r.label (codes "fraud")

  -- The callback of `BuildIndex`, on the builder and the count of inserted records.
  unfoldable pub insert_record :
      Sorter → (ℕ → ℤ) → ℕ → Record → Builder × ℕ → Run ((Builder × ℕ) × Bool)
  insert_record sorter draw idx r (b, inserted) =
      let add = do
        b' ←
            insert sorter b idx (quantize_vector go r.vector)
              (if is_fraud_label r then label_fraud else 0) (draw idx)
        ok ((b', (idx + 1) % 2 ^ 32), false)
      in if leb b.graph.n idx then ok ((b, inserted), true) else add

  unfoldable pub build_index : Sorter → (ℕ → ℤ) → Input → Builder → Run ((Builder × ℕ) × Bool)
  unfolding stream_records insert_record
  build_index sorter draw input b = stream_records (insert_record sorter draw) input (b, 0)
