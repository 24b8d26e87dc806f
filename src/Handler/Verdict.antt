-- ===== src/Handler/Verdict.antt =====
-- The precomputed responses against the JSON text that they stand for.
use fraud_detection_api.Base.{
  ℕ, zero, suc, ◌+◌, ◌*◌, ◌<◌, ◌≤◌, ◌≡◌, refl, ap, Bool, List, [], ◌∷◌, ◌++◌, All, get_or, tally,
  arith, Bytes, ltb, if◌then◌else◌, ◌==◌, ◌/◌, ◌%◌, ◌^◌,
}
use fraud_detection_api.Run.{ok}
use fraud_detection_api.Config.{codes}
use fraud_detection_api.Graph.{Graph, fetch, is_fraud}
use fraud_detection_api.Graph.WellFormed.{WellFormed, fetch-get_or}
use fraud_detection_api.Handler.{response_table, count_frauds}

-- k / 5, in decimal.
abbrev fifths : ℕ → Bytes
fifths k =
    if k == 0
    then codes "0"
    else if k == 5
    then codes "1"
    else (codes "0." ++ ((b'0' + 2 * k) ∷ []))

-- The body for `k` frauds of 5: approved below a score of 0.6.
unfoldable pub verdict : ℕ → Bytes
verdict k =
    codes "{\"approved\":"
    ++ (if ltb (2 * k) 6 then codes "true" else codes "false")
    ++ codes ",\"fraud_score\":"
    ++ fifths k
    ++ codes "}"

-- The node's bit in the label bitmap.
unfoldable pub labelled : Graph → ℕ → Bool
labelled g id = (get_or g.labels (id / 8) 0 / 2 ^ (id % 8)) % 2 == 1

is_fraud-labelled :
    (g : Graph) (id : ℕ) → WellFormed g → id < g.n → is_fraud g id ≡ ok (labelled g id)
unfolding is_fraud labelled
is_fraud-labelled g id w h =
    rw (fetch-get_or g.labels (id / 8) 0 (let e = w.labels_size in omega arith)) refl

pub count_frauds-tally :
    (g : Graph) (out : List ℕ) (count : ℕ)
    → WellFormed g
    → All (λ id. id < g.n) out
    → count_frauds g out count ≡ ok (tally (labelled g) out + count)
unfolding count_frauds
count_frauds-tally g [] count w h = ap ok (omega arith)
count_frauds-tally g (id ∷ out) count w h =
    rw
      (
        is_fraud-labelled g id w h.0,
        count_frauds-tally g out (if labelled g id then count + 1 else count) w h.1,
      )
      (ap ok (ground arith))

-- Every entry of the table is the verdict of its index.
pub response_table-verdict : (k : ℕ) → k ≤ 5 → fetch response_table k ≡ ok (verdict k)
unfolding response_table verdict
response_table-verdict zero h = refl
response_table-verdict (suc zero) h = refl
response_table-verdict (suc (suc zero)) h = refl
response_table-verdict (suc (suc (suc zero))) h = refl
response_table-verdict (suc (suc (suc (suc zero)))) h = refl
response_table-verdict (suc (suc (suc (suc (suc zero))))) h = refl
response_table-verdict (suc (suc (suc (suc (suc (suc k)))))) h = absurd (omega arith)
