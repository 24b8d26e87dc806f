-- ===== src/Graph/Tests.antt =====
-- A graph of two nodes, of which one is labelled as fraud and one is on layer 1.
use fraud_detection_api.Base.{
  ℕ, zero, suc, ◌<◌, ◌≤◌, pos, negsuc, [], ◌∷◌, ◌++◌, replicate, refl, arith,
}
use fraud_detection_api.Run.{Returns}
use fraud_detection_api.Graph.{Graph, upper_local_index}
use fraud_detection_api.Graph.WellFormed.{WellFormed, UpperOk, offset}
use fraud_detection_api.Graph.Lookup.{Locates, layer_nodes}
use fraud_detection_api.Graph.Upper.{upper_local_index-Locates}

abbrev pub pair : Graph
pair = record {
  n = 2;
  m = 1;
  m0 = 1;
  vectors = replicate 14 0 ++ replicate 14 10;
  conn0 = pos 1 ∷ pos 0 ∷ [];
  conn0_cnt = 1 ∷ 1 ∷ [];
  labels = 2 ∷ [];
  upper_off = pos 0 ∷ pos 1 ∷ [];
  upper_nodes = pos 0 ∷ [];
  upper_cnt = 1 ∷ [];
  upper_conn = negsuc 0 ∷ [];
  entry_point = 0;
  max_layer = pos 1;
}

pair-offsets_le : (layer : ℕ) → layer ≤ 1 → offset pair layer ≤ 1
pair-offsets_le zero h = omega arith
pair-offsets_le (suc zero) h = omega arith
pair-offsets_le (suc (suc layer)) h = absurd (omega arith)

pair-offsets_mono : (layer : ℕ) → layer < 1 → offset pair layer ≤ offset pair (suc layer)
pair-offsets_mono zero h = omega arith
pair-offsets_mono (suc layer) h = absurd (omega arith)

pair-UpperOk : UpperOk pair
pair-UpperOk = record {
  top_ok = refl;
  offsets_size = refl;
  offsets_ok = ground arith;
  offsets_le = pair-offsets_le;
  offsets_mono = pair-offsets_mono;
  counts_size = refl;
  counts_le = ground arith;
  conns_size = refl;
  conns_ok = ground arith;
}

pub pair-WellFormed : WellFormed pair
pair-WellFormed = record {
  entry_ok = omega arith;
  size_ok = omega arith;
  vectors_size = refl;
  vectors_ok = ground arith;
  counts_size = refl;
  counts_le = ground arith;
  conns_size = refl;
  conns_ok = ground arith;
  labels_size = refl;
  upper_ok = pair-UpperOk;
}

upper_local_index-Locates_example :
    Returns (Locates (layer_nodes pair 1) (pos 0)) (upper_local_index pair 0 1)
upper_local_index-Locates_example =
    upper_local_index-Locates pair pair-UpperOk 0 0 (omega arith) λ i j p q. absurd (omega arith)
