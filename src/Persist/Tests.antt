-- ===== src/Persist/Tests.antt =====
-- Saving and loading a graph of two nodes.
use fraud_detection_api.Base.{sym, subst, ◌∙◌, ◌-◌, ◌^◌, ◌≡◌, refl, length, replicate, arith}
use fraud_detection_api.Run.{ok-injective, ok, panic}
use fraud_detection_api.Graph.Tests.{pair}
use fraud_detection_api.Persist.{
  le, int32_bytes, concat, header_bytes, write_section, sections, save,
}
use fraud_detection_api.Persist.Load.{bind_bytes, load_from_bytes}
use fraud_detection_api.Persist.Checked.{
  Settles, SizesChecked, HeaderUnwrapped, load_from_bytes-SizesChecked,
}
use fraud_detection_api.Persist.RoundTrip.{Storable, read_header-save, load_from_bytes-save}

pair-size : length (save pair) ≡ 388
unfolding save sections write_section header_bytes concat int32_bytes le
pair-size = refl

pair-Storable : Storable pair
pair-Storable = record {
  n_lt = omega arith;
  m_lt = omega arith;
  m0_lt = omega arith;
  entry_lt = omega arith;
  max_layer_ok = omega arith;
  conn0_ok = ground arith;
  upper_off_ok = ground arith;
  upper_nodes_ok = ground arith;
  upper_conn_ok = ground arith;
  vectors_size = refl;
  conn0_size = refl;
  conn0_cnt_size = refl;
  labels_size = refl;
  file_size = omega (arith, pair-size);
}

load_from_bytes-save_example : load_from_bytes (save pair) ≡ ok pair
load_from_bytes-save_example = load_from_bytes-save pair pair-Storable

pair-HeaderUnwrapped : HeaderUnwrapped (sections pair).1
unfolding sections write_section int32_bytes le
pair-HeaderUnwrapped = record {
  vectors_ok = omega arith;
  conn0_cnt_ok = omega arith;
  conn0_ok = omega arith;
  labels_ok = omega arith;
  upper_off_ok = omega arith;
  upper_nodes_ok = omega arith;
  upper_cnt_ok = omega arith;
  upper_conn_ok = omega arith;
}

load_from_bytes-SizesChecked_example : Settles SizesChecked (load_from_bytes (save pair))
load_from_bytes-SizesChecked_example = load_from_bytes-SizesChecked (save pair) λ h read.
    subst HeaderUnwrapped (ok-injective (sym (read_header-save pair pair-Storable) ∙ read))
      pair-HeaderUnwrapped

-- An offset and a length whose sum wraps around pass the bounds check, and the slice panics.
wrapped : bind_bytes (replicate 300 0) (record { off = 2 ^ 64 - 8; len = 16 }) ≡ panic
unfolding bind_bytes
wrapped = refl
