-- ===== src/Persist/Load.antt =====
-- internal/hnsw/persist.go: `loadFromBytes`, the header, the sections and the checks of their sizes.
use fraud_detection_api.Base.{
  ℕ, zero, suc, ◌+◌, ◌*◌, ◌/◌, ◌%◌, ◌^◌, ℤ, signed32, Bool, not, List, [], ◌∷◌, ◌==◌, ltb,
  if◌then◌else◌, length, take, Bytes, bytes_eq,
}
use fraud_detection_api.Run.{Run, ok, err, ◌>>=◌}
use fraud_detection_api.Config.{vector_dim}
use fraud_detection_api.Graph.{Graph, cut}
use fraud_detection_api.Persist.{magic_str, bin_format, header_size, Span, Header}

-- `binary.Read` of one field: too few bytes are an error.
unfoldable pub read_le : ℕ → Bytes → Run (ℕ × Bytes)
read_le zero bytes = ok (0, bytes)
read_le (suc k) [] = err
read_le (suc k) (b ∷ bytes) = do (x, rest) ← read_le k bytes; ok (b + 256 * x, rest)

unfoldable pub read_raw : ℕ → Bytes → Run (Bytes × Bytes)
read_raw zero bytes = ok ([], bytes)
read_raw (suc k) [] = err
read_raw (suc k) (b ∷ bytes) = do (s, rest) ← read_raw k bytes; ok (b ∷ s, rest)

unfoldable pub read_span : Bytes → Run (Span × Bytes)
unfolding read_le
read_span bytes = do
  (off, bytes) ← read_le 8 bytes
  (len, bytes) ← read_le 8 bytes
  ok (record { off = off; len = len }, bytes)

unfoldable pub read_header : Bytes → Run Header
unfolding read_le read_raw read_span
read_header bytes = do
  (magic, bytes) ← read_raw 8 bytes
  (version, bytes) ← read_le 4 bytes
  (n, bytes) ← read_le 4 bytes
  (m, bytes) ← read_le 4 bytes
  (m0, bytes) ← read_le 4 bytes
  (entry_point, bytes) ← read_le 4 bytes
  (max_layer, bytes) ← read_le 4 bytes
  (vectors, bytes) ← read_span bytes
  (conn0_cnt, bytes) ← read_span bytes
  (conn0, bytes) ← read_span bytes
  (labels, bytes) ← read_span bytes
  (upper_off, bytes) ← read_span bytes
  (upper_nodes, bytes) ← read_span bytes
  (upper_cnt, bytes) ← read_span bytes
  (upper_conn, bytes) ← read_span bytes
  ok (record {
    magic = magic;
    version = version;
    n = n;
    m = m;
    m0 = m0;
    entry_point = entry_point;
    max_layer = signed32 max_layer;
    vectors = vectors;
    conn0_cnt = conn0_cnt;
    conn0 = conn0;
    labels = labels;
    upper_off = upper_off;
    upper_nodes = upper_nodes;
    upper_cnt = upper_cnt;
    upper_conn = upper_conn;
  })

-- `end := off + length` wraps around.
unfoldable pub bind_bytes : Bytes → Span → Run Bytes
bind_bytes file s =
    let end = (s.off + s.len) % 2 ^ 64 in if ltb (length file) end then err else cut file s.off end

-- The int32 view of bytes, little-endian.
unfoldable pub int32s : Bytes → List ℤ
int32s (a ∷ b ∷ c ∷ d ∷ rest) = signed32 (a + 256 * (b + 256 * (c + 256 * d))) ∷ int32s rest
int32s _ = []

-- `&data[off]` panics beyond the data, and `unsafe.Slice` on a length beyond the address space;
-- a length that only reaches behind the file cannot pass the first test without that.
unfoldable pub bind_int32 : Bytes → Span → Run (List ℤ)
unfolding int32s
bind_int32 file s =
    let end = (s.off + s.len) % 2 ^ 64 in
    if ltb (length file) end
    then err
    else if not (s.len % 4 == 0)
    then err
    else if s.len == 0
    then ok []
    else if not (s.off % 4 == 0)
    then err
    else (do view ← cut file s.off (s.off + s.len); ok (int32s view))

-- An `if` that returns an error.
abbrev pub require {ℓ} : {A : Type ℓ} → Bool → Run A → Run A
require test next = if test then next else err

-- A product of ints wraps around at 2 ^ 64, and `g.N + 7` at 2 ^ 32.
unfoldable pub sizes_ok : Graph → Run Graph
sizes_ok g = require (length g.vectors == (g.n * vector_dim) % 2 ^ 64) (
    require (length g.conn0 == (g.n * g.m0) % 2 ^ 64) (
      require (length g.conn0_cnt == g.n)
        (require (length g.labels == ((g.n + 7) % 2 ^ 32) / 8) (ok g))))

unfoldable pub bind_sections : Bytes → Header → Run Graph
unfolding bind_bytes bind_int32
bind_sections file h = do
  vectors ← bind_bytes file h.vectors
  conn0_cnt ← bind_bytes file h.conn0_cnt
  conn0 ← bind_int32 file h.conn0
  labels ← bind_bytes file h.labels
  upper_off ← bind_int32 file h.upper_off
  upper_nodes ← bind_int32 file h.upper_nodes
  upper_cnt ← bind_bytes file h.upper_cnt
  upper_conn ← bind_int32 file h.upper_conn
  ok (record {
    n = h.n;
    m = h.m;
    m0 = h.m0;
    vectors = vectors;
    conn0 = conn0;
    conn0_cnt = conn0_cnt;
    labels = labels;
    upper_off = upper_off;
    upper_nodes = upper_nodes;
    upper_cnt = upper_cnt;
    upper_conn = upper_conn;
    entry_point = h.entry_point;
    max_layer = h.max_layer;
  })

unfoldable pub load_from_bytes : Bytes → Run Graph
unfolding read_header sizes_ok bind_sections
load_from_bytes file = require (not (ltb (length file) header_size)) (do
  h ← read_header (take header_size file)
  require (bytes_eq (take 7 h.magic) magic_str)
      (require (h.version == bin_format) (do g ← bind_sections file h; sizes_ok g)))
