-- ===== src/Persist.antt =====
-- internal/hnsw/persist.go: the graph file. A file is the list of its bytes; the errors of the
-- file system and the byte buffer that the loaded slices share are left out.
pub mod Load
pub mod Codec
pub mod Sections
pub mod Layout
pub mod RoundTrip
pub mod Checked
mod Tests
use fraud_detection_api.Base.{
  unsigned32, ℕ, zero, suc, ◌+◌, ◌-◌, ◌*◌, ◌/◌, ◌%◌, ◌^◌, ℤ, pos, negsuc, signed32, Bool, true,
  false, not, List, [], ◌∷◌, ◌++◌, ◌==◌, ltb, if◌then◌else◌, length, take, drop, replicate, Bytes,
  bytes_eq,
}
use fraud_detection_api.Run.{Run, ok, err, ◌>>=◌}
use fraud_detection_api.Config.{codes, vector_dim}
use fraud_detection_api.Graph.{Graph, cut}

abbrev pub magic_str : Bytes
magic_str = codes "RINHA26"

abbrev pub bin_format : ℕ
bin_format = 1

abbrev pub header_size : ℕ
header_size = 256

abbrev pub section_algn : ℕ
section_algn = 16

-- The offset and the length of a section.
pub record Span : Type 0 where
  pub off : ℕ
  pub len : ℕ

pub record Header : Type 0 where
  pub magic : Bytes
  pub version : ℕ
  pub n : ℕ
  pub m : ℕ
  pub m0 : ℕ
  pub entry_point : ℕ
  pub max_layer : ℤ
  pub vectors : Span
  pub conn0_cnt : Span
  pub conn0 : Span
  pub labels : Span
  pub upper_off : Span
  pub upper_nodes : Span
  pub upper_cnt : Span
  pub upper_conn : Span

-- `k` bytes, little-endian.
unfoldable pub le : ℕ → ℕ → Bytes
le zero x = []
le (suc k) x = (x % 256) ∷ le k (x / 256)

-- `int32Bytes`
unfoldable pub int32_bytes : List ℤ → Bytes
unfolding le
int32_bytes [] = []
int32_bytes (x ∷ xs) = le 4 (unsigned32 x) ++ int32_bytes xs

unfoldable pub concat : List Bytes → Bytes
concat [] = []
concat (field ∷ fields) = field ++ concat fields

-- `binary.Write` of the header, field by field.
unfoldable pub header_bytes : Header → Bytes
header_bytes h = concat (
    h.magic
    ∷ le 4 h.version
    ∷ le 4 h.n
    ∷ le 4 h.m
    ∷ le 4 h.m0
    ∷ le 4 h.entry_point
    ∷ le 4 (unsigned32 h.max_layer)
    ∷ le 8 h.vectors.off
    ∷ le 8 h.vectors.len
    ∷ le 8 h.conn0_cnt.off
    ∷ le 8 h.conn0_cnt.len
    ∷ le 8 h.conn0.off
    ∷ le 8 h.conn0.len
    ∷ le 8 h.labels.off
    ∷ le 8 h.labels.len
    ∷ le 8 h.upper_off.off
    ∷ le 8 h.upper_off.len
    ∷ le 8 h.upper_nodes.off
    ∷ le 8 h.upper_nodes.len
    ∷ le 8 h.upper_cnt.off
    ∷ le 8 h.upper_cnt.len
    ∷ le 8 h.upper_conn.off
    ∷ le 8 h.upper_conn.len
    ∷ [])

-- `writeSection`: the file so far, of length `pos`, is padded and gets the section.
unfoldable pub write_section : Bytes → Bytes → Bytes × Span
write_section file buf =
    let pad = length file % section_algn in
    let padded = if pad == 0 then file else file ++ replicate (section_algn - pad) 0 in
    (padded ++ buf, record { off = length padded; len = length buf })

-- The sections behind the reserved bytes, and the header that tells where they are.
unfoldable pub sections : Graph → Bytes × Header
sections g =
    let (file, vectors) = write_section (replicate header_size 0) g.vectors in
    let (file, conn0_cnt) = write_section file g.conn0_cnt in
    let (file, conn0) = write_section file (int32_bytes g.conn0) in
    let (file, labels) = write_section file g.labels in
    let (file, upper_off) = write_section file (int32_bytes g.upper_off) in
    let (file, upper_nodes) = write_section file (int32_bytes g.upper_nodes) in
    let (file, upper_cnt) = write_section file g.upper_cnt in
    let (file, upper_conn) = write_section file (int32_bytes g.upper_conn) in
    (
      file,
      record {
        magic = magic_str ++ 0 ∷ [];
        version = bin_format;
        n = g.n;
        m = g.m;
        m0 = g.m0;
        entry_point = g.entry_point;
        max_layer = g.max_layer;
        vectors = vectors;
        conn0_cnt = conn0_cnt;
        conn0 = conn0;
        labels = labels;
        upper_off = upper_off;
        upper_nodes = upper_nodes;
        upper_cnt = upper_cnt;
        upper_conn = upper_conn;
      },
    )

-- The file behind `Save`: the header is written last, over the reserved bytes.
unfoldable pub save : Graph → Bytes
save g = let (file, h) = sections g in header_bytes h ++ drop (length (header_bytes h)) file
