-- ===== src/Persist/RoundTrip.antt =====
-- A saved graph is loaded back.
use fraud_detection_api.Base.{
  ◌+◌, ◌*◌, ◌/◌, ◌%◌, ◌^◌, ◌<◌, ◌≤◌, ◌≡◌, refl, ◌∙◌, ap, true, false, length, take, drop, All,
  Bytes, bytes_eq, bytes_eq_iff, arith, ltb, ◌==◌,
}
use fraud_detection_api.Run.{ok}
use fraud_detection_api.Graph.{Graph}
use fraud_detection_api.Persist.{
  magic_str, bin_format, Span, Header, sections, save, header_bytes, int32_bytes,
}
use fraud_detection_api.Persist.Load.{read_header, bind_sections, sizes_ok, load_from_bytes}
use fraud_detection_api.Persist.Codec.{
  IsInt32, SpanFits, HeaderFits, read_header-header_bytes, length-header_bytes, length-int32_bytes,
}
use fraud_detection_api.Persist.Sections.{
  Holds, Holds-header, Holds-end, bind_bytes-Holds, bind_int32-Holds,
}
use fraud_detection_api.Persist.Layout.{Laid, long, sections-Laid, take-append}

-- The graph that the file format can hold: numbers of the right width, and slices of the sizes
-- that the loader checks.
pub record Storable (g : Graph) : Type 0 where
  pub n_lt : g.n + 7 < 2 ^ 32
  pub m_lt : g.m < 2 ^ 32
  pub m0_lt : g.m0 < 2 ^ 32
  pub entry_lt : g.entry_point < 2 ^ 32
  pub max_layer_ok : IsInt32 g.max_layer
  pub conn0_ok : All IsInt32 g.conn0
  pub upper_off_ok : All IsInt32 g.upper_off
  pub upper_nodes_ok : All IsInt32 g.upper_nodes
  pub upper_conn_ok : All IsInt32 g.upper_conn
  pub vectors_size : length g.vectors ≡ g.n * 14
  pub conn0_size : length g.conn0 ≡ g.n * g.m0
  pub conn0_cnt_size : length g.conn0_cnt ≡ g.n
  pub labels_size : length g.labels ≡ (g.n + 7) / 8
  pub file_size : length (save g) < 2 ^ 64

module _ (g : Graph) (st : Storable g) where
  abbrev head : Header
  head = (sections g).1

  magic_size : length head.magic ≡ 8
  unfolding sections
  magic_size = refl

  -- The sections are where the header says, in the file that is saved.
  save-Laid : Laid g (save g) head
  unfolding save
  save-Laid =
      let l = sections-Laid g in
      let size : length (header_bytes head) ≤ 256 =
        omega (arith, length-header_bytes head magic_size) in
      let move =
        λ (sec : Bytes) (s : Span). Holds-header (header_bytes head) (sections g).0 sec s size in
      record {
        vectors_at = move _ _ l.vectors_at;
        conn0_cnt_at = move _ _ l.conn0_cnt_at;
        conn0_at = move _ _ l.conn0_at;
        labels_at = move _ _ l.labels_at;
        upper_off_at = move _ _ l.upper_off_at;
        upper_nodes_at = move _ _ l.upper_nodes_at;
        upper_cnt_at = move _ _ l.upper_cnt_at;
        upper_conn_at = move _ _ l.upper_conn_at;
      }

  span_fits : (sec : Bytes) (s : Span) → Holds (save g) sec s → SpanFits s
  span_fits sec s h =
      let small = st.file_size in
      (omega (arith, Holds-end (save g) sec s h), omega (arith, Holds-end (save g) sec s h))

  head-HeaderFits : HeaderFits head
  unfolding sections
  head-HeaderFits =
      let n = st.n_lt in
      let l = save-Laid in
      record {
        magic_size = refl;
        version_lt = omega arith;
        n_lt = omega arith;
        m_lt = st.m_lt;
        m0_lt = st.m0_lt;
        entry_lt = st.entry_lt;
        max_layer_ok = st.max_layer_ok;
        vectors_fit = span_fits _ _ l.vectors_at;
        conn0_cnt_fit = span_fits _ _ l.conn0_cnt_at;
        conn0_fit = span_fits _ _ l.conn0_at;
        labels_fit = span_fits _ _ l.labels_at;
        upper_off_fit = span_fits _ _ l.upper_off_at;
        upper_nodes_fit = span_fits _ _ l.upper_nodes_at;
        upper_cnt_fit = span_fits _ _ l.upper_cnt_at;
        upper_conn_fit = span_fits _ _ l.upper_conn_at;
      }

  pub read_header-save : read_header (take 256 (save g)) ≡ ok head
  unfolding save
  read_header-save =
      let bytes = header_bytes head in
      ap read_header (
        take-append 256 bytes (drop (length bytes) (sections g).0)
          (omega (arith, length-header_bytes head magic_size)))
      ∙ read_header-header_bytes head _ head-HeaderFits

  bind_sections-save : bind_sections (save g) head ≡ ok g
  unfolding bind_sections sections
  bind_sections-save =
      let l = save-Laid in
      let small = st.file_size in
      rw
        (
          bind_bytes-Holds (save g) small g.vectors head.vectors l.vectors_at,
          bind_bytes-Holds (save g) small g.conn0_cnt head.conn0_cnt l.conn0_cnt_at,
          bind_int32-Holds (save g) small g.conn0 head.conn0 st.conn0_ok l.conn0_at,
          bind_bytes-Holds (save g) small g.labels head.labels l.labels_at,
          bind_int32-Holds (save g) small g.upper_off head.upper_off st.upper_off_ok l.upper_off_at,
          bind_int32-Holds (save g) small g.upper_nodes head.upper_nodes st.upper_nodes_ok
              l.upper_nodes_at,
          bind_bytes-Holds (save g) small g.upper_cnt head.upper_cnt l.upper_cnt_at,
          bind_int32-Holds (save g) small g.upper_conn head.upper_conn st.upper_conn_ok
              l.upper_conn_at,
        )
        refl

  sizes_ok-save : sizes_ok g ≡ ok g
  unfolding sizes_ok
  sizes_ok-save =
      let n = st.n_lt in
      let l = save-Laid in
      let small = st.file_size in
      let nodes = st.conn0_cnt_size in
      let table = st.conn0_size in
      let sized = length-int32_bytes g.conn0 ∙ refl in
      let wide = l.conn0_at.len_is in
      let vectors : (length g.vectors == (g.n * 14) % 2 ^ 64) ≡ true =
        (let e = st.vectors_size in ground arith) in
      let conn0 : (length g.conn0 == (g.n * g.m0) % 2 ^ 64) ≡ true =
        (let e : (g.n * g.m0) % 2 ^ 64 ≡ g.n * g.m0 =
            omega (arith, Holds-end (save g) (int32_bytes g.conn0) head.conn0 l.conn0_at) in
          ground arith) in
      let counts : (length g.conn0_cnt == g.n) ≡ true = ground arith in
      let labels : (length g.labels == ((g.n + 7) % 2 ^ 32) / 8) ≡ true =
        (let e = st.labels_size in ground arith) in
      rw (vectors, conn0, counts, labels) refl

  magic_ok : bytes_eq (take 7 head.magic) magic_str ≡ true
  unfolding sections
  magic_ok = let (to, from) = bytes_eq_iff (take 7 head.magic) magic_str in from refl

  version_ok : (head.version == bin_format) ≡ true
  unfolding sections
  version_ok = refl

  -- A graph that the file format can hold is loaded back from the file that it is saved to: the
  -- loader accepts the file, and every number and every slice of the graph is as before.
  pub load_from_bytes-save : load_from_bytes (save g) ≡ ok g
  unfolding load_from_bytes
  load_from_bytes-save =
      let big : ltb (length (save g)) 256 ≡ false =
        (let l = long (save g) g.vectors head.vectors save-Laid.vectors_at in ground arith) in
      rw (big, read_header-save, magic_ok, version_ok, bind_sections-save, sizes_ok-save) refl
