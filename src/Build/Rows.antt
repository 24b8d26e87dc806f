-- ===== src/Build/Rows.antt =====
-- The table of layer 0 behind an edge that is added, and behind a row that is rewritten.
use native.Mathlib.Decide.{ℕ_discrete, dec_lt}
use fraud_detection_api.Base.{
  ltb, ◌==◌, if◌then◌else◌, length, set, get_or, replicate, All, length-append, length-set,
  length-replicate, All-get_or, All-append, All-set, All-replicate, ℤ, signed32, pos, negsuc,
  tally-le, get_or-set, get_or-append, ℕ, suc, ◌+◌, ◌-◌, ◌*◌, ◌%◌, ◌^◌, ◌≤◌, ◌<◌, ◌≡◌, refl, sym,
  ap, ◌∙◌, subst, ◌≢◌, true, false, List, [], ◌∷◌, ◌++◌, arith,
}
use fraud_detection_api.Build.{Builder}
use fraud_detection_api.Build.Connect.{ids_of, write_row}
use fraud_detection_api.Build.Copy.{Copied, copy_at-Copied, copy_at-All, Returns-both, row_below}
use fraud_detection_api.Build.Diverse.{Within}
use fraud_detection_api.Build.Linked.{Linked, Step}
use fraud_detection_api.Build.Links.{IsNode, All-IsNode}
use fraud_detection_api.Graph.WellFormed.{InRange, row_end}
use fraud_detection_api.Parse.Grammar.{items}
use fraud_detection_api.Persist.{le}
use fraud_detection_api.Query.Admit.{store-set}
use fraud_detection_api.Query.Heap.{DistItem}
use fraud_detection_api.Run.{Returns, Returns-bind, returns}

row_above : (i r w : ℕ) → r < i → r * w + w ≤ i * w
row_above i r w h = grind arith

-- The nodes of chosen items.
ids_of-IsNode :
    (k : ℕ) (items : List DistItem) → k < 2 ^ 31 → Within k items → All (IsNode k) (ids_of items)
ids_of-IsNode k [] h w = tt
ids_of-IsNode k (c ∷ items) h w =
    let most = tally-le (λ x. ltb x.id k) items in
    let low : c.id < k = ground arith in
    let exact : signed32 c.id ≡ pos c.id = ground arith in
    (subst (IsNode k) (sym exact) low, ids_of-IsNode k items h (ground arith))

pub ids_of-All :
    (k n : ℕ) (items : List DistItem)
    → k ≤ n
    → n < 2 ^ 31
    → Within k items
    → All (IsNode k) (ids_of items)
ids_of-All k n items h l w = ids_of-IsNode k items (omega arith) w

pub length-ids_of : (items : List DistItem) → length (ids_of items) ≡ length items
length-ids_of [] = refl
length-ids_of (c ∷ items) = ap suc (length-ids_of items)

module _ (k : ℕ) (b : Builder) (o : Linked k b) where
  -- New tables of layer 0 that are sound.
  table-Step :
      (conns : List ℤ) (cnts : List ℕ)
      → length conns ≡ length b.graph.conn0
      → length cnts ≡ length b.graph.conn0_cnt
      → All (InRange k) conns
      → All (λ c. c ≤ b.graph.m0) cnts
      → ((i j : ℕ)
          → i < b.graph.n
          → j < get_or cnts i 0
          → IsNode k (get_or conns (i * b.graph.m0 + j) (negsuc 0)))
      → Step k b (record b { graph = record b.graph { conn0 = conns; conn0_cnt = cnts } })
  table-Step conns cnts conns_len cnts_len ranges le rows = (
    record {
      size_ok = o.size_ok;
      bound = o.bound;
      m_le = o.m_le;
      m0_le = o.m0_le;
      vectors_ok = record { size = o.vectors_ok.size; bytes = o.vectors_ok.bytes };
      counts_size = cnts_len ∙ o.counts_size;
      counts_le = le;
      conns_size = conns_len ∙ o.conns_size;
      conns_ok = ranges;
      rows_ok = rows;
      labels_size = o.labels_size;
      upper_ok = o.upper_ok;
      visited_size = o.visited_size;
      visited_le = o.visited_le;
      gen_lt = o.gen_lt;
      levels_size = o.levels_size;
    },
    record {
      n_kept = refl;
      m_kept = refl;
      m0_kept = refl;
      ef_kept = refl;
      entry_kept = refl;
      top_kept = refl;
      inserted_kept = refl;
      vectors_kept = refl;
      labels_kept = refl;
      layers_le = omega arith;
    },
  )

  abbrev padded : List DistItem → List ℤ
  padded kept = ids_of kept ++ replicate (b.graph.m0 - length kept) (negsuc 0)

  -- The entries behind a row that is written.
  row-IsNode :
      (id : ℕ) (kept : List DistItem) (conns : List ℤ) (cnts : List ℕ)
      → id < k
      → Within k kept
      → length kept ≤ b.graph.m0
      → Copied b.graph.conn0 (id * b.graph.m0) (padded kept) conns
      → cnts ≡ set b.graph.conn0_cnt id (length kept)
      → (i j : ℕ) → i < b.graph.n
      → j < get_or cnts i 0
      → IsNode k (get_or conns (i * b.graph.m0 + j) (negsuc 0))
  row-IsNode id kept conns cnts h within few c e i j p q =
      let bound = o.bound in
      let size = length-ids_of kept in
      let widths = length-append (ids_of kept) (replicate (b.graph.m0 - length kept) (negsuc 0)) in
      let fill = length-replicate (b.graph.m0 - length kept) (negsuc 0) in
      let cnt_size = o.counts_size in
      let at = get_or-set b.graph.conn0_cnt id i (length kept) 0 (omega arith) in
      let cnt = ap (λ xs. get_or xs i 0) e in
      let fits = All-get_or (λ x. x ≤ b.graph.m0) b.graph.conn0_cnt i 0 o.counts_le (omega arith) in
      elim (ℕ_discrete i id) [
        | yes same ↦
            let inside : j < length kept = ground arith in
            let read : get_or conns (id * b.graph.m0 + j) (negsuc 0)
                ≡ get_or (ids_of kept) j (negsuc 0) =
              c.new j (negsuc 0) (omega arith)
              ∙ get_or-append (ids_of kept) _ j (negsuc 0) (omega arith) in
            subst (λ x. IsNode k (get_or conns (x * b.graph.m0 + j) (negsuc 0))) (sym same)
              (subst (IsNode k) (sym read) (
                All-get_or (IsNode k) (ids_of kept) j (negsuc 0)
                  (ids_of-All k b.graph.n kept bound o.size_ok within) (omega arith)))
        | no other ↦
            let inside : j < get_or b.graph.conn0_cnt i 0 = ground arith in
            let old = o.rows_ok i j p inside in
            elim (dec_lt i id) [
              | yes below ↦
                  subst (IsNode k)
                    (sym (
                      c.old_below (i * b.graph.m0 + j) (negsuc 0)
                        (row_below i id b.graph.m0 j below (omega arith))))
                    old
              | no above ↦
                  let far_on = row_above i id b.graph.m0 (omega arith) in
                  subst (IsNode k) (sym (c.old_above (i * b.graph.m0 + j) (negsuc 0) (omega arith)))
                    old
            ]
      ]

  -- A row that is rewritten with at most `m0` nodes.
  pub write_row-Step :
      (id : ℕ) (kept : List DistItem)
      → id < k
      → Within k kept
      → length kept ≤ b.graph.m0
      → Returns (λ g. Step k b (record b { graph = g })) (write_row b.graph id kept)
  unfolding write_row
  write_row-Step id kept h within few =
      let bound = o.bound in
      let m0_le = o.m0_le in
      let conns_len = o.conns_size in
      let cnts_len = o.counts_size in
      let ids_len = length-ids_of kept in
      let widths = length-append (ids_of kept) (replicate (b.graph.m0 - length kept) (negsuc 0)) in
      let fill = length-replicate (b.graph.m0 - length kept) (negsuc 0) in
      let stop = row_end id b.graph.n b.graph.m0 b.graph.m0 (omega arith) (omega arith) in
      let small : length kept % 256 ≡ length kept = omega arith in
      let nodes = ids_of-All k b.graph.n kept bound o.size_ok within in
      Returns-bind
        (Returns-both (copy_at-Copied b.graph.conn0 (id * b.graph.m0) (padded kept) (omega arith)) (
          copy_at-All (InRange k) b.graph.conn0 (id * b.graph.m0) (padded kept) (omega arith)
            o.conns_ok
            (All-append (InRange k) (ids_of kept) _ (All-IsNode k (ids_of kept) nodes)
              (All-replicate (InRange k) _ (negsuc 0) tt))))
        λ conns (c, ranges).
          rw (small, store-set b.graph.conn0_cnt id (length kept) (omega arith))
            (returns (
              table-Step conns (set b.graph.conn0_cnt id (length kept)) c.size
                (length-set b.graph.conn0_cnt id (length kept)) ranges
                (All-set (λ x. x ≤ b.graph.m0) b.graph.conn0_cnt id (length kept) o.counts_le few)
                (row-IsNode id kept conns _ h within few c refl)))

  -- An edge that is appended to a row with room.
  pub append_edge-Step :
      (src dst : ℕ)
      → src < k
      → dst < k
      → get_or b.graph.conn0_cnt src 0 < b.graph.m0
      → (let cnt = get_or b.graph.conn0_cnt src 0 in
          Step k b (record b {
            graph = record b.graph {
              conn0 = set b.graph.conn0 (src * b.graph.m0 + cnt) (pos dst);
              conn0_cnt = set b.graph.conn0_cnt src (suc cnt);
            };
          }))
  append_edge-Step src dst h l room =
      let g = b.graph in
      let cnt = get_or g.conn0_cnt src 0 in
      let bound = o.bound in
      let conns_len = o.conns_size in
      let cnts_len = o.counts_size in
      let stop = row_end src g.n g.m0 (suc cnt) (omega arith) (omega arith) in
      table-Step (set g.conn0 (src * g.m0 + cnt) (pos dst)) (set g.conn0_cnt src (suc cnt))
        (length-set g.conn0 (src * g.m0 + cnt) (pos dst)) (length-set g.conn0_cnt src (suc cnt))
        (All-set (InRange k) g.conn0 (src * g.m0 + cnt) (pos dst) o.conns_ok l)
        (All-set (λ x. x ≤ g.m0) g.conn0_cnt src (suc cnt) o.counts_le (omega arith))
        λ i j p q.
          let at =
            get_or-set g.conn0 (src * g.m0 + cnt) (i * g.m0 + j) (pos dst) (negsuc 0)
              (omega arith) in
          let cnt_at = get_or-set g.conn0_cnt src i (suc cnt) 0 (omega arith) in
          elim (ℕ_discrete (src * g.m0 + cnt) (i * g.m0 + j)) [
            | yes same ↦
                let hit : ((src * g.m0 + cnt) == (i * g.m0 + j)) ≡ true = ground arith in
                subst (IsNode k)
                  (sym (
                    at
                    ∙ ap (λ t. if t then pos dst else get_or g.conn0 (i * g.m0 + j) (negsuc 0))
                        hit))
                  l
            | no other ↦
                let miss : ((src * g.m0 + cnt) == (i * g.m0 + j)) ≡ false = ground arith in
                subst (IsNode k)
                  (sym (
                    at
                    ∙ ap (λ t. if t then pos dst else get_or g.conn0 (i * g.m0 + j) (negsuc 0))
                        miss))
                  (o.rows_ok i j p (elim (ℕ_discrete src i) [
                    | yes own ↦
                        let off : j ≢ cnt = (λ e. other (cc)) in
                        let was : get_or g.conn0_cnt i 0 ≡ cnt =
                          ap (λ x. get_or g.conn0_cnt x 0) (sym own) in
                        ground arith
                    | no stranger ↦ ground arith
                  ]))
          ]
