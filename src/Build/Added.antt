-- ===== src/Build/Added.antt =====
-- `Insert`: it ends without a panic, keeps the invariant, and stores the node.
use fraud_detection_api.Base.{
  ◌==◌, if◌then◌else◌, Bool-cases, length, pos_part, neg_part, ltb_ℤ, pos, ℕ, suc, ◌≤◌, ◌<◌, ◌≡◌,
  refl, ap, ◌∙◌, inl, inr, arith,
}
use fraud_detection_api.Build.{Builder, ensure_layers}
use fraud_detection_api.Build.Edges.{layers-Step}
use fraud_detection_api.Build.Insert.{
  layers_below, rounds, insert_first, promote, insert_next, store_node, insert,
}
use fraud_detection_api.Build.Inserted.{descend_above-lt, insert_down-Step}
use fraud_detection_api.Build.Linked.{Kept-trans}
use fraud_detection_api.Build.Links.{ensure_layers-LinksOk, register_on_upper_layers-LinksOk}
use fraud_detection_api.Build.Ready.{Ready, Stored, store_node-Stored}
use fraud_detection_api.Build.Select.{Sorter}
use fraud_detection_api.Build.Steps.{Added, Added-Stored, promoted, counted}
use fraud_detection_api.Dist.Bounds.{IsByte}
use fraud_detection_api.Run.{◌>>=◌, Returns, Returns-bind, Returns-if, returns}
use fraud_detection_api.Vector.{Vector, Each}

module _ (k : ℕ) (b : Builder) (r : Ready k b) (v : Vector ℕ) (label : ℕ) (level : ℕ)
    (low : level ≤ 31) (c : Builder) (s : Stored k b v label c) where
  insert_first-Added : Returns (Added k b v label) (insert_first c k (pos level))
  unfolding insert_first
  insert_first-Added =
      let o = s.linked in
      let small = o.size_ok in
      let bound = o.bound in
      let layers = ensure_layers c.upper_conns (pos level) in
      let (fine, enough, _) = ensure_layers-LinksOk (suc k) c.upper_conns (pos level) o.upper_ok in
      Returns-bind
        (register_on_upper_layers-LinksOk (suc k) k (pos level) layers (omega arith) fine)
        λ more (good, longer). returns (
          Added-Stored k b c _ v label s
            (promoted k c level more o good (omega arith) low (omega arith)
              (s.inserted_same ∙ r.count))
            refl refl refl)

  module _ (sorter : Sorter) (hv : Each IsByte v) (positive : 0 < k) where
    insert_next-Added : Returns (Added k b v label) (insert_next sorter c k v (pos level))
    unfolding insert_next promote
    insert_next-Added =
        let o = s.linked in
        let top_l = if ltb_ℤ c.graph.max_layer (pos level) then c.graph.max_layer else pos level in
        let small = o.size_ok in
        let bound = o.bound in
        let entry_low = r.entry_ok positive in
        let entry_same = s.entry_same in
        let layers_same = ap length s.layers_same in
        let top_same = s.top_same in
        let sign : neg_part c.graph.max_layer ≡ 0 = ap neg_part s.top_same ∙ r.top_ok in
        let top_le : pos_part c.graph.max_layer ≤ 31 =
          (let t = r.top_le in let e = ap pos_part s.top_same in omega arith) in
        let top_lt : pos_part c.graph.max_layer ≤ length c.upper_conns =
          (let t = r.layers_enough in let e = ap pos_part s.top_same in omega arith) in
        Returns-bind
          (descend_above-lt sorter (suc k) v hv (rounds c.graph.max_layer (pos level)) c level
            c.graph.entry_point o (omega arith))
          λ entry reached.
            Returns-bind
              (register_on_upper_layers-LinksOk (suc k) k (pos level) c.upper_conns (omega arith)
                o.upper_ok)
              λ layers (good, longer).
                let (p, kept) = layers-Step sorter (suc k) c layers o good longer in
                Returns-bind
                  (insert_down-Step sorter (suc k) v hv (layers_below top_l)
                    (record c { upper_conns = layers }) k entry p (omega arith) reached)
                  λ d (q, kept').
                    let all_kept = Kept-trans c (record c { upper_conns = layers }) d kept kept' in
                    let wider = q.bound in
                    let n_eq = all_kept.n_kept in
                    let count : d.inserted ≡ k =
                      all_kept.inserted_kept ∙ s.inserted_same ∙ r.count in
                    let top_eq = all_kept.top_kept in
                    let (fine, enough, _) =
                      ensure_layers-LinksOk (suc k) d.upper_conns (pos level) q.upper_ok in
                    elim (Bool-cases (ltb_ℤ c.graph.max_layer (pos level))) [
                      | inl higher ↦ rw higher (
                          returns (
                            Added-Stored k b c _ v label s
                              (promoted k d level (ensure_layers d.upper_conns (pos level)) q fine
                                enough low (omega arith) count)
                              n_eq all_kept.vectors_kept all_kept.labels_kept))
                      | inr lower ↦ rw lower (
                          returns (
                            Added-Stored k b c _ v label s
                              (counted k d q (omega arith) count
                                (let e = all_kept.entry_kept in omega arith)
                                (ap neg_part top_eq ∙ sign)
                                (let e = ap pos_part top_eq in omega arith)
                                (let e = ap pos_part top_eq in
                                  let l = all_kept.layers_le in omega arith))
                              n_eq all_kept.vectors_kept all_kept.labels_kept))
                    ]

-- Let the nodes below `k` be inserted and `k` be less than the index's size, let the drawn level not
-- be negative and the vector be one of bytes. Then the insertion of node `k` ends without a panic
-- and keeps the invariant: all links lead to inserted nodes, the rows and counts stay within their
-- bounds, the entry point is inserted, and the top layer exists and is at most 31. The node's
-- vector and label are read back as given, and those of the earlier nodes are unchanged.
pub insert-Added :
    (sorter : Sorter) (k : ℕ) (b : Builder) (v : Vector ℕ) (label draw : ℕ)
    → Ready k b
    → k < b.graph.n
    → Each IsByte v
    → Returns (Added k b v label) (insert sorter b k v label (pos draw))
unfolding insert
insert-Added sorter k b v label draw r room hv = elim (Bool-cases (ltb_ℤ (pos 31) (pos draw))) [
  | inl high ↦ rw high (stored 31 (omega arith))
  | inr fits ↦ rw fits (stored draw (ground arith))
]
  where
    stored :
        (level : ℕ)
        → level ≤ 31
        → Returns (Added k b v label) (
            store_node b k v label (pos level) >>= λ c.
            if c.inserted == 0
            then insert_first c k (pos level)
            else insert_next sorter c k v (pos level))
    stored level low =
        Returns-bind (store_node-Stored k b r.linked room v hv label (pos level)) λ c s.
          let count : c.inserted ≡ k = s.inserted_same ∙ r.count in
          Returns-if (c.inserted == 0) (λ empty. insert_first-Added k b r v label level low c s)
            λ more. insert_next-Added k b r v label level low c s sorter hv (ground arith)
