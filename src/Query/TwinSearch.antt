-- ===== src/Query/TwinSearch.antt =====
-- The search of layer 0 in two slots that earlier queries used.
use native.Mathlib.Decide.{dec_lt}
use fraud_detection_api.Base.{
  ℕ, zero, suc, ◌<◌, ◌≤◌, ◌≡◌, refl, sym, ◌∙◌, ap, subst, ℤ, pos, ltb_ℤ, ltb, List, [], ◌∷◌, length,
  length-set, set, get_or, get_or-set, All, All-get_or, arith, false, Bool-cases, inl, inr, ◌==◌,
}
use fraud_detection_api.Run.{panic}
use fraud_detection_api.Alike.{
  Alike, both, both_out_of_fuel, both_panic, Alike-bind, Alike-if_eq, Alike-same,
}
use fraud_detection_api.Vector.{Vector}
use fraud_detection_api.Dist.{dist}
use fraud_detection_api.Graph.{Graph, vector_at, layer0_neighbors}
use fraud_detection_api.Query.Heap.{DistItem, push_min, pop_min}
use fraud_detection_api.Query.Slot.{VisitSlot, bump, store}
use fraud_detection_api.Query.Search.{start_search, search_loop, search_layer0_fast}
use fraud_detection_api.Query.Start.{Usable, bump-Fresh}
use fraud_detection_api.Query.Admit.{store-set}
use fraud_detection_api.Query.Twin.{Twin, store-Written}
use fraud_detection_api.Query.TwinSteps.{visit_all-Twin}

-- As `t`, with the candidates of `s`.
align : (s t : VisitSlot) → Twin s t → Twin s (record t { cands = s.cands })
align s t w = record {
  marks_size = w.marks_size;
  seen = w.seen;
  cands_same = refl;
  cnt_same = w.cnt_same;
  worst_d_same = w.worst_d_same;
  worst_i_same = w.worst_i_same;
  ids_size = w.ids_size;
  dists_size = w.dists_size;
  ids_same = w.ids_same;
  dists_same = w.dists_same;
}

-- Behind the first mark of a generation exactly the entry has it.
seen_first :
    (marks : List ℕ) (gen entry v : ℕ)
    → All (λ m. m < gen) marks
    → entry < length marks
    → v < length marks
    → (get_or (set marks entry gen) v 0 == gen) ≡ (entry == v)
seen_first marks gen entry v lt inside l =
    let old = All-get_or (λ m. m < gen) marks v 0 lt l in
    elim (Bool-cases (entry == v)) [
      | inl e ↦ rw (get_or-set marks entry v gen 0 inside, e) (ground arith)
      | inr e ↦ rw (get_or-set marks entry v gen 0 inside, e) (ground arith)
    ]

store_out {ℓ} : {A : Type ℓ} (xs : List A) (i : ℕ) (v : A) → length xs ≤ i → store xs i v ≡ panic
store_out xs i v h = let outside : ltb i (length xs) ≡ false = ground arith in rw outside

module _ (g : Graph) (q : Vector ℤ) where
  replace_cands :
      (s t : VisitSlot) (a b h : List DistItem)
      → Twin (record s { cands = a }) (record t { cands = b })
      → Twin (record s { cands = h }) (record t { cands = h })
  replace_cands s t a b h w = record {
    marks_size = w.marks_size;
    seen = w.seen;
    cands_same = refl;
    cnt_same = w.cnt_same;
    worst_d_same = w.worst_d_same;
    worst_i_same = w.worst_i_same;
    ids_size = w.ids_size;
    dists_size = w.dists_size;
    ids_same = w.ids_same;
    dists_same = w.dists_same;
  }

  search_loop-Twin :
      (k : ℕ) (s t : VisitSlot) (cands : List DistItem)
      → Twin (record s { cands = cands }) (record t { cands = cands })
      → Alike Twin
          (search_loop k g q (record s { cands = cands }))
          (search_loop k g q (record t { cands = cands }))
  unfolding search_loop
  search_loop-Twin zero s t cands w = both_out_of_fuel
  search_loop-Twin (suc k) s t [] w = both w
  search_loop-Twin (suc k) s t (c ∷ rest) w = Alike-same (pop_min (c ∷ rest)) λ h.
      let x = replace_cands s t (c ∷ rest) (c ∷ rest) h w in
      Alike-if_eq (ltb_ℤ s.res_worst_d c.dist) (ltb_ℤ t.res_worst_d c.dist)
        (ap (λ d. ltb_ℤ d c.dist) w.worst_d_same) (λ far. both x)
        λ near. Alike-same (layer0_neighbors g c.id) λ nbs.
          Alike-bind (visit_all-Twin g q (record s { cands = h }) (record t { cands = h }) nbs x)
            λ u v y.
              subst
                (λ cs.
                  Alike Twin (search_loop k g q u) (search_loop k g q (record v { cands = cs })))
                y.cands_same (search_loop-Twin k u v u.cands (align u v y))

  start_search-Twin :
      (entry : ℕ) (s t : VisitSlot)
      → Usable g s
      → Usable g t
      → Alike Twin (start_search g q entry s) (start_search g q entry t)
  unfolding start_search
  start_search-Twin entry s t us ut =
      let a = bump s in
      let b = bump t in
      let fs = bump-Fresh g s us in
      let ft = bump-Fresh g t ut in
      let ls = fs.marks_size in
      let lt = ft.marks_size in
      Alike-same (vector_at g entry) λ v. elim (dec_lt entry g.n) [
        | no o ↦
            rw
              (
                store_out a.marks entry a.gen (omega arith),
                store_out b.marks entry b.gen (omega arith),
              )
              both_panic
        | yes l ↦
            let seen = λ (x : ℕ) (h : x < g.n).
              seen_first a.marks a.gen entry x fs.marks_lt (omega arith) (omega arith)
              ∙ sym (seen_first b.marks b.gen entry x ft.marks_lt (omega arith) (omega arith)) in
            let sized = λ (xs ys : VisitSlot). us.ids_size ∙ sym ut.ids_size in
            rw
              (
                store-set a.marks entry a.gen (omega arith),
                store-set b.marks entry b.gen (omega arith),
              )
              (Alike-same (push_min [] (record { id = entry; dist = dist q v })) λ cands.
                Alike-bind
                  (store-Written a.res_ids b.res_ids 0 entry 0 (
                    ap length fs.ids_kept
                    ∙ us.ids_size
                    ∙ sym ut.ids_size
                    ∙ sym (ap length ft.ids_kept)))
                  λ x y ids.
                    Alike-bind
                      (store-Written a.res_dists b.res_dists 0 (dist q v) (pos 0) (
                        ap length fs.dists_kept
                        ∙ us.dists_size
                        ∙ sym ut.dists_size
                        ∙ sym (ap length ft.dists_kept)))
                      λ u w dists. both (record {
                        marks_size =
                            length-set a.marks entry a.gen
                            ∙ ls
                            ∙ sym lt
                            ∙ sym (length-set b.marks entry b.gen);
                        seen = λ x h. seen x (omega (arith, length-set a.marks entry a.gen));
                        cands_same = refl;
                        cnt_same = refl;
                        worst_d_same = refl;
                        worst_i_same = refl;
                        ids_size = ids.size;
                        dists_size = dists.size;
                        ids_same = λ j h. ids.same j λ o. absurd (omega arith);
                        dists_same = λ j h. dists.same j λ o. absurd (omega arith);
                      }))
      ]

  pub search_layer0_fast-Twin :
      (entry : ℕ) (s t : VisitSlot)
      → Usable g s
      → Usable g t
      → Alike Twin (search_layer0_fast g q entry s) (search_layer0_fast g q entry t)
  unfolding search_layer0_fast
  search_layer0_fast-Twin entry s t us ut = Alike-bind (start_search-Twin entry s t us ut) λ u v y.
      subst
        (λ cs.
          Alike Twin (search_loop (suc g.n) g q u)
            (search_loop (suc g.n) g q (record v { cands = cs })))
        y.cands_same (search_loop-Twin (suc g.n) u v u.cands (align u v y))
