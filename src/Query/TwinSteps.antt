-- ===== src/Query/TwinSteps.antt =====
-- The steps of the search on two slots that agree on what a query reads.
use native.Mathlib.Decide.{dec_lt}
use fraud_detection_api.Base.{
  ℕ, ◌<◌, ◌≤◌, ◌≡◌, refl, sym, ◌∙◌, ap, ℤ, pos, negsuc, ltb_ℤ, ltb, List, [], ◌∷◌, length,
  length-set, set, get_or, get_or-set, arith, Bool-cases, inl, inr, if◌then◌else◌, ◌==◌,
}
use fraud_detection_api.Alike.{Alike, both, both_panic, Alike-bind, Alike-if_eq, Alike-same}
use fraud_detection_api.Vector.{Vector}
use fraud_detection_api.Dist.{dist}
use fraud_detection_api.Graph.{Graph, vector_at}
use fraud_detection_api.Query.Heap.{push_min}
use fraud_detection_api.Query.Slot.{
  VisitSlot, find_worst, append_result, replace_worst, admit, visit, visit_all,
}
use fraud_detection_api.Graph.WellFormed.{fetch-get_or}
use fraud_detection_api.Query.Admit.{store-set}
use fraud_detection_api.Query.Twin.{Twin, fetch_out, find_worst_same, store-Written}

append_result-Twin :
    (s t : VisitSlot) (n : ℕ) (d : ℤ)
    → Twin s t
    → Alike Twin (append_result s n d) (append_result t n d)
unfolding append_result
append_result-Twin s t n d w =
    rw⁻¹ (w.cnt_same, w.cands_same, w.worst_d_same, w.worst_i_same)
      (Alike-bind (store-Written s.res_ids t.res_ids s.res_cnt n 0 w.ids_size) λ a b ids.
        Alike-bind (store-Written s.res_dists t.res_dists s.res_cnt d (pos 0) w.dists_size)
          λ x y dists. Alike-same (push_min s.cands (record { id = n; dist = d })) λ cands.
            both (record {
              marks_size = w.marks_size;
              seen = w.seen;
              cands_same = refl;
              cnt_same = refl;
              worst_d_same = refl;
              worst_i_same = refl;
              ids_size = ids.size;
              dists_size = dists.size;
              ids_same = λ j l. ids.same j λ o. w.ids_same j (omega arith);
              dists_same = λ j l. dists.same j λ o. w.dists_same j (omega arith);
            }))

replace_worst-Twin :
    (s t : VisitSlot) (n : ℕ) (d : ℤ)
    → 10 ≤ s.res_cnt
    → Twin s t
    → Alike Twin (replace_worst s n d) (replace_worst t n d)
unfolding replace_worst
replace_worst-Twin s t n d full w =
    rw⁻¹ (w.cands_same, w.worst_i_same)
      (Alike-bind (store-Written s.res_ids t.res_ids s.res_worst_i n 0 w.ids_size) λ a b ids.
        Alike-bind (store-Written s.res_dists t.res_dists s.res_worst_i d (pos 0) w.dists_size)
          λ x y dists.
            rw
              (find_worst_same x y dists.size
                (λ j l. dists.same j λ o. w.dists_same j (omega arith)))
              (Alike-same (find_worst y) λ (worst_d, worst_i).
                Alike-same (push_min s.cands (record { id = n; dist = d })) λ cands. both (record {
                  marks_size = w.marks_size;
                  seen = w.seen;
                  cands_same = refl;
                  cnt_same = w.cnt_same;
                  worst_d_same = refl;
                  worst_i_same = refl;
                  ids_size = ids.size;
                  dists_size = dists.size;
                  ids_same = λ j l. ids.same j λ o. w.ids_same j l;
                  dists_same = λ j l. dists.same j λ o. w.dists_same j l;
                })))

admit-Twin : (s t : VisitSlot) (n : ℕ) (d : ℤ) → Twin s t → Alike Twin (admit s n d) (admit t n d)
unfolding admit
admit-Twin s t n d w =
    Alike-if_eq (ltb s.res_cnt 10) (ltb t.res_cnt 10) (ap (λ c. ltb c 10) w.cnt_same)
      (λ few. append_result-Twin s t n d w)
      λ full.
        Alike-if_eq (ltb_ℤ d s.res_worst_d) (ltb_ℤ d t.res_worst_d) (ap (ltb_ℤ d) w.worst_d_same)
          (λ near. replace_worst-Twin s t n d (ground arith) w) λ far. both w

-- The node is marked in both slots.
mark-Twin :
    (s t : VisitSlot) (n : ℕ)
    → Twin s t
    → n < length s.marks
    → Twin (record s { marks = set s.marks n s.gen }) (record t { marks = set t.marks n t.gen })
mark-Twin s t n w h =
    let size = w.marks_size in
    record {
      marks_size = length-set s.marks n s.gen ∙ size ∙ sym (length-set t.marks n t.gen);
      seen = λ v l. seen_same v (omega (arith, length-set s.marks n s.gen));
      cands_same = w.cands_same;
      cnt_same = w.cnt_same;
      worst_d_same = w.worst_d_same;
      worst_i_same = w.worst_i_same;
      ids_size = w.ids_size;
      dists_size = w.dists_size;
      ids_same = w.ids_same;
      dists_same = w.dists_same;
    }
  where
    at_s :
        (v : ℕ) → get_or (set s.marks n s.gen) v 0 ≡ (if n == v then s.gen else get_or s.marks v 0)
    at_s v = get_or-set s.marks n v s.gen 0 h

    at_t :
        (v : ℕ) → get_or (set t.marks n t.gen) v 0 ≡ (if n == v then t.gen else get_or t.marks v 0)
    at_t v = let size = w.marks_size in get_or-set t.marks n v t.gen 0 (omega arith)

    seen_same :
        (v : ℕ)
        → v < length s.marks
        → (get_or (set s.marks n s.gen) v 0 == s.gen) ≡ (get_or (set t.marks n t.gen) v 0 == t.gen)
    seen_same v l = elim (Bool-cases (n == v)) [
      | inl e ↦ rw (at_s v, at_t v, e) (ground arith)
      | inr e ↦ rw (at_s v, at_t v, e) (w.seen v l)
    ]

visit-Twin :
    (g : Graph) (q : Vector ℤ) (s t : VisitSlot) (nb : ℤ)
    → Twin s t
    → Alike Twin (visit g q s nb) (visit g q t nb)
unfolding visit
visit-Twin g q s t (negsuc k) w = both w
visit-Twin g q s t (pos n) w =
    let size = w.marks_size in
    elim (dec_lt n (length s.marks)) [
      | yes l ↦
          rw (fetch-get_or s.marks n 0 l, fetch-get_or t.marks n 0 (omega arith))
            (Alike-if_eq (get_or s.marks n 0 == s.gen) (get_or t.marks n 0 == t.gen) (w.seen n l)
              (λ old. both w)
              λ new.
                rw (store-set s.marks n s.gen l, store-set t.marks n t.gen (omega arith))
                  (Alike-same (vector_at g n)
                    λ v. admit-Twin _ _ n (dist q v) (mark-Twin s t n w l)))
      | no o ↦ rw (fetch_out s.marks n (omega arith), fetch_out t.marks n (omega arith)) both_panic
    ]

pub visit_all-Twin :
    (g : Graph) (q : Vector ℤ) (s t : VisitSlot) (nbs : List ℤ)
    → Twin s t
    → Alike Twin (visit_all g q s nbs) (visit_all g q t nbs)
unfolding visit_all
visit_all-Twin g q s t [] w = both w
visit_all-Twin g q s t (nb ∷ nbs) w =
    Alike-bind (visit-Twin g q s t nb w) λ u v x. visit_all-Twin g q u v nbs x
