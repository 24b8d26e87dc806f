-- ===== src/Query/Results.antt =====
-- The result arrays of a slot: what they hold, and the search for the worst of them.
use mathlib.Core.Logic.{◌≢◌}
use fraud_detection_api.Base.{
  ℕ, zero, suc, ◌+◌, ◌<◌, ◌≤◌, ◌≡◌, refl, subst, ◌⊎◌, inl, inr, ℤ, pos, ◌≤ℤ◌, ltb_ℤ, List, length,
  get_or, arith, Bool-cases,
}
use fraud_detection_api.Run.{Returns, returns}
use fraud_detection_api.Vector.{Vector}
use fraud_detection_api.Graph.{Graph}
use fraud_detection_api.Graph.WellFormed.{fetch-get_or}
use fraud_detection_api.Query.Heap.{DistItem}
use fraud_detection_api.Query.Slot.{VisitSlot, worst_loop, find_worst}
use fraud_detection_api.Query.Near.{near}

abbrev pub res_id : VisitSlot → ℕ → ℕ
res_id s j = get_or s.res_ids j 0

abbrev pub res_dist : VisitSlot → ℕ → ℤ
res_dist s j = get_or s.res_dists j (pos 0)

-- `d`, at `i`, is a largest of the first `m` distances.
pub record IsWorst (dists : List ℤ) (m : ℕ) (d : ℤ) (i : ℕ) : Type 0 where
  pub inside : i < m
  pub at : get_or dists i (pos 0) ≡ d
  pub most : (j : ℕ) → j < m → get_or dists j (pos 0) ≤ℤ d

-- The results: different nodes with their distances, and the worst of them.
pub record ResOk (g : Graph) (a : Vector ℕ) (s : VisitSlot) : Type 0 where
  pub ids_size : length s.res_ids ≡ 10
  pub dists_size : length s.res_dists ≡ 10
  pub some_result : 0 < s.res_cnt
  pub room : s.res_cnt ≤ 10
  pub inside : (j : ℕ) → j < s.res_cnt → res_id s j < g.n
  pub exact : (j : ℕ) → j < s.res_cnt → res_dist s j ≡ pos (near g a (res_id s j))
  pub distinct : (i j : ℕ) → i < j → j < s.res_cnt → res_id s i ≢ res_id s j
  pub worst : IsWorst s.res_dists s.res_cnt s.res_worst_d s.res_worst_i

-- Only the result arrays matter.
pub ResOk-move :
    (g : Graph) (a : Vector ℕ) (s : VisitSlot) (marks : List ℕ) (cands : List DistItem)
    → ResOk g a s
    → ResOk g a (record s { marks = marks; cands = cands })
ResOk-move g a s marks cands r = record {
  ids_size = r.ids_size;
  dists_size = r.dists_size;
  some_result = r.some_result;
  room = r.room;
  inside = r.inside;
  exact = r.exact;
  distinct = r.distinct;
  worst = r.worst;
}

-- The node is a result.
abbrev pub InRes : VisitSlot → ℕ → Type 0
InRes s v = (j : ℕ) × (j < s.res_cnt) × (res_id s j ≡ v)

-- There are ten results, and the node is no closer than any of them.
abbrev pub Beaten : Graph → Vector ℕ → VisitSlot → ℕ → Type 0
Beaten g a s v = (s.res_cnt ≡ 10) × (s.res_worst_d ≤ℤ pos (near g a v))

extend :
    (dists : List ℤ) (i : ℕ) (d : ℤ) (j : ℕ)
    → (j < i → get_or dists j (pos 0) ≤ℤ d)
    → get_or dists i (pos 0) ≤ℤ d
    → (j < i) ⊎ (j ≡ i)
    → get_or dists j (pos 0) ≤ℤ d
extend dists i d j p q (inl h) = p h
extend dists i d j p q (inr e) = rw e q

worst_loop-IsWorst :
    (k : ℕ) (dists : List ℤ) (i : ℕ) (d : ℤ) (at : ℕ)
    → i + k ≤ length dists
    → IsWorst dists i d at
    → Returns (λ r. IsWorst dists (i + k) r.0 r.1) (worst_loop k dists i d at)
unfolding worst_loop
worst_loop-IsWorst zero dists i d at l w = returns (record {
  inside = (let h = w.inside in omega arith);
  at = w.at;
  most = λ j h. w.most j (omega arith);
})
worst_loop-IsWorst (suc k) dists i d at l w =
    let x = get_or dists i (pos 0) in
    let same : i + 1 + k ≡ i + suc k = omega arith in
    rw (fetch-get_or dists i (pos 0) (omega arith)) (elim (Bool-cases (ltb_ℤ d x)) [
      | inl more ↦ rw more (
          subst (λ m. Returns (λ r. IsWorst dists m r.0 r.1) (worst_loop k dists (i + 1) x i)) same
            (worst_loop-IsWorst k dists (i + 1) x i (omega arith) (record {
              inside = omega arith;
              at = refl;
              most = λ j h.
                  extend dists i x j (λ p. (let m = w.most j p in ground arith)) (omega arith)
                    (omega arith);
            })))
      | inr less ↦ rw less (
          subst (λ m. Returns (λ r. IsWorst dists m r.0 r.1) (worst_loop k dists (i + 1) d at)) same
            (worst_loop-IsWorst k dists (i + 1) d at (omega arith) (record {
              inside = (let h = w.inside in omega arith);
              at = w.at;
              most = λ j h. extend dists i d j (w.most j) (ground arith) (omega arith);
            })))
    ])

pub find_worst-IsWorst :
    (dists : List ℤ)
    → length dists ≡ 10
    → Returns (λ r. IsWorst dists 10 r.0 r.1) (find_worst dists)
unfolding find_worst
find_worst-IsWorst dists l = rw (fetch-get_or dists 0 (pos 0) (omega arith)) (
    worst_loop-IsWorst 9 dists 1 (get_or dists 0 (pos 0)) 0 (omega arith) (record {
      inside = omega arith;
      at = refl;
      most = λ j h. let e : j ≡ 0 = omega arith in rw e (omega arith);
    }))
