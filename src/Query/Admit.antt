-- ===== src/Query/Admit.antt =====
-- The admission of a node to the results: the results stay the nearest nodes seen.
use mathlib.Core.Logic.{◌≢◌}
use fraud_detection_api.Base.{
  ℕ, ◌+◌, ◌<◌, ◌≤◌, ◌≡◌, refl, ◌⊎◌, inl, inr, ℤ, pos, ◌≤ℤ◌, ◌<ℤ◌, ltb_ℤ, eqb_ℤ, ltb, List, ◌∷◌,
  length, length-set, set, get_or, get_or-set, tally, Same-length, arith, Bool, true, Bool-cases,
  if◌then◌else◌, ◌==◌, ◌||◌, ◌&&◌,
}
use fraud_detection_api.Run.{ok, Returns, returns, Returns-bind, Returns-if}
use fraud_detection_api.Vector.{Vector}
use fraud_detection_api.Graph.{Graph}
use fraud_detection_api.Query.Heap.{DistItem}
use fraud_detection_api.Query.Heap.Order.{IsHeap, Sifted}
use fraud_detection_api.Query.Heap.Push.{push_min-Sifted}
use fraud_detection_api.Query.Slot.{VisitSlot, store, append_result, replace_worst, admit}
use fraud_detection_api.Query.Near.{near}
use fraud_detection_api.Query.Results.{
  res_id, res_dist, IsWorst, ResOk, InRes, Beaten, find_worst-IsWorst,
}

pub store-set {ℓ} :
    {A : Type ℓ} (xs : List A) (i : ℕ) (v : A) → i < length xs → store xs i v ≡ ok (set xs i v)
store-set xs i v h = let inside : ltb i (length xs) ≡ true = ground arith in rw inside

-- The candidate is a node of the graph with its distance.
abbrev pub cand_ok : Graph → Vector ℕ → DistItem → Bool
cand_ok g a c = ltb c.id g.n && eqb_ℤ c.dist (pos (near g a c.id))

-- The candidates are a heap of nodes with their distances.
pub record CandsOk (g : Graph) (a : Vector ℕ) (s : VisitSlot) : Type 0 where
  pub heap : IsHeap s.cands
  pub sound : tally (cand_ok g a) s.cands ≡ length s.cands

-- How often the node is a candidate.
abbrev pub waiting : VisitSlot → ℕ → ℕ
waiting s v = tally (λ c. c.id == v) s.cands

-- The effect of offering node `n` to the slot `s`.
pub record Admitted (g : Graph) (a : Vector ℕ) (s : VisitSlot) (n : ℕ) (t : VisitSlot)
    : Type 0 where
  pub marks_kept : t.marks ≡ s.marks
  pub gen_kept : t.gen ≡ s.gen
  pub results : ResOk g a t
  pub cands : CandsOk g a t
  pub old_or_new : (v : ℕ) → InRes t v → InRes s v ⊎ (v ≡ n)
  pub kept_or_beaten : (v : ℕ) → InRes s v → InRes t v ⊎ Beaten g a t v
  pub still_beaten : (v : ℕ) → Beaten g a s v → Beaten g a t v
  pub offered : InRes t n ⊎ Beaten g a t n
  pub still_waiting : (v : ℕ) → waiting s v ≤ waiting t v
  pub new_waiting : InRes t n → 0 < waiting t n
  pub grows : length t.cands ≤ length s.cands + 1

module _ (g : Graph) (a : Vector ℕ) where
  -- The candidates behind a push.
  push-CandsOk :
      (s : VisitSlot) (n : ℕ) (h : List DistItem)
      → n < g.n
      → CandsOk g a s
      → Sifted (record { id = n; dist = pos (near g a n) } ∷ s.cands) h
      → IsHeap h
        × (tally (cand_ok g a) h ≡ length h)
        × ((v : ℕ) → waiting s v ≤ tally (λ c. c.id == v) h)
        × (0 < tally (λ c. c.id == n) h)
        × (length h ≡ length s.cands + 1)
  push-CandsOk s n h l c (heap, same) =
      let sound = c.sound in
      let x : DistItem = record { id = n; dist = pos (near g a n) } in
      let size = Same-length h (x ∷ s.cands) same in
      let fine : cand_ok g a x ≡ true = ground arith in
      (
        heap,
        ground (arith, same (cand_ok g a)),
        λ v. omega (arith, same (λ c. c.id == v)),
        ground (arith, same (λ c. c.id == n)),
        omega arith,
      )

  module _ (s : VisitSlot) (n : ℕ) (l : n < g.n) (r : ResOk g a s) (c : CandsOk g a s)
      (fresh : (j : ℕ) → j < s.res_cnt → res_id s j ≢ n) where
    abbrev d : ℤ
    d = pos (near g a n)

    -- Reads of the arrays behind a write at `i`.
    id_at : (i j : ℕ) → i < 10 → get_or (set s.res_ids i n) j 0 ≡ (if i == j then n else res_id s j)
    id_at i j h = let z = r.ids_size in get_or-set s.res_ids i j n 0 (omega arith)

    dist_at :
        (i j : ℕ)
        → i < 10
        → get_or (set s.res_dists i d) j (pos 0) ≡ (if i == j then d else res_dist s j)
    dist_at i j h = let z = r.dists_size in get_or-set s.res_dists i j d (pos 0) (omega arith)

    abbrev worse : Bool
    worse = ltb_ℤ s.res_worst_d d || s.res_cnt == 0

    append-IsWorst :
        s.res_cnt < 10
        → IsWorst
            (set s.res_dists s.res_cnt d)
            (s.res_cnt + 1)
            (if worse then d else s.res_worst_d)
            (if worse then s.res_cnt else s.res_worst_i)
    append-IsWorst few =
        let some_one = r.some_result in
        let wi = r.worst.inside in
        let wa = r.worst.at in
        elim (Bool-cases worse) [
          | inl e ↦ rw e (record {
            inside = omega arith;
            at = ground (arith, dist_at s.res_cnt s.res_cnt few);
            most = λ j h. ground (arith, dist_at s.res_cnt j few, r.worst.most j);
          })
          | inr e ↦ rw e (record {
            inside = omega arith;
            at = ground (arith, dist_at s.res_cnt s.res_worst_i few);
            most = λ j h. ground (arith, dist_at s.res_cnt j few, r.worst.most j);
          })
        ]

    append_result-Admitted :
        s.res_cnt < 10 → Returns (Admitted g a s n) (append_result s n (pos (near g a n)))
    unfolding append_result
    append_result-Admitted few =
        let si = r.ids_size in
        let sd = r.dists_size in
        rw
          (
            store-set s.res_ids s.res_cnt n (omega arith),
            store-set s.res_dists s.res_cnt d (omega arith),
          )
          (Returns-bind (push_min-Sifted s.cands (record { id = n; dist = d }) c.heap) λ h sifted.
            let (heap, sound, waits, new, size) = push-CandsOk s n h l c sifted in
            returns (record {
              marks_kept = refl;
              gen_kept = refl;
              results = record {
                ids_size = rw (length-set) si;
                dists_size = rw (length-set) sd;
                some_result = omega arith;
                room = omega arith;
                inside = λ j p. ground (arith, id_at s.res_cnt j few, r.inside j);
                exact = λ j p.
                    ground (arith, id_at s.res_cnt j few, dist_at s.res_cnt j few, r.exact j);
                distinct = λ i j p q.
                    ground (
                      arith,
                      id_at s.res_cnt i few,
                      id_at s.res_cnt j few,
                      r.distinct i j,
                      fresh i,
                    );
                worst = append-IsWorst few;
              };
              cands = record { heap = heap; sound = sound };
              old_or_new = λ v (j, p, e). elim (Bool-cases (s.res_cnt == j)) [
                | inl at ↦ inr (ground (arith, id_at s.res_cnt j few))
                | inr off ↦ inl (j, ground arith, ground (arith, id_at s.res_cnt j few))
              ];
              kept_or_beaten =
                  λ v (j, p, e). inl (j, omega arith, ground (arith, id_at s.res_cnt j few));
              still_beaten = λ v (full, _). absurd (omega arith);
              offered = inl (s.res_cnt, omega arith, ground (arith, id_at s.res_cnt s.res_cnt few));
              still_waiting = waits;
              new_waiting = λ _. new;
              grows = omega arith;
            }))

    replace_worst-Admitted :
        s.res_cnt ≡ 10
        → d <ℤ s.res_worst_d
        → Returns (Admitted g a s n) (replace_worst s n (pos (near g a n)))
    unfolding replace_worst
    replace_worst-Admitted full less =
        let si = r.ids_size in
        let sd = r.dists_size in
        let at = r.worst.inside in
        let i = s.res_worst_i in
        let in_ten : i < 10 = omega arith in
        rw (store-set s.res_ids i n (omega arith), store-set s.res_dists i d (omega arith))
          (Returns-bind (find_worst-IsWorst (set s.res_dists i d) (rw (length-set) sd))
            λ (wd, wi) worst.
              (Returns-bind (push_min-Sifted s.cands (record { id = n; dist = d }) c.heap)
                λ h sifted.
                  let (heap, sound, waits, new, size) = push-CandsOk s n h l c sifted in
                  let lower : wd ≤ℤ s.res_worst_d =
                    (let w = worst.at in
                      let wi_lt = worst.inside in
                      ground (arith, dist_at i wi in_ten, r.worst.most wi)) in
                  returns (record {
                    marks_kept = refl;
                    gen_kept = refl;
                    results = record {
                      ids_size = rw (length-set) si;
                      dists_size = rw (length-set) sd;
                      some_result = omega arith;
                      room = omega arith;
                      inside = λ j p. ground (arith, id_at i j in_ten, r.inside j);
                      exact =
                          λ j p. ground (arith, id_at i j in_ten, dist_at i j in_ten, r.exact j);
                      distinct = λ k j p q. ground (
                        arith,
                        id_at i k in_ten,
                        id_at i j in_ten,
                        r.distinct k j,
                        fresh k,
                        fresh j,
                      );
                      worst = rw full worst;
                    };
                    cands = record { heap = heap; sound = sound };
                    old_or_new = λ v (j, p, e). elim (Bool-cases (i == j)) [
                      | inl at ↦ inr (ground (arith, id_at i j in_ten))
                      | inr off ↦ inl (j, ground arith, ground (arith, id_at i j in_ten))
                    ];
                    kept_or_beaten = λ v (j, p, e). elim (Bool-cases (i == j)) [
                      | inl same ↦
                          inr (full, (let w = r.worst.at in ground (arith, lower, r.exact j)))
                      | inr off ↦ inl (j, p, ground (arith, id_at i j in_ten))
                    ];
                    still_beaten = λ v (_, far). (full, omega arith);
                    offered = inl (i, at, ground (arith, id_at i i in_ten));
                    still_waiting = waits;
                    new_waiting = λ _. new;
                    grows = omega arith;
                  })))

    -- Offering a node that is no result yet keeps the results the nearest nodes offered: an old
    -- result or the new node is left out only where ten results are no farther.
    pub admit-Admitted : Returns (Admitted g a s n) (admit s n (pos (near g a n)))
    unfolding admit
    admit-Admitted =
        let room = r.room in
        Returns-if (ltb s.res_cnt 10) (λ few. append_result-Admitted (ground arith))
          λ full.
            Returns-if (ltb_ℤ d s.res_worst_d)
              (λ less. replace_worst-Admitted (ground arith) (ground arith))
              λ far. returns (record {
                marks_kept = refl;
                gen_kept = refl;
                results = r;
                cands = c;
                old_or_new = λ v m. inl m;
                kept_or_beaten = λ v m. inl m;
                still_beaten = λ v b. b;
                offered = inr (ground arith, ground arith);
                still_waiting = λ v. omega arith;
                new_waiting = λ (j, p, e). absurd (fresh j p e);
                grows = omega arith;
              })
