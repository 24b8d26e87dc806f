-- ===== src/Query/Start.antt =====
-- The start of the search of layer 0 in a slot that earlier queries used.
use native.Mathlib.Decide.{ℕ_discrete, dec_lt}
use fraud_detection_api.Base.{
  ℕ, ◌+◌, ◌%◌, ◌<◌, ◌≤◌, ◌≡◌, refl, ◌∙◌, ap, inl, inr, pos, List, [], ◌∷◌, length, length-set,
  length-replicate, set, get_or, get_or_out, get_or-set, tally-le, tally-set, Same-length, All,
  All-get_or, All-set, All-replicate, arith, true, not, Bool-cases, ◌==◌,
}
use fraud_detection_api.Run.{Returns, returns, Returns-bind}
use fraud_detection_api.Vector.{Vector, Each}
use fraud_detection_api.Dist.Bounds.{IsByte, widen}
use fraud_detection_api.Graph.{Graph}
use fraud_detection_api.Graph.WellFormed.{WellFormed, WellFormed-VectorsOk}
use fraud_detection_api.Query.Heap.{DistItem}
use fraud_detection_api.Query.Heap.Push.{push_min-Sifted}
use fraud_detection_api.Query.Slot.{VisitSlot, bump, new_visit_slot}
use fraud_detection_api.Query.Search.{start_search}
use fraud_detection_api.Query.Near.{near, vector_at-vec, dist-near}
use fraud_detection_api.Query.Admit.{store-set, cand_ok}
use fraud_detection_api.Query.Visit.{Marked, unvisited, Searching}

-- A slot between two queries: no mark is above the generation.
pub record Usable (g : Graph) (s : VisitSlot) : Type 0 where
  pub marks_size : length s.marks ≡ g.n
  pub marks_le : All (λ m. m ≤ s.gen) s.marks
  pub gen_le : s.gen ≤ 255
  pub ids_size : length s.res_ids ≡ 10
  pub dists_size : length s.res_dists ≡ 10

pub new_visit_slot-Usable : (g : Graph) → Usable g (new_visit_slot g.n)
unfolding new_visit_slot
new_visit_slot-Usable g = record {
  marks_size = length-replicate g.n 0;
  marks_le = All-replicate (λ m. m ≤ 0) g.n 0 (omega arith);
  gen_le = omega arith;
  ids_size = refl;
  dists_size = refl;
}

-- No node is marked, for the new generation.
pub record Fresh (g : Graph) (s t : VisitSlot) : Type 0 where
  pub marks_size : length t.marks ≡ g.n
  pub marks_lt : All (λ m. m < t.gen) t.marks
  gen_le : t.gen ≤ 255
  pub ids_kept : t.res_ids ≡ s.res_ids
  pub dists_kept : t.res_dists ≡ s.res_dists

All-lt : (xs : List ℕ) (n : ℕ) → All (λ m. m ≤ n) xs → All (λ m. m < n + 1) xs
All-lt [] n h = tt
All-lt (x ∷ xs) n h = (omega arith, All-lt xs n h.1)

pub bump-Fresh : (g : Graph) (s : VisitSlot) → Usable g s → Fresh g s (bump s)
unfolding bump
bump-Fresh g s u =
    let size = u.marks_size in
    let gens = u.gen_le in
    elim (Bool-cases ((s.gen + 1) % 256 == 0)) [
      | inl wraps ↦ rw wraps (record {
        marks_size = length-replicate (length s.marks) 0 ∙ size;
        marks_lt = All-replicate (λ m. m < 1) (length s.marks) 0 (omega arith);
        gen_le = omega arith;
        ids_kept = refl;
        dists_kept = refl;
      })
      | inr more ↦
          let e : (s.gen + 1) % 256 ≡ s.gen + 1 = ground arith in
          rw more (record {
            marks_size = size;
            marks_lt = rw e (All-lt s.marks s.gen u.marks_le);
            gen_le = omega arith;
            ids_kept = refl;
            dists_kept = refl;
          })
    ]

All-le : (xs : List ℕ) (n : ℕ) → All (λ m. m < n) xs → All (λ m. m ≤ n) xs
All-le [] n h = tt
All-le (x ∷ xs) n h = (omega arith, All-le xs n h.1)

-- Behind the first mark of a generation no other node has it.
only_marked :
    (marks : List ℕ) (gen entry : ℕ)
    → All (λ m. m < gen) marks
    → entry < length marks
    → (v : ℕ) → get_or (set marks entry gen) v 0 ≡ gen
    → v ≡ entry
only_marked marks gen entry lt inside v e =
    let first = All-get_or (λ m. m < gen) marks entry 0 lt inside in
    elim (ℕ_discrete v entry) [
      | yes same ↦ same
      | no other ↦ elim (dec_lt v (length marks)) [
        | yes l ↦
            ground (arith, get_or-set marks entry v gen 0, All-get_or (λ m. m < gen) marks v 0 lt l)
        | no l ↦ ground (arith, get_or-set marks entry v gen 0, get_or_out marks v 0)
      ]
    ]

abbrev pub Nobody : ℕ → Type 0
Nobody _ = ⊥

-- The rounds that the search can still take.
abbrev pub work : VisitSlot → ℕ
work s = unvisited s + length s.cands

module _ (g : Graph) (w : WellFormed g) (a : Vector ℕ) (ha : Each IsByte a) where
  -- The search has begun: the entry is visited and the only result.
  pub record Started (entry : ℕ) (t : VisitSlot) : Type 0 where
    pub going : Searching g a Nobody t
    pub marked : Marked t entry
    pub work_le : work t ≤ g.n

  pub start_search-Started :
      (entry : ℕ) (slot : VisitSlot)
      → entry < g.n
      → Usable g slot
      → Returns (Started entry) (start_search g (widen a) entry slot)
  unfolding start_search
  start_search-Started entry slot h u =
      let s = bump slot in
      let f = bump-Fresh g slot u in
      let size = f.marks_size in
      let ids = ap length f.ids_kept ∙ u.ids_size in
      let dists = ap length f.dists_kept ∙ u.dists_size in
      let old = All-get_or (λ m. m < s.gen) s.marks entry 0 f.marks_lt (omega arith) in
      let d0 = pos (near g a entry) in
      let x : DistItem = record { id = entry; dist = d0 } in
      let mine : get_or (set s.marks entry s.gen) entry 0 ≡ s.gen =
        ground (arith, get_or-set s.marks entry entry s.gen 0) in
      let only = only_marked s.marks s.gen entry f.marks_lt (omega arith) in
      let first_id = λ (j : ℕ). get_or-set s.res_ids 0 j entry 0 (omega arith) in
      let first_dist = λ (j : ℕ). get_or-set s.res_dists 0 j d0 (pos 0) (omega arith) in
      rw
        (
          vector_at-vec g (WellFormed-VectorsOk g w) a ha entry h,
          dist-near g (WellFormed-VectorsOk g w) a ha entry h,
          store-set s.marks entry s.gen (omega arith),
        )
        (Returns-bind (push_min-Sifted [] x λ c p q. absurd (omega arith)) λ cands (heap, same).
          rw (store-set s.res_ids 0 entry (omega arith), store-set s.res_dists 0 d0 (omega arith))
            (returns (record {
              going = record {
                marks_size = length-set s.marks entry s.gen ∙ size;
                marks_le =
                    All-set (λ m. m ≤ s.gen) s.marks entry s.gen (All-le s.marks s.gen f.marks_lt)
                      (omega arith);
                gen_pos = omega arith;
                gen_le = f.gen_le;
                results = record {
                  ids_size = length-set s.res_ids 0 entry ∙ ids;
                  dists_size = length-set s.res_dists 0 d0 ∙ dists;
                  some_result = omega arith;
                  room = omega arith;
                  inside = λ j p. ground (arith, first_id j);
                  exact = λ j p. ground (arith, first_id j, first_dist j);
                  distinct = λ i j p q. absurd (omega arith);
                  worst = record {
                    inside = omega arith;
                    at = ground (arith, first_dist 0);
                    most = λ j p. ground (arith, first_dist j);
                  };
                };
                cands = record {
                  heap = heap;
                  sound =
                      (let fine : cand_ok g a x ≡ true = ground arith in
                        ground (arith, same (cand_ok g a), Same-length cands (x ∷ []) same));
                };
                visited = λ v (j, p, e). ground (arith, first_id j, mine);
                best = λ v seen. inl (0, omega arith, ground (arith, first_id 0, only v seen));
                closed =
                    λ v (j, p, e). inr (inl (ground (arith, same (λ c. c.id == v), first_id j)));
              };
              marked = mine;
              work_le = ground (
                arith,
                tally-set (λ m. not (m == s.gen)) s.marks entry s.gen 0,
                tally-le (λ m. not (m == s.gen)) s.marks,
                Same-length cands (x ∷ []) same,
              );
            })))
