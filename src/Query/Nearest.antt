-- ===== src/Query/Nearest.antt =====
-- The selection of the five nearest results.
use mathlib.Core.Logic.{◌≢◌}
use native.Mathlib.Decide.{ℕ_discrete}
use fraud_detection_api.Base.{
  ℕ, zero, suc, ◌+◌, ◌<◌, ◌≤◌, ◌≡◌, refl, sym, ◌∙◌, ap, subst, ◌⊎◌, inl, inr, ℤ, ◌≤ℤ◌, Bool, true,
  false, List, ◌∷◌, Option, none, some, length, length-set, replicate, set, get_or, get_or-set,
  arith,
}
use fraud_detection_api.Run.{ok, ◌>>=◌, Returns, returns, Returns-bind, Returns-map}
use fraud_detection_api.Vector.{Vector}
use fraud_detection_api.Graph.{Graph, fetch}
use fraud_detection_api.Graph.WellFormed.{fetch-get_or}
use fraud_detection_api.Query.Slot.{VisitSlot, store}
use fraud_detection_api.Query.Top.{top_loop, top5_from_results}
use fraud_detection_api.Query.Near.{near}
use fraud_detection_api.Query.Results.{res_id, res_dist, ResOk, InRes}
use fraud_detection_api.Query.Admit.{store-set}
use fraud_detection_api.Query.Pick.{
  is_taken, IsPick, free, free-none, free-set, free-start, get_or-replicate, pick_loop-IsPick,
}

module _ (g : Graph) (a : Vector ℕ) (s : VisitSlot) (r : ResOk g a s) where
  -- `k` picks among the results that are not taken.
  record Picks (taken : List Bool) (k : ℕ) (out : List ℕ) : Type 0 where
    size : length out ≡ k
    short : (i : ℕ) → free s.res_cnt taken ≤ i → i < k → get_or out i 0 ≡ 0
    picked :
        (i : ℕ)
        → i < k
        → i < free s.res_cnt taken
        → (j : ℕ) × (j < s.res_cnt) × (is_taken taken j ≡ false) × (res_id s j ≡ get_or out i 0)
    ascending :
        (i j : ℕ)
        → i < j
        → j < k
        → j < free s.res_cnt taken
        → near g a (get_or out i 0) ≤ near g a (get_or out j 0)
    distinct :
        (i j : ℕ) → i < j → j < k → j < free s.res_cnt taken → get_or out i 0 ≢ get_or out j 0
    nearest :
        (j : ℕ)
        → j < s.res_cnt
        → is_taken taken j ≡ false
        → ((i : ℕ) × (i < k) × (i < free s.res_cnt taken) × (get_or out i 0 ≡ res_id s j))
          ⊎ ((i : ℕ)
              → i < k
              → i < free s.res_cnt taken
              → near g a (get_or out i 0) ≤ near g a (res_id s j))

  -- Behind the last result, the picks are 0.
  Picks-none :
      (taken : List Bool) (k : ℕ) (out : List ℕ)
      → free s.res_cnt taken ≡ 0
      → Picks taken k out
      → Picks taken (suc k) (0 ∷ out)
  Picks-none taken k out empty p = record {
    size = ap suc p.size;
    short = fill;
    picked = λ i l f. absurd (omega arith);
    ascending = λ i j l m f. absurd (omega arith);
    distinct = λ i j l m f. absurd (omega arith);
    nearest = λ j l f. inr λ i m n. absurd (omega arith);
  }
    where
      fill : (i : ℕ) → free s.res_cnt taken ≤ i → i < suc k → get_or (0 ∷ out) i 0 ≡ 0
      fill zero h l = refl
      fill (suc i) h l = p.short i (omega arith) (omega arith)

  module _ (taken : List Bool) (h : length taken ≡ 10) (q : ℕ) (l : q < s.res_cnt)
      (f : is_taken taken q ≡ false)
      (most : (j : ℕ) → j < s.res_cnt → is_taken taken j ≡ false → res_dist s q ≤ℤ res_dist s j)
      (k : ℕ) (out : List ℕ) (p : Picks (set taken q true) k out) where
    abbrev picks : List ℕ
    picks = res_id s q ∷ out

    -- Which results are not taken now.
    less : free s.res_cnt (set taken q true) + 1 ≡ free s.res_cnt taken
    less = let m = r.room in ground (arith, free-set s.res_cnt taken q)

    other : (j : ℕ) → is_taken (set taken q true) j ≡ false → (is_taken taken j ≡ false) × (q ≢ j)
    other j e =
        let m = r.room in
        let at = get_or-set taken q j true false (omega arith) in
        elim (ℕ_discrete q j) [ yes same ↦ absurd (ground arith) | no o ↦ (ground arith, o) ]

    far_from :
        (j : ℕ)
        → j < s.res_cnt
        → is_taken taken j ≡ false
        → near g a (res_id s q) ≤ near g a (res_id s j)
    far_from j m e = ground (arith, most j m e, r.exact j m, r.exact q l)

    apart : (i j : ℕ) → i < s.res_cnt → j < s.res_cnt → i ≢ j → res_id s i ≢ res_id s j
    apart i j m n o e = ground (arith, r.distinct i j, r.distinct j i)

    short_some : (i : ℕ) → free s.res_cnt taken ≤ i → i < suc k → get_or picks i 0 ≡ 0
    short_some zero m n = absurd (omega (arith, less))
    short_some (suc i) m n = p.short i (omega (arith, less)) (omega arith)

    picked_some :
        (i : ℕ)
        → i < suc k
        → i < free s.res_cnt taken
        → (j : ℕ) × (j < s.res_cnt) × (is_taken taken j ≡ false) × (res_id s j ≡ get_or picks i 0)
    picked_some zero m n = (q, l, f, refl)
    picked_some (suc i) m n =
        let (j, inside, fresh, at) = p.picked i (omega arith) (omega (arith, less)) in
        (j, inside, (other j fresh).0, at)

    ascending_some :
        (i j : ℕ)
        → i < j
        → j < suc k
        → j < free s.res_cnt taken
        → near g a (get_or picks i 0) ≤ near g a (get_or picks j 0)
    ascending_some i zero m n e = absurd (omega arith)
    ascending_some zero (suc j) m n e =
        let (x, inside, fresh, at) = p.picked j (omega arith) (omega (arith, less)) in
        subst (λ v. near g a (res_id s q) ≤ near g a v) at (far_from x inside (other x fresh).0)
    ascending_some (suc i) (suc j) m n e =
        p.ascending i j (omega arith) (omega arith) (omega (arith, less))

    distinct_some :
        (i j : ℕ)
        → i < j
        → j < suc k
        → j < free s.res_cnt taken
        → get_or picks i 0 ≢ get_or picks j 0
    distinct_some i zero m n e same = absurd (omega arith)
    distinct_some zero (suc j) m n e same =
        let (x, inside, fresh, at) = p.picked j (omega arith) (omega (arith, less)) in
        apart q x l inside (other x fresh).1 (same ∙ sym at)
    distinct_some (suc i) (suc j) m n e same =
        p.distinct i j (omega arith) (omega arith) (omega (arith, less)) same

    later_far :
        (j : ℕ)
        → j < s.res_cnt
        → is_taken taken j ≡ false
        → ((i : ℕ)
            → i < k
            → i < free s.res_cnt (set taken q true)
            → near g a (get_or out i 0) ≤ near g a (res_id s j))
        → (i : ℕ) → i < suc k
        → i < free s.res_cnt taken
        → near g a (get_or picks i 0) ≤ near g a (res_id s j)
    later_far j inside fresh far zero m n = far_from j inside fresh
    later_far j inside fresh far (suc i) m n = far i (omega arith) (omega (arith, less))

    nearest_some :
        (j : ℕ)
        → j < s.res_cnt
        → is_taken taken j ≡ false
        → ((i : ℕ) × (i < suc k) × (i < free s.res_cnt taken) × (get_or picks i 0 ≡ res_id s j))
          ⊎ ((i : ℕ)
              → i < suc k
              → i < free s.res_cnt taken
              → near g a (get_or picks i 0) ≤ near g a (res_id s j))
    nearest_some j inside fresh =
        let room = r.room in
        elim (ℕ_discrete q j) [
          | yes e ↦ inl (0, omega arith, omega (arith, less), ap (res_id s) e)
          | no o ↦
              let still : is_taken (set taken q true) j ≡ false =
                ground (arith, get_or-set taken q j true false) in
              elim (p.nearest j inside still) [
                | inl (i, m, n, e) ↦ inl (suc i, omega arith, omega (arith, less), e)
                | inr far ↦ inr (later_far j inside fresh far)
              ]
        ]

    Picks-some : Picks taken (suc k) picks
    Picks-some = record {
      size = ap suc p.size;
      short = short_some;
      picked = picked_some;
      ascending = ascending_some;
      distinct = distinct_some;
      nearest = nearest_some;
    }

  pick-Picks :
      (k : ℕ) (taken : List Bool)
      → length taken ≡ 10
      → ((t : List Bool) → length t ≡ 10 → Returns (Picks t k) (top_loop k s t))
      → (best : Option (ℕ × ℤ)) → IsPick taken s.res_dists s.res_cnt best
      → Returns (Picks taken (suc k)) (elim best [
        | none ↦ (do rest ← top_loop k s taken; ok (0 ∷ rest))
        | some (i, d) ↦ (do
          id ← fetch s.res_ids i
          taken' ← store taken i true
          rest ← top_loop k s taken'
          ok (id ∷ rest))
      ])
  unfolding top_loop
  pick-Picks k taken h again none b =
      Returns-bind (again taken h)
        λ out p. returns (Picks-none taken k out (free-none s.res_cnt taken b) p)
  pick-Picks k taken h again (some (q, d)) (l, f, at, most) =
      let room = r.room in
      let ids = r.ids_size in
      rw (fetch-get_or s.res_ids q 0 (omega arith), store-set taken q true (omega arith))
        (Returns-bind (again (set taken q true) (length-set taken q true ∙ h))
          λ out p. returns (Picks-some taken h q l f (λ j m e. ground (arith, most j m e)) k out p))

  top_loop-Picks :
      (k : ℕ) (taken : List Bool) → length taken ≡ 10 → Returns (Picks taken k) (top_loop k s taken)
  unfolding top_loop
  top_loop-Picks zero taken h = returns (record {
    size = refl;
    short = λ i m n. absurd (omega arith);
    picked = λ i m n. absurd (omega arith);
    ascending = λ i j l m n. absurd (omega arith);
    distinct = λ i j l m n. absurd (omega arith);
    nearest = λ j l f. inr λ i m n. absurd (omega arith);
  })
  top_loop-Picks (suc k) taken h =
      let room = r.room in
      let ids = r.ids_size in
      let dists = r.dists_size in
      Returns-bind
        (pick_loop-IsPick s.res_cnt taken s.res_dists 0 none (omega arith) (omega arith)
          λ j l. absurd (omega arith))
        λ best b.
          let start : 0 + s.res_cnt ≡ s.res_cnt = omega arith in
          pick-Picks k taken h (top_loop-Picks k) best
            (subst (λ m. IsPick taken s.res_dists m best) start b)

  -- The five ids of the answer, in terms of the results.
  pub record Top5 (out : List ℕ) : Type 0 where
    pub size : length out ≡ 5
    pub short : (i : ℕ) → s.res_cnt ≤ i → i < 5 → get_or out i 0 ≡ 0
    pub picked : (i : ℕ) → i < 5 → i < s.res_cnt → InRes s (get_or out i 0)
    pub ascending :
        (i j : ℕ)
        → i < j
        → j < 5
        → j < s.res_cnt
        → near g a (get_or out i 0) ≤ near g a (get_or out j 0)
    pub distinct : (i j : ℕ) → i < j → j < 5 → j < s.res_cnt → get_or out i 0 ≢ get_or out j 0
    pub nearest :
        (v : ℕ)
        → InRes s v
        → ((i : ℕ) × (i < 5) × (i < s.res_cnt) × (get_or out i 0 ≡ v))
          ⊎ ((i : ℕ) → i < 5 → i < s.res_cnt → near g a (get_or out i 0) ≤ near g a v)

  -- The selection never panics on well-formed results. Its five ids are different results with
  -- ascending distances, as many as there are results and 0 from there on, and a result that is
  -- not among them is no closer to the query than any of them.
  pub top5_from_results-Top5 : Returns Top5 (top5_from_results s)
  unfolding top5_from_results
  top5_from_results-Top5 =
      let all = free-start s.res_cnt 10 in
      Returns-map (top_loop-Picks 5 (replicate 10 false) refl) λ out p. record {
        size = p.size;
        short = λ i l m. p.short i (omega arith) m;
        picked = λ i l m. (let (j, inside, f, e) = p.picked i l (omega arith) in (j, inside, e));
        ascending = λ i j l m n. p.ascending i j l m (omega arith);
        distinct = λ i j l m n. p.distinct i j l m (omega arith);
        nearest = λ v (j, inside, e). elim (p.nearest j inside (get_or-replicate 10 j)) [
          | inl (i, l, m, at) ↦ inl (i, l, omega arith, at ∙ e)
          | inr far ↦
              inr λ i l m.
                subst (λ x. near g a (get_or out i 0) ≤ near g a x) e (far i l (omega arith))
        ];
      }
