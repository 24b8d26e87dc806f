-- ===== src/Build/Chosen.antt =====
-- The loop of the choice of neighbors: what it keeps, and that it never panics.
-- What the loop makes of the kept items and the candidates that are left.
use fraud_detection_api.Base.{
  ltb, leb, ◌==◌, if◌then◌else◌, ==_refl, Bool-cases, length, length-append, ◌≤ℤ◌, ◌<ℤ◌, pos, tally,
  tally-append, tally-le, get_or-append, ℕ, zero, suc, ◌+◌, ◌≤◌, ◌<◌, ◌≡◌, refl, sym, ap, ◌∙◌,
  subst, ◌⊎◌, inl, inr, Bool, List, [], ◌∷◌, ◌++◌, arith,
}
use fraud_detection_api.Build.Diverse.{
  Within, apart, IsDiverse, get_or-append_one, IsCovered, is_diverse-Tested,
}
use fraud_detection_api.Build.Select.{keep_loop}
use fraud_detection_api.Graph.{Graph}
use fraud_detection_api.Graph.WellFormed.{VectorsOk}
use fraud_detection_api.Query.Heap.{DistItem}
use fraud_detection_api.Query.Heap.Order.{no_item, item}
use fraud_detection_api.Query.Near.{near, vec-Each}
use fraud_detection_api.Run.{Returns, Returns-bind, Returns-if, Returns-map, returns}

pub record Grown (g : Graph) (m : ℕ) (kept cands r : List DistItem) : Type 0 where
  pub few : length r ≤ m
  pub diverse : IsDiverse g r
  pub from : (p : DistItem → Bool) → tally p r ≤ tally p kept + tally p cands
  pub starts : (j : ℕ) → j < length kept → item r j ≡ item kept j
  pub longer : length kept ≤ length r
  pub first :
      length kept ≡ 0 → 0 < m → 0 < length cands → (0 < length r) × (item r 0 ≡ item cands 0)
  pub complete :
      length r < m
      → (i : ℕ) → i < length cands
      → ((j : ℕ) × (j < length r) × (item r j ≡ item cands i)) ⊎ IsCovered g (item cands i) r

module _ (k : ℕ) (g : Graph) (w : VectorsOk g) (bound : k ≤ g.n) where
  Grown-taken :
      (m : ℕ) (kept : List DistItem) (c : DistItem) (cands r : List DistItem)
      → Grown g m (kept ++ c ∷ []) cands r
      → Grown g m kept (c ∷ cands) r
  Grown-taken m kept c cands r o =
      let size = length-append kept (c ∷ []) in
      let at = get_or-append_one kept c no_item in
      let more = o.longer in
      record {
        few = o.few;
        diverse = o.diverse;
        from = λ p. omega (arith, o.from p, tally-append p kept (c ∷ []));
        starts = λ j l. o.starts j (omega arith) ∙ get_or-append kept (c ∷ []) j no_item l;
        longer = omega arith;
        first =
            λ none_kept some_room some_cand. (omega arith, ap (item r) (sym none_kept) ∙ kept_here);
        complete = found;
      }
    where
      kept_here : item r (length kept) ≡ c
      kept_here =
          let size = length-append kept (c ∷ []) in
          let more = o.longer in
          let last : item (kept ++ c ∷ []) (length kept) ≡ c =
            get_or-append_one kept c no_item (length kept)
            ∙ ap (λ t. if t then c else item kept (length kept)) (==_refl (length kept)) in
          o.starts (length kept) (omega arith) ∙ last

      found :
          length r < m
          → (i : ℕ) → i < suc (length cands)
          → ((j : ℕ) × (j < length r) × (item r j ≡ item (c ∷ cands) i))
            ⊎ IsCovered g (item (c ∷ cands) i) r
      found l zero h =
          let size = length-append kept (c ∷ []) in
          let more = o.longer in inl (length kept, omega arith, kept_here)
      found l (suc i) h = o.complete l i (omega arith)

  Grown-left :
      (m : ℕ) (kept : List DistItem) (c : DistItem) (cands r : List DistItem)
      → Grown g m kept cands r
      → IsCovered g c kept
      → Grown g m kept (c ∷ cands) r
  Grown-left m kept c cands r o (j, inside, near) = record {
    few = o.few;
    diverse = o.diverse;
    from = λ p. omega (arith, o.from p);
    starts = o.starts;
    longer = o.longer;
    first = λ none_kept some_room some_cand. absurd (omega arith);
    complete = found;
  }
    where
      found :
          length r < m
          → (i : ℕ) → i < suc (length cands)
          → ((j : ℕ) × (j < length r) × (item r j ≡ item (c ∷ cands) i))
            ⊎ IsCovered g (item (c ∷ cands) i) r
      found l zero h =
          let more = o.longer in
          let still : pos (apart g c.id (item r j).id) <ℤ c.dist =
            subst (λ x. pos (apart g c.id x.id) <ℤ c.dist) (sym (o.starts j inside)) near in
          inr (j, omega arith, still)
      found l (suc i) h = o.complete l i (omega arith)

  append-IsDiverse :
      (kept : List DistItem) (c : DistItem)
      → IsDiverse g kept
      → ((i : ℕ) → i < length kept → c.dist ≤ℤ pos (apart g c.id (item kept i).id))
      → IsDiverse g (kept ++ c ∷ [])
  append-IsDiverse kept c d far_off i j l h =
      let size = length-append kept (c ∷ []) in
      let at = get_or-append_one kept c no_item in
      let whole = kept ++ c ∷ [] in
      let earlier : item whole i ≡ item kept i = ground (arith, at i) in
      elim (Bool-cases (j == length kept)) [
        | inl last ↦
            let new : item whole j ≡ c = at j ∙ ap (λ t. if t then c else item kept j) last in
            far_apart (sym new) (sym earlier) (far_off i (ground arith))
        | inr old ↦
            let same : item whole j ≡ item kept j =
              at j ∙ ap (λ t. if t then c else item kept j) old in
            far_apart (sym same) (sym earlier) (d i j l (ground arith))
      ]
    where
      far_apart :
          {x x' y y' : DistItem}
          → x ≡ x'
          → y ≡ y'
          → x.dist ≤ℤ pos (apart g x.id y.id)
          → x'.dist ≤ℤ pos (apart g x'.id y'.id)
      far_apart {x} {x'} {y} {y'} e f t =
          subst (λ u. u.dist ≤ℤ pos (apart g u.id y'.id)) e
            (subst (λ u. x.dist ≤ℤ pos (apart g x.id u.id)) f t)

  pub Within-append : (xs ys : List DistItem) → Within k xs → Within k ys → Within k (xs ++ ys)
  Within-append xs ys x y = omega (arith, length-append xs ys, tally-append (λ c. ltb c.id k) xs ys)

  pub keep_loop-Grown :
      (m : ℕ) (kept cands : List DistItem)
      → length kept ≤ m
      → IsDiverse g kept
      → Within k kept
      → Within k cands
      → Returns (Grown g m kept cands) (keep_loop g m kept cands)
  unfolding keep_loop
  keep_loop-Grown m kept [] few d wk wc = returns (record {
    few = few;
    diverse = d;
    from = λ p. omega arith;
    starts = λ j l. refl;
    longer = omega arith;
    first = λ none_kept some_room some_cand. absurd (omega arith);
    complete = λ l i h. absurd (omega arith);
  })
  keep_loop-Grown m kept (c ∷ cands) few d wk wc =
      Returns-if (leb m (length kept))
        (λ full. returns (record {
          few = few;
          diverse = d;
          from = λ p. omega arith;
          starts = λ j l. refl;
          longer = omega arith;
          first = λ none_kept some_room some_cand. absurd (ground arith);
          complete = λ l i h. absurd (ground arith);
        }))
        λ room.
          let most = tally-le (λ x. ltb x.id k) cands in
          let low : c.id < k = ground arith in
          let rest : Within k cands = ground arith in
          let (at, _) = vec-Each g w c.id (omega arith) in
          rw at (
            Returns-bind (is_diverse-Tested k g w bound c.id c.dist kept low wk) λ good t.
              elim (Bool-cases good) [
                | inl take_it ↦ rw take_it (
                    Returns-map
                      (keep_loop-Grown m (kept ++ c ∷ []) cands
                        (let s = length-append kept (c ∷ []) in ground arith)
                        (append-IsDiverse kept c d (t.yes_all take_it))
                        (Within-append kept (c ∷ []) wk (ground arith)) rest)
                      λ r o. Grown-taken m kept c cands r o)
                | inr leave_it ↦ rw leave_it (
                    Returns-map (keep_loop-Grown m kept cands few d wk rest)
                      λ r o. Grown-left m kept c cands r o (t.no_some leave_it))
              ])
