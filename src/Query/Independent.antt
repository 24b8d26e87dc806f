-- ===== src/Query/Independent.antt =====
-- The answer to a query does not depend on what the slot held before.
use fraud_detection_api.Base.{
  ℕ, zero, suc, ◌+◌, ◌<◌, ◌≡◌, refl, ap, subst, ℤ, pos, ltb_ℤ, List, ◌∷◌, length, get_or, arith,
  Bool, true, false, Bool-cases, inl, inr, if◌then◌else◌, replicate, Option, none, some, pos_part,
}
use fraud_detection_api.Run.{ok, ◌>>=◌}
use fraud_detection_api.Alike.{Alike, both, Alike-bind, Alike-same}
use fraud_detection_api.Vector.{Vector}
use fraud_detection_api.Graph.{Graph, fetch}
use fraud_detection_api.Query.Slot.{VisitSlot, store}
use fraud_detection_api.Query.Search.{query_fast5, descend}
use fraud_detection_api.Query.Top.{better, pick_loop, top_loop, top5_from_results}
use fraud_detection_api.Query.Start.{Usable}
use fraud_detection_api.Query.Twin.{Twin, fetch_same}
use fraud_detection_api.Query.TwinSearch.{search_layer0_fast-Twin}

-- The best pick is one of the first `m` results.
abbrev Inside : ℕ → Option (ℕ × ℤ) → Type 0
Inside m none = Unit {0}
Inside m (some (i, d)) = i < m

better-Inside :
    (taken : Bool) (best : Option (ℕ × ℤ)) (i : ℕ) (d : ℤ)
    → Inside i best
    → Inside (i + 1) (if taken then best else better best i d)
better-Inside true none i d h = tt
better-Inside true (some (p, x)) i d h = omega arith
better-Inside false none i d h = omega arith
better-Inside false (some (p, x)) i d h = elim (Bool-cases (ltb_ℤ d x)) [
  | inl t ↦ rw t (omega arith)
  | inr f ↦ rw f (omega arith)
]

pick_loop-Alike :
    (k : ℕ) (taken : List Bool) (xs ys : List ℤ) (i : ℕ) (best : Option (ℕ × ℤ))
    → length xs ≡ length ys
    → ((j : ℕ) → j < i + k → get_or xs j (pos 0) ≡ get_or ys j (pos 0))
    → Inside i best
    → Alike
        (λ b c. (b ≡ c) × Inside (i + k) b)
        (pick_loop k taken xs i best)
        (pick_loop k taken ys i best)
unfolding pick_loop
pick_loop-Alike zero taken xs ys i best l e h =
    let z : i ≡ i + 0 = omega arith in both (refl, subst (λ m. Inside m best) z h)
pick_loop-Alike (suc k) taken xs ys i best l e h =
    let z : i + 1 + k ≡ i + suc k = omega arith in
    Alike-same (fetch taken i) λ t. rw (fetch_same xs ys i (pos 0) l (λ p. e i (omega arith))) (
      Alike-same (fetch ys i) λ d.
        subst
          (λ m.
            Alike (λ b c. (b ≡ c) × Inside m b)
              (pick_loop k taken xs (i + 1) (if t then best else better best i d))
              (pick_loop k taken ys (i + 1) (if t then best else better best i d)))
          z
          (pick_loop-Alike k taken xs ys (i + 1) _ l (λ j p. e j (omega arith))
            (better-Inside t best i d h)))

pick-Alike :
    (k : ℕ) (s t : VisitSlot) (taken : List Bool)
    → Twin s t
    → ((other : List Bool) → Alike ◌≡◌ (top_loop k s other) (top_loop k t other))
    → (best : Option (ℕ × ℤ)) → Inside s.res_cnt best
    → Alike ◌≡◌
        (elim best [
          | none ↦ (do rest ← top_loop k s taken; ok (0 ∷ rest))
          | some (i, d) ↦ (do
            id ← fetch s.res_ids i
            next ← store taken i true
            rest ← top_loop k s next
            ok (id ∷ rest))
        ])
        (elim best [
          | none ↦ (do rest ← top_loop k t taken; ok (0 ∷ rest))
          | some (i, d) ↦ (do
            id ← fetch t.res_ids i
            next ← store taken i true
            rest ← top_loop k t next
            ok (id ∷ rest))
        ])
pick-Alike k s t taken w again none h = Alike-bind (again taken) λ x y e. both (ap (λ r. 0 ∷ r) e)
pick-Alike k s t taken w again (some (i, d)) h =
    rw (fetch_same s.res_ids t.res_ids i 0 w.ids_size (λ _. w.ids_same i h)) (
      Alike-same (fetch t.res_ids i) λ id.
        Alike-same (store taken i true)
          λ next. Alike-bind (again next) λ x y e. both (ap (λ r. id ∷ r) e))

top_loop-Alike :
    (k : ℕ) (s t : VisitSlot) (taken : List Bool)
    → Twin s t
    → Alike ◌≡◌ (top_loop k s taken) (top_loop k t taken)
unfolding top_loop
top_loop-Alike zero s t taken w = both refl
top_loop-Alike (suc k) s t taken w = rw⁻¹ w.cnt_same (
    Alike-bind
      (pick_loop-Alike s.res_cnt taken s.res_dists t.res_dists 0 none w.dists_size
        (λ j p. w.dists_same j (omega arith)) tt)
      λ a b (e, h).
        let z : 0 + s.res_cnt ≡ s.res_cnt = omega arith in
        rw⁻¹ e (
          pick-Alike k s t taken w (λ other. top_loop-Alike k s t other w) a
            (subst (λ m. Inside m a) z h)))

-- Two usable slots give the same five ids for the same query, or fail in the same way, whatever
-- earlier queries left in them: marks, generation and results of old queries have no part in the
-- answer.
pub query_fast5-Alike :
    (g : Graph) (q : Vector ℤ) (s t : VisitSlot)
    → Usable g s
    → Usable g t
    → Alike (λ (_, out) (_, other). out ≡ other) (query_fast5 g q s) (query_fast5 g q t)
unfolding query_fast5 top5_from_results
query_fast5-Alike g q s t us ut =
    Alike-same (descend (pos_part g.max_layer) g q g.entry_point) λ entry.
      Alike-bind (search_layer0_fast-Twin g q entry s t us ut)
        λ u v w. Alike-bind (top_loop-Alike 5 u v (replicate 10 false) w) λ out other e. both e
