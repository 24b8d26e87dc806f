-- ===== src/Query/Twin.antt =====
-- What a query reads of a slot: two slots that agree on this stay so, whatever else they hold.
use native.Mathlib.Decide.{ℕ_discrete, dec_lt}
use mathlib.Core.Logic.{◌≢◌}
use fraud_detection_api.Base.{
  ℕ, zero, suc, ◌+◌, ◌<◌, ◌≤◌, ◌≡◌, refl, sym, ◌∙◌, ap, ℤ, pos, ltb, List, [], ◌∷◌, length,
  length-set, set, get_or, get_or-set, arith, true, false, ◌==◌,
}
use fraud_detection_api.Run.{ok, panic}
use fraud_detection_api.Alike.{Alike, both, both_panic, Alike-if, bind_same}
use fraud_detection_api.Graph.{fetch}
use fraud_detection_api.Graph.WellFormed.{fetch-get_or}
use fraud_detection_api.Query.Slot.{VisitSlot, store, worst_loop, find_worst}
use fraud_detection_api.Query.Results.{res_id, res_dist}

pub record Twin (s t : VisitSlot) : Type 0 where
  pub marks_size : length s.marks ≡ length t.marks
  pub seen :
      (v : ℕ) → v < length s.marks → (get_or s.marks v 0 == s.gen) ≡ (get_or t.marks v 0 == t.gen)
  pub cands_same : s.cands ≡ t.cands
  pub cnt_same : s.res_cnt ≡ t.res_cnt
  pub worst_d_same : s.res_worst_d ≡ t.res_worst_d
  pub worst_i_same : s.res_worst_i ≡ t.res_worst_i
  pub ids_size : length s.res_ids ≡ length t.res_ids
  pub dists_size : length s.res_dists ≡ length t.res_dists
  pub ids_same : (j : ℕ) → j < s.res_cnt → res_id s j ≡ res_id t j
  pub dists_same : (j : ℕ) → j < s.res_cnt → res_dist s j ≡ res_dist t j

pub fetch_out {ℓ} : {A : Type ℓ} (xs : List A) (i : ℕ) → length xs ≤ i → fetch xs i ≡ panic
fetch_out [] i h = refl
fetch_out (x ∷ xs) zero h = absurd (omega arith)
fetch_out (x ∷ xs) (suc i) h = fetch_out xs i (omega arith)

-- Two lists with the same length and the same entry at `i`.
pub fetch_same {ℓ} :
    {A : Type ℓ} (xs ys : List A) (i : ℕ) (d : A)
    → length xs ≡ length ys
    → (i < length xs → get_or xs i d ≡ get_or ys i d)
    → fetch xs i ≡ fetch ys i
fetch_same xs ys i d l e = elim (dec_lt i (length xs)) [
  | yes h ↦ fetch-get_or xs i d h ∙ ap ok (e h) ∙ sym (fetch-get_or ys i d (omega arith))
  | no h ↦ fetch_out xs i (omega arith) ∙ sym (fetch_out ys i (omega arith))
]

worst_loop_same :
    (k : ℕ) (xs ys : List ℤ) (i : ℕ) (d : ℤ) (at : ℕ)
    → length xs ≡ length ys
    → ((j : ℕ) → j < i + k → get_or xs j (pos 0) ≡ get_or ys j (pos 0))
    → worst_loop k xs i d at ≡ worst_loop k ys i d at
unfolding worst_loop
worst_loop_same zero xs ys i d at l e = refl
worst_loop_same (suc k) xs ys i d at l e =
    rw (fetch_same xs ys i (pos 0) l (λ h. e i (omega arith)))
      (bind_same (fetch ys i) λ x. worst_loop_same k xs ys (i + 1) _ _ l λ j h. e j (omega arith))

pub find_worst_same :
    (xs ys : List ℤ)
    → length xs ≡ length ys
    → ((j : ℕ) → j < 10 → get_or xs j (pos 0) ≡ get_or ys j (pos 0))
    → find_worst xs ≡ find_worst ys
unfolding find_worst
find_worst_same xs ys l e =
    rw (fetch_same xs ys 0 (pos 0) l (λ h. e 0 (omega arith)))
      (bind_same (fetch ys 0) λ x. worst_loop_same 9 xs ys 1 x 0 l λ j h. e j (omega arith))

-- The entries behind a write to both lists.
set_same {ℓ} :
    {A : Type ℓ} (xs ys : List A) (i j : ℕ) (v d : A)
    → length xs ≡ length ys
    → i < length xs
    → (i ≢ j → get_or xs j d ≡ get_or ys j d)
    → get_or (set xs i v) j d ≡ get_or (set ys i v) j d
set_same xs ys i j v d l h e = elim (ℕ_discrete i j) [
  | yes same ↦
      rw (get_or-set xs i j v d h, get_or-set ys i j v d (omega arith))
        (let t : (i == j) ≡ true = ground arith in rw t)
  | no other ↦
      rw (get_or-set xs i j v d h, get_or-set ys i j v d (omega arith))
        (let t : (i == j) ≡ false = ground arith in rw t (e other))
]

-- A write to both lists.
pub record Written {ℓ} {A : Type ℓ} (xs ys : List A) (i : ℕ) (d : A) (a b : List A) : Type ℓ where
  pub inside : i < length xs
  pub size : length a ≡ length b
  pub kept : length a ≡ length xs
  pub same : (j : ℕ) → (i ≢ j → get_or xs j d ≡ get_or ys j d) → get_or a j d ≡ get_or b j d

pub store-Written {ℓ} :
    {A : Type ℓ} (xs ys : List A) (i : ℕ) (v d : A)
    → length xs ≡ length ys
    → Alike (Written xs ys i d) (store xs i v) (store ys i v)
store-Written xs ys i v d l = rw⁻¹ l (
    Alike-if (ltb i (length xs))
      (λ t. both (record {
        inside = ground arith;
        size = length-set xs i v ∙ l ∙ sym (length-set ys i v);
        kept = length-set xs i v;
        same = λ j e. set_same xs ys i j v d l (ground arith) e;
      }))
      λ f. both_panic)
