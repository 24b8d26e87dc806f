-- ===== src/Build/Places.antt =====
-- A layer among the finished layers, and a node among the stored ids of a layer.
use fraud_detection_api.Base.{
  ◌==◌, Bool-cases, length, get_elem?, get_or, take, drop, ℤ, signed32, pos, tally_find, ℕ, zero,
  suc, ◌+◌, ◌^◌, ◌≤◌, ◌<◌, ◌≡◌, refl, sym, ap, ◌∙◌, ◌≢◌, inl, inr, some, List, [], ◌∷◌, arith,
}
use fraud_detection_api.Build.{Links, links_of, has_node}
use fraud_detection_api.Build.Finalize.{ids_in}
use fraud_detection_api.Build.Links.{LinksOk}
use fraud_detection_api.Build.Sizes.{slots, length-map, length-ids_in}
use fraud_detection_api.Build.Sorted.{
  ids_in-below, missing_key, found_key, stored_ids, get_elem?-stored,
}
use fraud_detection_api.Graph.Lookup.{lt-length_of_get_elem?}

pub drop-get_or :
    (layers : List Links) (l : ℕ)
    → l < length layers
    → drop l layers ≡ get_or layers l [] ∷ drop (suc l) layers
drop-get_or [] l h = absurd (omega arith)
drop-get_or (links ∷ layers) zero h = refl
drop-get_or (links ∷ layers) (suc l) h = drop-get_or layers l (omega arith)

pub slots-take-get_or :
    (layers : List Links) (l : ℕ)
    → l < length layers
    → slots (take (suc l) layers) ≡ slots (take l layers) + length (get_or layers l [])
unfolding slots
slots-take-get_or [] l h = absurd (omega arith)
slots-take-get_or (links ∷ layers) zero h = omega arith
slots-take-get_or (links ∷ layers) (suc l) h = omega (arith, slots-take-get_or layers l)

pub take_empty : (n : ℕ) (xs : List ℤ) → xs ≡ [] → take n xs ≡ []
take_empty zero xs e = refl
take_empty (suc n) [] e = refl
take_empty (suc n) (x ∷ xs) e = absurd (cc)

drop_none {ℓ} : {A : Type ℓ} (n : ℕ) → drop {A = A} n [] ≡ []
drop_none zero = refl
drop_none (suc n) = refl

pub drop-drop {ℓ} : {A : Type ℓ} (n m : ℕ) (xs : List A) → drop (n + m) xs ≡ drop m (drop n xs)
drop-drop zero m xs = ap (λ j. drop j xs) (omega arith)
drop-drop (suc n) m [] = drop_none (suc n + m) ∙ sym (drop_none m)
drop-drop (suc n) m (x ∷ xs) =
    let e : suc n + m ≡ suc (n + m) = omega arith in ap (λ j. drop j (x ∷ xs)) e ∙ drop-drop n m xs

-- An id that a search for it finds, or does not find, among the stored ids.
module _ (k : ℕ) (links : Links) (o : LinksOk k links) (small : k ≤ 2 ^ 31) (id : ℕ)
    (id_small : id < 2 ^ 31) where
  pub located :
      (i : ℕ)
      → get_elem? (stored_ids (ids_in links)) i ≡ some (signed32 id)
      → (i < length links) × (get_or (ids_in links) i 0 ≡ id)
  located i e =
      let (inside, _) = lt-length_of_get_elem? (stored_ids (ids_in links)) i e in
      let size = length-map (λ x. signed32 x) (ids_in links) in
      let count = length-ids_in links in
      let at = get_elem?-stored (ids_in links) i k small (ids_in-below k links o) (omega arith) in
      let exact : signed32 id ≡ pos id = ground arith in
      let same : some (pos (get_or (ids_in links) i 0)) ≡ some (pos id) =
        sym at ∙ e ∙ ap some exact in
      (omega arith, cc)

  pub absent :
      ((i : ℕ) → get_elem? (stored_ids (ids_in links)) i ≢ some (signed32 id))
      → links_of links id ≡ []
  absent none_there = elim (Bool-cases (has_node links id)) [
    | inl has ↦
        let (i, l, e) = tally_find (λ y. y == id) (ids_in links) 0 (found_key links id has) in
        let at = get_elem?-stored (ids_in links) i k small (ids_in-below k links o) l in
        let same : get_or (ids_in links) i 0 ≡ id = ground arith in
        let exact : signed32 id ≡ pos id = ground arith in
        absurd (none_there i (at ∙ ap (λ x. some (pos x)) same ∙ sym (ap some exact)))
    | inr lacks ↦ missing_key links id lacks
  ]
