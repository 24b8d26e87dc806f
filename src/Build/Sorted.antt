-- ===== src/Build/Sorted.antt =====
-- The ids of a finished layer: sorted, each of them once, and no others than the map's keys.
use fraud_detection_api.Base.{
  ltb, leb, ◌==◌, Bool-cases, length, get_elem?, get_or, All, All-get_or, All-of_get_or, ℤ,
  signed32, pos, weight, tally, tally_full, ℕ, zero, suc, ◌+◌, ◌^◌, ◌≤◌, ◌<◌, ◌≡◌, refl, ap, inl,
  inr, Bool, true, false, some, List, [], ◌∷◌, map, arith,
}
use fraud_detection_api.Build.{Links, links_of, has_node}
use fraud_detection_api.Build.Finalize.{insert_id, sort_ids, ids_in}
use fraud_detection_api.Build.Links.{LinksOk}
use fraud_detection_api.Build.Sizes.{all_below, length-map, length-ids_in}
use fraud_detection_api.Graph.Lookup.{IsAscending, lt-length_of_get_elem?}

tally-insert_id :
    (p : ℕ → Bool) (x : ℕ) (ids : List ℕ) → tally p (insert_id x ids) ≡ weight (p x) + tally p ids
unfolding insert_id
tally-insert_id p x [] = refl
tally-insert_id p x (y ∷ ids) = ground (arith, tally-insert_id p x ids)

pub tally-sort_ids : (p : ℕ → Bool) (ids : List ℕ) → tally p (sort_ids ids) ≡ tally p ids
unfolding sort_ids
tally-sort_ids p [] = refl
tally-sort_ids p (x ∷ ids) = omega (arith, tally-insert_id p x (sort_ids ids), tally-sort_ids p ids)

-- Each id is less than all behind it.
abbrev Rising : List ℕ → Type 0
Rising [] = Unit {0}
Rising (x ∷ ids) = All (λ y. x < y) ids × Rising ids

All-insert_id :
    (low x : ℕ) (ids : List ℕ)
    → low < x
    → All (λ y. low < y) ids
    → All (λ y. low < y) (insert_id x ids)
unfolding insert_id
All-insert_id low x [] h a = (h, tt)
All-insert_id low x (y ∷ ids) h a = elim (Bool-cases (leb x y)) [
  | inl before ↦ rw (before, insert_id) (h, a)
  | inr behind ↦ rw (behind, insert_id) (a.0, All-insert_id low x ids h a.1)
]

All-lower : (x y : ℕ) (ids : List ℕ) → x < y → All (λ z. y < z) ids → All (λ z. x < z) ids
All-lower x y [] h a = tt
All-lower x y (z ∷ ids) h a = (let l = a.0 in omega arith, All-lower x y ids h a.1)

insert_id-Rising :
    (x : ℕ) (ids : List ℕ) → tally (λ y. y == x) ids ≡ 0 → Rising ids → Rising (insert_id x ids)
unfolding insert_id
insert_id-Rising x [] new r = (tt, tt)
insert_id-Rising x (y ∷ ids) new r = elim (Bool-cases (leb x y)) [
  | inl before ↦
      let less : x < y = ground arith in
      rw (before, insert_id) ((less, All-lower x y ids less r.0), r)
  | inr behind ↦
      let less : y < x = ground arith in
      rw (behind, insert_id)
        (All-insert_id y x ids less r.0, insert_id-Rising x ids (ground arith) r.1)
]

sort_ids-Rising : (ids : List ℕ) → ((v : ℕ) → tally (λ y. y == v) ids ≤ 1) → Rising (sort_ids ids)
unfolding sort_ids
sort_ids-Rising [] once = tt
sort_ids-Rising (x ∷ ids) once =
    insert_id-Rising x (sort_ids ids)
      (let one = once x in ground (arith, tally-sort_ids (λ y. y == x) ids))
      (sort_ids-Rising ids λ v. (let one = once v in ground arith))

-- The keys of a map.
pub tally-keys :
    (p : ℕ → Bool) (links : Links) → tally p (map (λ e. e.0) links) ≡ tally (λ e. p e.0) links
tally-keys p [] = refl
tally-keys p (e ∷ links) = omega (arith, tally-keys p links)

ids_in-Rising : (k : ℕ) (links : Links) → LinksOk k links → Rising (ids_in links)
ids_in-Rising k links o =
    sort_ids-Rising (map (λ e. e.0) links)
      λ v. omega (arith, tally-keys (λ y. y == v) links, o.once v)

-- All ids are below `k`.
pub ids_in-below : (k : ℕ) (links : Links) → LinksOk k links → All (λ v. v < k) (ids_in links)
ids_in-below k links o =
    All-of_get_or (λ v. v < k) (ids_in links) 0
      λ i l.
        let full : tally (λ v. ltb v k) (ids_in links) ≡ length (ids_in links) = omega (
          arith,
          tally-sort_ids (λ v. ltb v k) (map (λ e. e.0) links),
          tally-keys (λ v. ltb v k) links,
          all_below k links o.inside,
          length-ids_in links,
        ) in
        let low = tally_full (λ v. ltb v k) (ids_in links) i 0 full l in ground arith

-- An id that is no key is not stored.
pub missing_key : (links : Links) (id : ℕ) → has_node links id ≡ false → links_of links id ≡ []
unfolding has_node links_of
missing_key [] id h = refl
missing_key (e ∷ links) id h = elim (Bool-cases (e.0 == id)) [
  | inl same ↦ absurd (ground arith)
  | inr other ↦ rw (other, links_of) (missing_key links id (ground arith))
]

tally-has_node :
    (links : Links) (id : ℕ) → has_node links id ≡ true → 0 < tally (λ e. e.0 == id) links
unfolding has_node
tally-has_node [] id h = absurd (cc)
tally-has_node (e ∷ links) id h = ground (arith, tally-has_node links id)

pub found_key :
    (links : Links) (id : ℕ) → has_node links id ≡ true → 0 < tally (λ y. y == id) (ids_in links)
found_key links id h = omega (
  arith,
  tally-sort_ids (λ y. y == id) (map (λ e. e.0) links),
  tally-keys (λ y. y == id) links,
  tally-has_node links id h,
)

-- The stored form of ids.
abbrev pub stored_ids : List ℕ → List ℤ
stored_ids ids = map (λ id. signed32 id) ids

pub get_elem?-stored :
    (ids : List ℕ) (i k : ℕ)
    → k ≤ 2 ^ 31
    → All (λ v. v < k) ids
    → i < length ids
    → get_elem? (stored_ids ids) i ≡ some (pos (get_or ids i 0))
get_elem?-stored [] i k small h l = absurd (omega arith)
get_elem?-stored (x ∷ ids) zero k small h l =
    let low = h.0 in let exact : signed32 x ≡ pos x = ground arith in ap some exact
get_elem?-stored (x ∷ ids) (suc i) k small h l = get_elem?-stored ids i k small h.1 (omega arith)

Rising-get_or :
    (ids : List ℕ) (i j : ℕ) → Rising ids → i < j → j < length ids → get_or ids i 0 < get_or ids j 0
Rising-get_or [] i j r h l = absurd (omega arith)
Rising-get_or (x ∷ ids) zero zero r h l = absurd (omega arith)
Rising-get_or (x ∷ ids) zero (suc j) r h l = All-get_or (λ y. x < y) ids j 0 r.0 (omega arith)
Rising-get_or (x ∷ ids) (suc i) zero r h l = absurd (omega arith)
Rising-get_or (x ∷ ids) (suc i) (suc j) r h l =
    Rising-get_or ids i j r.1 (omega arith) (omega arith)

pub ids_in-IsAscending :
    (k : ℕ) (links : Links) → k ≤ 2 ^ 31 → LinksOk k links → IsAscending (stored_ids (ids_in links))
ids_in-IsAscending k links small o i j h l =
    let ids = ids_in links in
    let size = length-map (λ id. signed32 id) ids in
    let below = ids_in-below k links o in
    let (_, at_i) =
      lt-length_of_get_elem? (stored_ids ids) i
        (get_elem?-stored ids i k small below (omega arith)) in
    let (_, at_j) =
      lt-length_of_get_elem? (stored_ids ids) j
        (get_elem?-stored ids j k small below (omega arith)) in
    let less = Rising-get_or ids i j (ids_in-Rising k links o) h (omega arith) in
    rw (at_i (pos 0), at_j (pos 0)) (omega arith)
