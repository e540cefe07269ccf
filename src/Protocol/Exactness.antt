-- ===== src/Protocol/Exactness.antt =====
-- What `PsiProtocol::intersect` returns: the common identifiers, in order, with their root.
use blind_overlap.Prelude.{
  ℕ, ◌≤◌, ◌<◌, ◌≡◌, refl, ap, sym, ◌∙◌, subst, ap₂, Bool, true, ◌&&◌, List, [], ◌∷◌, map, arith,
  length, keep, ok, err, get_elem?, some, zero, suc, ◌+◌,
}
use blind_overlap.Bytes.{Bytes, bytes_order}
use blind_overlap.Crypto.{Crypto, Commutes}
use blind_overlap.OrdSet
use blind_overlap.OrdSet.{IsAscending}
use blind_overlap.OrdSet.Laws.{contains-collect}
use blind_overlap.FactSet
use blind_overlap.FactSet.{FactId, FactSet}
use blind_overlap.FactSet.Laws.{IsValid}
use blind_overlap.Protocol.{
  MaskedElement, IntersectionMode, PsiResult, set_too_large, max_set_size, sort, matching_ids,
  compute_intersection, mask, apply_mask, intersect,
}
use blind_overlap.Protocol.Matching.{
  matching_ids-keep, keep-congr, keep-IsAscending, sort_of_ascending, length-sort, contains-map,
  contains-map_of_contains, contains-keep, All-of_contains,
}

-- The specification: the items of one list that the other holds.
abbrev pub overlap : List FactId → List FactId → List FactId
overlap xs ys = keep (λ x. OrdSet.contains x ys) xs

length-keep-map {ℓ κ} :
    {A : Type ℓ} {B : Type κ} (f : A → B) (p : B → Bool) (xs : List A)
    → length (keep p (map f xs)) ≡ length (keep (λ x. p (f x)) xs)
length-keep-map f p [] = refl
length-keep-map f p (x ∷ xs) = ground (arith, length-keep-map f p xs)

get_elem?-inside :
    (ids : List FactId) (i : ℕ) → i < length ids → (id : FactId) × (get_elem? ids i ≡ some id)
get_elem?-inside [] i h = absurd (omega arith)
get_elem?-inside (id ∷ ids) zero h = (id, refl)
get_elem?-inside (id ∷ ids) (suc i) h = get_elem?-inside ids i (omega arith)

length-matching_ids :
    (ids : List FactId) (set : List MaskedElement) (idx : ℕ) (ours : List MaskedElement)
    → idx + length ours ≤ length ids
    → length (matching_ids ids set idx ours) ≡ length (keep (λ m. OrdSet.contains m set) ours)
unfolding matching_ids
length-matching_ids ids set idx [] h = refl
length-matching_ids ids set idx (m ∷ ours) h =
    let (id, e) = get_elem?-inside ids idx (omega arith) in
    ground (arith, e, length-matching_ids ids set (suc idx) ours (omega arith))

-- The number of common items that a result tells.
abbrev count_of : PsiResult → ℕ
count_of (PsiResult.intersection ids root) = length ids
count_of (PsiResult.cardinality count) = count

module _ ⦃c : Crypto⦄ where
  -- What is reported of common identifiers `ids`.
  abbrev pub result_of : List FactId → IntersectionMode → PsiResult
  result_of ids IntersectionMode.cardinality = PsiResult.cardinality (length ids)
  result_of ids IntersectionMode.intersection =
      PsiResult.intersection ids (FactSet.from_ids ids).root

  -- An identifier masked by `t` and then by `s`.
  abbrev pub twice : Bytes → Bytes → FactId → MaskedElement
  twice s t x = c.diffie_hellman s (mask t x)

  -- Masked by both secrets, an identifier of one list meets no other identifier of the other.
  abbrev pub TellsApart : Bytes → Bytes → List FactId → List FactId → Type 0
  TellsApart s t xs ys =
      (x y : FactId)
      → OrdSet.contains x xs ≡ true
      → OrdSet.contains y ys ≡ true
      → twice s t x ≡ twice s t y
      → x ≡ y

  pub map-twice :
      (s t : Bytes) (xs : List FactId) → apply_mask s (map (mask t) xs) ≡ map (twice s t) xs
  unfolding apply_mask
  map-twice s t [] = refl
  map-twice s t (x ∷ xs) = ap (◌∷◌ (twice s t x)) (map-twice s t xs)

  map_commutes :
      Commutes c
      → (s t : Bytes) (xs : List FactId) → apply_mask t (map (mask s) xs) ≡ map (twice s t) xs
  unfolding apply_mask mask
  map_commutes comm s t [] = refl
  map_commutes comm s t (x ∷ xs) = ap₂ ◌∷◌ (comm t s x) (map_commutes comm s t xs)

  -- The computed intersection is the filter by the masked identifiers, whatever the masks are.
  pub compute_of_masks :
      (f : FactId → MaskedElement) (xs : List FactId) (theirs : List MaskedElement)
      (mode : IntersectionMode)
      → IsAscending xs
      → compute_intersection (map f xs) theirs xs mode
        ≡ result_of (keep (λ x. OrdSet.contains (f x) (OrdSet.collect theirs)) xs) mode
  unfolding compute_intersection
  compute_of_masks f xs theirs IntersectionMode.cardinality asc =
      ap PsiResult.cardinality
        (length-keep-map f (λ m. OrdSet.contains m (OrdSet.collect theirs)) xs)
  compute_of_masks f xs theirs IntersectionMode.intersection asc =
      ap (λ l. result_of l IntersectionMode.intersection)
        (ap sort (
            matching_ids-keep f xs (OrdSet.collect theirs) 0 xs
              (λ i. ap (get_elem? xs) (omega arith)))
          ∙ sort_of_ascending _ (keep-IsAscending _ xs asc))

  -- The two filters agree on each identifier.
  filters_agree :
      (s t : Bytes) (xs ys : List FactId)
      → TellsApart s t xs ys
      → keep (λ x. OrdSet.contains (twice s t x) (OrdSet.collect (map (twice s t) ys))) xs
        ≡ overlap xs ys
  filters_agree s t xs ys apart = keep-congr _ _ xs (
      All-of_contains xs λ x m.
        contains-collect (twice s t x) (map (twice s t) ys)
        ∙ contains-map (twice s t) x ys (λ y n. apart x y m n))

  -- The core of either protocol: `s` is the secret of the party whose list is `ys`, and `t` that of
  -- the party which computes.
  pub compute_intersection-overlap :
      Commutes c
      → (s t : Bytes) (xs ys : List FactId) (mode : IntersectionMode) → IsAscending xs
      → TellsApart s t xs ys
      → compute_intersection
          (apply_mask s (map (mask t) xs))
          (apply_mask t (map (mask s) ys))
          xs
          mode
        ≡ result_of (overlap xs ys) mode
  compute_intersection-overlap comm s t xs ys mode asc apart =
      ap₂ (λ ours theirs. compute_intersection ours theirs xs mode) (map-twice s t xs)
        (map_commutes comm s t ys)
      ∙ compute_of_masks (twice s t) xs (map (twice s t) ys) mode asc
      ∙ ap (λ l. result_of l mode) (filters_agree s t xs ys apart)

  -- Two valid sets within the size limit, in either mode: the result is exactly the overlap of the
  -- sets, provided that Diffie-Hellman commutes and that the masks tell the identifiers apart.
  pub intersect_exact :
      (s t : Bytes) (a b : FactSet) (mode : IntersectionMode)
      → Commutes c
      → IsValid a
      → IsValid b
      → length a.ids ≤ max_set_size
      → length b.ids ≤ max_set_size
      → TellsApart t s a.ids b.ids
      → intersect s t a b mode ≡ ok (result_of (overlap a.ids b.ids) mode)
  unfolding intersect
  intersect_exact s t a b mode comm va vb la lb apart =
      ground (arith, compute_intersection-overlap comm t s a.ids b.ids mode va.ascending apart)

  -- A successful run returns what the first party computes.
  intersect_inversion :
      (s t : Bytes) (a b : FactSet) (mode : IntersectionMode) (r : PsiResult)
      → intersect s t a b mode ≡ ok r
      → compute_intersection
          (apply_mask t (map (mask s) a.ids))
          (apply_mask s (map (mask t) b.ids))
          a.ids
          mode
        ≡ r
  unfolding intersect
  intersect_inversion s t a b mode r e = ground arith

  found_by_masks :
      (s t : Bytes) (xs ys : List FactId) (id : FactId)
      → Commutes c
      → OrdSet.contains id xs ≡ true
      → OrdSet.contains id ys ≡ true
      → OrdSet.contains id (
          keep
            (λ x. OrdSet.contains (twice t s x) (OrdSet.collect (apply_mask s (map (mask t) ys))))
            xs)
        ≡ true
  found_by_masks s t xs ys id comm mx my =
      contains-keep _ id xs
      ∙ ap₂ ◌&&◌ mx (
          contains-collect (twice t s id) (apply_mask s (map (mask t) ys))
          ∙ ap (OrdSet.contains (twice t s id)) (map_commutes comm t s ys)
          ∙ contains-map_of_contains (twice t s) id ys my)

  -- With commutation alone, no common identifier is missed.
  pub intersect_complete :
      (s t : Bytes) (a b : FactSet) (id : FactId) (ids : List FactId) (root : Bytes)
      → Commutes c
      → IsValid a
      → FactSet.contains a id ≡ true
      → FactSet.contains b id ≡ true
      → intersect s t a b IntersectionMode.intersection ≡ ok (PsiResult.intersection ids root)
      → OrdSet.contains id ids ≡ true
  unfolding FactSet.contains
  intersect_complete s t a b id ids root comm va ma mb e =
      subst (λ l. OrdSet.contains id l ≡ true) reported
        (found_by_masks s t a.ids b.ids id comm ma mb)
    where
      theirs : List MaskedElement
      theirs = apply_mask s (map (mask t) b.ids)

      computed :
          result_of
            (keep (λ x. OrdSet.contains (twice t s x) (OrdSet.collect theirs)) a.ids)
            IntersectionMode.intersection
          ≡ PsiResult.intersection ids root
      computed =
          sym (compute_of_masks (twice t s) a.ids theirs IntersectionMode.intersection va.ascending)
          ∙ ap (λ ours. compute_intersection ours theirs a.ids IntersectionMode.intersection)
              (sym (map-twice t s a.ids))
          ∙ intersect_inversion s t a b IntersectionMode.intersection _ e

      reported : keep (λ x. OrdSet.contains (twice t s x) (OrdSet.collect theirs)) a.ids ≡ ids
      reported = cc computed

  -- A set above the limit is refused, the first party's before the second's, with its size; and
  -- within the limit the exchange always succeeds.
  intersect_limit :
      (s t : Bytes) (a b : FactSet) (mode : IntersectionMode)
      → (max_set_size < length a.ids → intersect s t a b mode ≡ err (set_too_large (length a.ids)))
        × (length a.ids ≤ max_set_size
            → max_set_size < length b.ids
            → intersect s t a b mode ≡ err (set_too_large (length b.ids)))
        × (length a.ids ≤ max_set_size
            → length b.ids ≤ max_set_size
            → (r : PsiResult) × (intersect s t a b mode ≡ ok r))
  unfolding intersect
  intersect_limit s t a b mode = (
    λ h. ground arith,
    λ h k. ground arith,
    λ h k. (
      compute_intersection (apply_mask t (map (mask s) a.ids)) (apply_mask s (map (mask t) b.ids))
          a.ids mode,
      ground arith,
    ),
  )

  -- The count of cardinality mode is the number of identifiers that intersection mode reports, for
  -- any masked elements, if the computing party has no more of them than identifiers.
  modes_agree :
      (ours theirs : List MaskedElement) (ids : List FactId)
      → length ours ≤ length ids
      → compute_intersection ours theirs ids IntersectionMode.cardinality
        ≡ PsiResult.cardinality
            (count_of (compute_intersection ours theirs ids IntersectionMode.intersection))
  unfolding compute_intersection
  modes_agree ours theirs ids h =
      ap PsiResult.cardinality
        (sym (length-sort _ ∙ length-matching_ids ids (OrdSet.collect theirs) 0 ours (omega arith)))
