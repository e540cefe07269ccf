-- ===== src/Protocol/Matching.antt =====
-- The loop that matches doubly masked elements by position is a filter of the identifiers, and
-- sorting what it keeps of an ascending list changes nothing.
use blind_overlap.Prelude.{
  ℕ, suc, ◌+◌, ◌≡◌, refl, ap, sym, ◌∙◌, inl, inr, Bool, true, ◌&&◌, ◌||◌, some, List, [], ◌∷◌, map,
  arith, length, get_elem?, keep, All, Bool-cases, Bool_ext, ap₂,
}
use native.Mathlib.Nat.{add-zero}
use blind_overlap.Bytes.{Bytes, bytes_order}
use blind_overlap.Order.{same, same_refl, same_of_eq, eq_of_same, asymm}
use blind_overlap.OrdSet
use blind_overlap.OrdSet.{After, IsAscending}
use blind_overlap.FactSet.{FactId}
use blind_overlap.Protocol.{MaskedElement, place, sort, matching_ids}

-- `original_ids` from position `idx` on is `xs`.
abbrev pub From : List FactId → ℕ → List FactId → Type 0
From original_ids idx xs = (i : ℕ) → get_elem? original_ids (idx + i) ≡ get_elem? xs i

pub matching_ids-keep :
    (f : FactId → MaskedElement) (original_ids : List FactId) (set : List MaskedElement) (idx : ℕ)
    (xs : List FactId)
    → From original_ids idx xs
    → matching_ids original_ids set idx (map f xs) ≡ keep (λ x. OrdSet.contains (f x) set) xs
unfolding matching_ids
matching_ids-keep f ids set idx [] at = refl
matching_ids-keep f ids set idx (x ∷ xs) at =
    let head : get_elem? ids idx ≡ some x = ap (get_elem? ids) (sym (add-zero idx)) ∙ at 0 in
    let next : From ids (suc idx) xs = λ i. ap (get_elem? ids) (omega arith) ∙ at (suc i) in
    ground (arith, head, matching_ids-keep f ids set (suc idx) xs next)

pub keep-congr {ℓ} :
    {A : Type ℓ} (p q : A → Bool) (xs : List A) → All (λ x. p x ≡ q x) xs → keep p xs ≡ keep q xs
keep-congr p q [] h = refl
keep-congr p q (x ∷ xs) h = ground (arith, h.0, keep-congr p q xs h.1)

After-keep : (p : Bytes → Bool) (a : Bytes) (xs : List Bytes) → After a xs → After a (keep p xs)
After-keep p a [] h = tt
After-keep p a (x ∷ xs) h = ground (arith, After-keep p a xs h.1)

pub keep-IsAscending :
    (p : Bytes → Bool) (xs : List Bytes) → IsAscending xs → IsAscending (keep p xs)
keep-IsAscending p [] h = tt
keep-IsAscending p (x ∷ xs) h = ground (arith, After-keep p x xs h.0, keep-IsAscending p xs h.1)

place-first : (a : Bytes) (xs : List Bytes) → After a xs → place a xs ≡ a ∷ xs
unfolding place
place-first a [] h = refl
place-first a (x ∷ xs) h = ground (arith, asymm bytes_order a x h.0)

pub sort_of_ascending : (xs : List Bytes) → IsAscending xs → sort xs ≡ xs
unfolding sort
sort_of_ascending [] h = refl
sort_of_ascending (x ∷ xs) h = ap (place x) (sort_of_ascending xs h.1) ∙ place-first x xs h.0

pub length-sort : (xs : List Bytes) → length (sort xs) ≡ length xs
unfolding sort
length-sort [] = refl
length-sort (x ∷ xs) = length-place x (sort xs) ∙ ap suc (length-sort xs)
  where
    length-place : (a : Bytes) (ys : List Bytes) → length (place a ys) ≡ suc (length ys)
    length-place a [] = refl
    length-place a (y ∷ ys) = ground (arith, length-place a ys)

pub contains-cons_self : (x : Bytes) (xs : List Bytes) → OrdSet.contains x (x ∷ xs) ≡ true
unfolding OrdSet.contains
contains-cons_self x xs = ground (arith, same_refl bytes_order x)

pub contains-cons_of_contains :
    (a x : Bytes) (xs : List Bytes)
    → OrdSet.contains a xs ≡ true
    → OrdSet.contains a (x ∷ xs) ≡ true
unfolding OrdSet.contains
contains-cons_of_contains a x xs h = ground arith

-- Membership of an image, where the map tells the item apart from the others.
pub contains-map :
    (f : Bytes → Bytes) (a : Bytes) (bs : List Bytes)
    → ((b : Bytes) → OrdSet.contains b bs ≡ true → f a ≡ f b → a ≡ b)
    → OrdSet.contains (f a) (map f bs) ≡ OrdSet.contains a bs
unfolding OrdSet.contains
contains-map f a [] h = refl
contains-map f a (b ∷ bs) h =
    ap₂ ◌||◌ heads (contains-map f a bs λ d m. h d (contains-cons_of_contains d b bs m))
  where
    heads : same bytes_order (f a) (f b) ≡ same bytes_order a b
    heads =
        Bool_ext (same bytes_order (f a) (f b)) (same bytes_order a b)
          (λ e.
            same_of_eq bytes_order a b
              (h b (contains-cons_self b bs) (eq_of_same bytes_order (f a) (f b) e)))
          (λ e. same_of_eq bytes_order (f a) (f b) (ap f (eq_of_same bytes_order a b e)))

pub contains-map_of_contains :
    (f : Bytes → Bytes) (a : Bytes) (bs : List Bytes)
    → OrdSet.contains a bs ≡ true
    → OrdSet.contains (f a) (map f bs) ≡ true
unfolding OrdSet.contains
contains-map_of_contains f a [] h = cc
contains-map_of_contains f a (b ∷ bs) h = elim (Bool-cases (same bytes_order a b)) [
  | inl e ↦ ground (arith, same_of_eq bytes_order (f a) (f b) (ap f (eq_of_same bytes_order a b e)))
  | inr e ↦ ground (arith, e, contains-map_of_contains f a bs)
]

pub contains-keep :
    (p : Bytes → Bool) (a : Bytes) (xs : List Bytes)
    → OrdSet.contains a (keep p xs) ≡ (OrdSet.contains a xs && p a)
unfolding OrdSet.contains
contains-keep p a [] = refl
contains-keep p a (x ∷ xs) = elim (Bool-cases (same bytes_order a x)) [
  | inl e ↦ ground (arith, e, ap p (eq_of_same bytes_order a x e), contains-keep p a xs)
  | inr e ↦ ground (arith, e, contains-keep p a xs)
]

pub All-of_contains {κ} :
    {P : Bytes → Type κ} (xs : List Bytes)
    → ((a : Bytes) → OrdSet.contains a xs ≡ true → P a)
    → All P xs
unfolding OrdSet.contains
All-of_contains [] h = tt
All-of_contains (x ∷ xs) h = (
  h x (contains-cons_self x xs),
  All-of_contains xs λ a m. h a (contains-cons_of_contains a x xs m),
)
