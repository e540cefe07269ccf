-- ===== src/OrdSet.antt =====
-- `BTreeSet` of the standard library, as the strictly ascending list that its iterator yields.
pub mod Laws
use blind_overlap.Prelude.{ℕ, ◌≡◌, Bool, true, false, ◌||◌, List, [], ◌∷◌, if◌then◌else◌}
use blind_overlap.Order.{Order, same}

module _ {ℓ} {A : Type ℓ} ⦃o : Order A⦄ where
  unfoldable pub insert : A → List A → List A
  insert a [] = a ∷ []
  insert a (x ∷ xs) =
      let rest = insert a xs in
      if o.before a x then a ∷ x ∷ xs else if o.before x a then x ∷ rest else x ∷ xs

  unfoldable pub contains : A → List A → Bool
  contains a [] = false
  contains a (x ∷ xs) = same o a x || contains a xs

  -- `iter.collect::<BTreeSet<_>>()`.
  unfoldable pub collect : List A → List A
  unfolding insert
  collect [] = []
  collect (x ∷ xs) = insert x (collect xs)

  -- Every item of the list comes after `a`.
  abbrev pub After : A → List A → Type 0
  After a [] = Unit
  After a (x ∷ xs) = (o.before a x ≡ true) × After a xs

  abbrev pub IsAscending : List A → Type 0
  IsAscending [] = Unit
  IsAscending (x ∷ xs) = After x xs × IsAscending xs
