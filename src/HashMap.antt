-- ===== src/HashMap.antt =====
-- `HashMap` of the standard library with byte-string keys, as an association list: its iteration
-- order is unspecified, and here it is that of the list.
pub mod Laws
use blind_overlap.Prelude.{
  ℕ, Bool, true, false, not, ◌&&◌, Option, none, some, List, [], ◌∷◌, length, keep, is_some,
  if◌then◌else◌, ◌≡◌,
}
use blind_overlap.Bytes.{Bytes, eqb}

abbrev pub HashMap {ℓ} : Type ℓ → Type ℓ
HashMap V = List (Bytes × V)

module _ {ℓ} {V : Type ℓ} where
  unfoldable pub get : Bytes → HashMap V → Option V
  get k [] = none
  get k ((j, v) ∷ m) = if eqb j k then some v else get k m

  unfoldable pub remove : Bytes → HashMap V → HashMap V
  remove k [] = []
  remove k ((j, v) ∷ m) = let rest = remove k m in if eqb j k then rest else (j, v) ∷ rest

  unfoldable pub insert : Bytes → V → HashMap V → HashMap V
  unfolding remove
  insert k v m = (k, v) ∷ remove k m

  pub retain : (V → Bool) → HashMap V → HashMap V
  retain p [] = []
  retain p ((j, v) ∷ m) = let rest = retain p m in if p v then (j, v) ∷ rest else rest

  abbrev pub contains_key : Bytes → HashMap V → Bool
  contains_key k m = is_some (get k m)

  -- No key stands twice.
  abbrev pub IsUnique : HashMap V → Type 0
  IsUnique [] = Unit
  IsUnique ((j, v) ∷ m) = (contains_key j m ≡ false) × IsUnique m

-- `Option::filter`.
abbrev pub filter {ℓ} : {A : Type ℓ} → (A → Bool) → Option A → Option A
filter p none = none
filter p (some a) = if p a then some a else none
