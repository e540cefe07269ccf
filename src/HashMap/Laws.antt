-- ===== src/HashMap/Laws.antt =====
-- Reading a map after each operation, and the uniqueness of keys.
use blind_overlap.Prelude.{
  ◌+◌, ◌≤◌, ◌≡◌, refl, Bool, none, some, [], ◌∷◌, arith, length, if◌then◌else◌,
}
use blind_overlap.Bytes.{Bytes, eqb, eqb_iff, eqb_refl}
use blind_overlap.HashMap.{HashMap, get, remove, insert, retain, IsUnique, filter}

module _ {ℓ} {V : Type ℓ} where
  pub get-remove :
      (k j : Bytes) (m : HashMap V) → get j (remove k m) ≡ (if eqb k j then none else get j m)
  unfolding get remove
  get-remove k j [] = ground arith
  get-remove k j ((i, v) ∷ m) =
      ground (arith, eqb_iff i k, eqb_iff i j, eqb_iff k j, get-remove k j m)

  -- An insertion is seen under its key, and under no other.
  pub get-insert :
      (k j : Bytes) (v : V) (m : HashMap V)
      → get j (insert k v m) ≡ (if eqb k j then some v else get j m)
  unfolding get insert
  get-insert k j v m = ground (arith, get-remove k j m)

  pub get-retain :
      (p : V → Bool) (k : Bytes) (m : HashMap V)
      → IsUnique m
      → get k (retain p m) ≡ filter p (get k m)
  unfolding get retain
  get-retain p k [] u = refl
  get-retain p k ((j, v) ∷ m) u = ground (arith, eqb_iff j k, get-retain p k m u.1, u.0)

  pub remove-IsUnique : (k : Bytes) (m : HashMap V) → IsUnique m → IsUnique (remove k m)
  unfolding remove
  remove-IsUnique k [] u = tt
  remove-IsUnique k ((j, v) ∷ m) u = ground (arith, get-remove k j m, u.0, remove-IsUnique k m u.1)

  pub insert-IsUnique : (k : Bytes) (v : V) (m : HashMap V) → IsUnique m → IsUnique (insert k v m)
  unfolding insert
  insert-IsUnique k v m u = (ground (arith, get-remove k k m, eqb_refl k), remove-IsUnique k m u)

  pub retain-IsUnique : (p : V → Bool) (m : HashMap V) → IsUnique m → IsUnique (retain p m)
  unfolding retain
  retain-IsUnique p [] u = tt
  retain-IsUnique p ((j, v) ∷ m) u =
      ground (arith, get-retain p j m u.1, u.0, retain-IsUnique p m u.1)

  length-remove-le : (k : Bytes) (m : HashMap V) → length (remove k m) ≤ length m
  unfolding remove
  length-remove-le k [] = omega arith
  length-remove-le k ((j, v) ∷ m) = ground (arith, length-remove-le k m)

  pub length-insert-le : (k : Bytes) (v : V) (m : HashMap V) → length (insert k v m) ≤ length m + 1
  unfolding insert
  length-insert-le k v m = omega (arith, length-remove-le k m)

  pub length-retain-le : (p : V → Bool) (m : HashMap V) → length (retain p m) ≤ length m
  unfolding retain
  length-retain-le p [] = omega arith
  length-retain-le p ((j, v) ∷ m) = ground (arith, length-retain-le p m)
