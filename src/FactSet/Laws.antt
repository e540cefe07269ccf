-- ===== src/FactSet/Laws.antt =====
-- Every operation of a fact set keeps the identifiers ascending and the root that of the set.
use blind_overlap.Prelude.{◌≡◌, refl, ◌∙◌, sym, ◌||◌, List, arith}
use blind_overlap.Bytes.{bytes_order}
use blind_overlap.Crypto.{Crypto}
use blind_overlap.OrdSet
use blind_overlap.OrdSet.{IsAscending}
use blind_overlap.OrdSet.Laws.{
  insert-IsAscending, collect-IsAscending, contains-insert, contains-collect, ascending_ext,
}
use blind_overlap.Order.{same}
use blind_overlap.FactSet.{FactId, FactSet, compute_set_root, empty, from_ids, insert, contains}

module _ ⦃c : Crypto⦄ where
  pub record IsValid (s : FactSet) : Type 0 where
    pub ascending : IsAscending s.ids
    pub committed : s.root ≡ compute_set_root s.ids

  empty-IsValid : IsValid empty
  unfolding empty
  empty-IsValid = record { ascending = tt; committed = refl }

  pub from_ids-IsValid : (ids : List FactId) → IsValid (from_ids ids)
  unfolding from_ids
  from_ids-IsValid ids = record { ascending = collect-IsAscending ids; committed = refl }

  insert-IsValid : (s : FactSet) (id : FactId) → IsValid s → IsValid (insert s id)
  unfolding insert
  insert-IsValid s id v = record {
    ascending = insert-IsAscending id s.ids v.ascending;
    committed = refl;
  }

  -- Inserting into a valid set gives a valid set, whose root is recomputed and whose members are the
  -- old ones and the new one.
  insert-contains :
      (s : FactSet) (id a : FactId)
      → IsValid s
      → IsValid (insert s id) × (contains (insert s id) a ≡ (same bytes_order a id || contains s a))
  unfolding insert contains
  insert-contains s id a v = (insert-IsValid s id v, contains-insert id a s.ids)

  -- Two valid sets with the same members are equal, with equal roots: the root depends neither on
  -- the order of insertion nor on repetitions.
  valid_ext :
      (s t : FactSet) → IsValid s → IsValid t → ((a : FactId) → contains s a ≡ contains t a) → s ≡ t
  unfolding contains
  valid_ext s t p q h =
      let e : s.ids ≡ t.ids = ascending_ext s.ids t.ids p.ascending q.ascending h in
      ground (arith, e, p.committed, q.committed)

  -- `from_ids` of two lists with the same members is the same set.
  pub from_ids_ext :
      (xs ys : List FactId)
      → ((a : FactId) → OrdSet.contains a xs ≡ OrdSet.contains a ys)
      → from_ids xs ≡ from_ids ys
  unfolding from_ids contains
  from_ids_ext xs ys h =
      valid_ext (from_ids xs) (from_ids ys) (from_ids-IsValid xs) (from_ids-IsValid ys)
        λ a. contains-collect a xs ∙ h a ∙ sym (contains-collect a ys)
