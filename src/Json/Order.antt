-- ===== src/Json/Order.antt =====
-- The order of the keys of an object, at any depth, does not matter to a fact's identifier.
use blind_overlap.Prelude.{◌≡◌, ◌≢◌, refl, ap, ap₂, ◌∙◌, List, [], ◌∷◌, ◌++◌, arith}
use blind_overlap.Bytes.{Text, bytes_order, lex_trans, lex-connected}
use blind_overlap.Order.{asymm}
use blind_overlap.Crypto.{Crypto}
use blind_overlap.Json.{
  Json, Items, Fields, array, object, no_items, item, no_fields, field, JsonLibrary, canonical_json,
  canonical_items, canonical_fields, canonical_string, sort_fields, place_field, texts_of, join,
  fact_id_from_json,
}

-- Values that differ in the order of keys alone.
mutual
  pub data Alike : Json → Json → Type 0 where
    same : (v : Json) → Alike v v
    arrays : (xs ys : Items) → AlikeItems xs ys → Alike (array xs) (array ys)
    objects : (f g : Fields) → AlikeFields f g → Alike (object f) (object g)

  pub data AlikeItems : Items → Items → Type 0 where
    no_more : AlikeItems no_items no_items
    next_item :
        (v w : Json) (xs ys : Items)
        → Alike v w
        → AlikeItems xs ys
        → AlikeItems (item v xs) (item w ys)

  pub data AlikeFields : Fields → Fields → Type 0 where
    no_others : AlikeFields no_fields no_fields
    next_field :
        (k : Text) (v w : Json) (f g : Fields)
        → Alike v w
        → AlikeFields f g
        → AlikeFields (field k v f) (field k w g)
    swap :
        (k j : Text) (v w : Json) (f : Fields)
        → k ≢ j
        → AlikeFields (field k v (field j w f)) (field j w (field k v f))
    both : (f g h : Fields) → AlikeFields f g → AlikeFields g h → AlikeFields f h

-- Two keys are placed in either order.
place_field_commutes :
    (k j t u : Text) (l : List (Text × Text))
    → k ≢ j
    → place_field k t (place_field j u l) ≡ place_field j u (place_field k t l)
unfolding place_field
place_field_commutes k j t u [] h = ground (arith, h, lex-connected k j, asymm bytes_order k j)
place_field_commutes k j t u ((i, w) ∷ l) h = ground (
  arith,
  h,
  lex-connected k j,
  asymm bytes_order k j,
  asymm bytes_order j k,
  lex_trans j k i,
  lex_trans k j i,
  lex_trans i k j,
  lex_trans i j k,
  lex-connected i k,
  lex-connected i j,
  place_field_commutes k j t u l h,
)

module _ ⦃l : JsonLibrary⦄ where
  mutual
    unfolding canonical_json sort_fields

    canonical_of_alike : (v w : Json) → Alike v w → canonical_json v ≡ canonical_json w
    canonical_of_alike v w (same x) = refl
    canonical_of_alike v w (arrays xs ys h) =
        ap (λ ts. 91 ∷ (join ts ++ (93 ∷ []))) (items_of_alike xs ys h)
    canonical_of_alike v w (objects f g h) =
        ap (λ ts. 123 ∷ (join (texts_of ts) ++ (125 ∷ []))) (fields_of_alike f g h)

    items_of_alike : (xs ys : Items) → AlikeItems xs ys → canonical_items xs ≡ canonical_items ys
    items_of_alike xs ys no_more = refl
    items_of_alike xs ys (next_item v w vs ws h k) =
        ap₂ ◌∷◌ (canonical_of_alike v w h) (items_of_alike vs ws k)

    fields_of_alike :
        (f g : Fields)
        → AlikeFields f g
        → sort_fields (canonical_fields f) ≡ sort_fields (canonical_fields g)
    fields_of_alike f g no_others = refl
    fields_of_alike f g (next_field k v w f' g' h r) =
        ap₂ (λ t ts. place_field k (canonical_string k ++ (58 ∷ t)) ts) (canonical_of_alike v w h)
          (fields_of_alike f' g' r)
    fields_of_alike f g (swap k j v w f' h) =
        place_field_commutes k j (canonical_string k ++ (58 ∷ canonical_json v))
          (canonical_string j ++ (58 ∷ canonical_json w)) (sort_fields (canonical_fields f')) h
    fields_of_alike f g (both f' g' h p q) = fields_of_alike f g' p ∙ fields_of_alike g' g q

  -- Values that differ only in the order in which objects list their keys, at any depth, are the same
  -- fact.
  pub fact_id_from_json-Alike :
      ⦃c : Crypto⦄ → (v w : Json) → Alike v w → fact_id_from_json v ≡ fact_id_from_json w
  unfolding fact_id_from_json
  fact_id_from_json-Alike ⦃c = c⦄ v w h = ap c.sha256 (canonical_of_alike v w h)
