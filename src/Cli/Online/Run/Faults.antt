-- ===== src/Cli/Online/Run/Faults.antt =====
-- Two faults of a run: an unpadded one reports nothing, and a padded one fails.
use blind_overlap.Prelude.{
  ℕ, ◌<◌, ◌≡◌, ◌≢◌, ◌⊎◌, inl, inr, refl, ap, ap₂, sym, ◌∙◌, true, false, Option, none, some, List,
  [], ◌∷◌, map, arith, length, length-map, keep, ok, err,
}
use blind_overlap.Bytes.{Bytes, Text, bytes_order}
use blind_overlap.Crypto.{Crypto, HexRoundTrips}
use blind_overlap.Order.{same, eq_of_same}
use blind_overlap.OrdSet
use blind_overlap.OrdSet.{IsAscending}
use blind_overlap.OrdSet.Laws.{contains-collect}
use blind_overlap.FactSet.{FactId, FactSet}
use blind_overlap.Padding.Laws.{length-pad_masked_elements}
use blind_overlap.Protocol.{MaskedElement, IntersectionMode, mask, apply_mask, compute_intersection}
use blind_overlap.Protocol.Matching.{
  keep-congr, All-of_contains, contains-cons_self, contains-cons_of_contains,
}
use blind_overlap.Protocol.Exactness.{result_of, twice, map-twice, compute_of_masks}
use blind_overlap.Session.Common.{element_count_mismatch}
use blind_overlap.Wire.Offer
use blind_overlap.Wire.Reply
use blind_overlap.Wire.Message.{WireCodec}
use blind_overlap.Cli.Common.{session_error, Files, write_out, Serde, StoredIdentity, decode_hex}
use blind_overlap.Cli.Lines.{unlines}
use blind_overlap.Cli.FactFile.{result_lines}
use blind_overlap.Cli.FactFile.Intersecting.{load_fact_set-IsValid}
use blind_overlap.Cli.Online.{InitiatorState, ResponderState, PrettyWire, zeros, pad_if_asked}
use blind_overlap.Cli.Online.Run.{Plan, online_run, input_a}
use blind_overlap.Cli.Online.Run.Outcome.{Runs, online_run-outcome}

-- An element is not in a list that has none equal to it.
contains-map_of_none :
    (g : Bytes → Bytes) (a : Bytes) (ys : List Bytes)
    → ((y : Bytes) → OrdSet.contains y ys ≡ true → a ≢ g y)
    → OrdSet.contains a (map g ys) ≡ false
unfolding OrdSet.contains
contains-map_of_none g a [] h = refl
contains-map_of_none g a (y ∷ ys) h =
    let differs : same bytes_order a (g y) ≡ true → ⊥ =
      λ e. h y (contains-cons_self y ys) (eq_of_same bytes_order a (g y) e) in
    ground
      (arith, differs, contains-map_of_none g a ys λ z m. h z (contains-cons_of_contains z y ys m))

Option-cases {ℓ} : {A : Type ℓ} (o : Option A) → (o ≡ none) ⊎ ((a : A) × (o ≡ some a))
Option-cases none = inl refl
Option-cases (some a) = inr (a, refl)

keep_none : (xs : List Bytes) → keep (λ x. false) xs ≡ []
keep_none [] = refl
keep_none (x ∷ xs) = keep_none xs

module _ ⦃c : Crypto⦄ where
  -- A result without common masks is that of no identifiers.
  pub compute_intersection_of_none :
      (f g : Bytes → Bytes) (xs ys : List FactId) (mode : IntersectionMode)
      → IsAscending xs
      → ((x y : FactId) → OrdSet.contains x xs ≡ true → OrdSet.contains y ys ≡ true → f x ≢ g y)
      → compute_intersection (map f xs) (map g ys) xs mode ≡ result_of [] mode
  compute_intersection_of_none f g xs ys mode asc apart =
      compute_of_masks f xs (map g ys) mode asc
      ∙ ap (λ l. result_of l mode)
          (keep-congr _ (λ x. false) xs
              (All-of_contains xs λ x m.
                contains-collect (f x) (map g ys)
                ∙ contains-map_of_none g (f x) ys (λ y n. apart x y m n))
            ∙ keep_none xs)

  -- Padding that succeeds reaches the target.
  length-pad_if_asked :
      (random : Bytes) (target : ℕ) (secret : Option Text) (context : Bytes)
      (xs masked : List MaskedElement)
      → pad_if_asked random (some target) secret context xs ≡ ok masked
      → length masked ≡ target
  unfolding pad_if_asked decode_hex
  length-pad_if_asked random target none context xs masked e =
      length-pad_masked_elements xs (record { target_size = target; padding_secret = random })
        context masked (ground (arith, e))
  length-pad_if_asked random target (some s) context xs masked e =
      elim (Option-cases (c.hex_decode s)) [
        | inl bad ↦ absurd (ground (arith, e, bad))
        | inr (secret, good) ↦
            length-pad_masked_elements xs (record { target_size = target; padding_secret = secret })
              context masked (ground (arith, e, good))
      ]

  module _ ⦃w : WireCodec⦄ ⦃p : PrettyWire⦄ ⦃i : Serde StoredIdentity⦄ ⦃j : Serde InitiatorState⦄
      ⦃r : Serde ResponderState⦄ where
    -- A run whose offer holds the masks of the first set and no padding: whatever the sets have in
    -- common, it writes the result of no
    -- identifiers, provided that hex text is decoded as what it encodes and that no identifier of the
    -- first party, masked by both secrets, equals one of the second party that is masked by its secret
    -- and by the secret of 32 zero bytes.
    pub online_run-empty :
        HexRoundTrips c
        → (plan : Plan) (files : Files) (a b : FactSet) (m : IntersectionMode)
        → Runs plan files a b m (map (mask plan.drawn_a.secret) a.ids)
        → ((x y : FactId)
            → OrdSet.contains x a.ids ≡ true
            → OrdSet.contains y b.ids ≡ true
            → c.diffie_hellman plan.drawn_b.secret (mask plan.drawn_a.secret x)
              ≢ c.diffie_hellman (zeros 32) (mask plan.drawn_b.secret y))
        → online_run plan files
          ≡ ok (write_out plan.output (unlines (result_lines [] (result_of [] m))) ∷ [])
    unfolding Reply.new_v2 Offer.new_v2
    online_run-empty reads plan files a b m runs apart =
        let ours = map-twice plan.drawn_b.secret plan.drawn_a.secret a.ids in
        let theirs = map-twice (zeros 32) plan.drawn_b.secret b.ids in
        online_run-outcome reads plan files a b m _ runs
        ∙ ground (
          arith,
          ap length ours ∙ length-map (twice plan.drawn_b.secret plan.drawn_a.secret) a.ids,
          ap₂ (λ l t. compute_intersection l t a.ids m) ours theirs
              ∙ compute_intersection_of_none (twice plan.drawn_b.secret plan.drawn_a.secret)
                  (twice (zeros 32) plan.drawn_b.secret) a.ids b.ids m
                  (load_fact_set-IsValid files input_a a runs.loads_a).ascending apart,
        )

    -- A run with an offer that is padded above the size of the first set: it fails, since the reply has
    -- as many elements as the padded offer and the saved state as many as the set, provided that hex
    -- text is decoded as what it encodes.
    pub online_run-padded :
        HexRoundTrips c
        → (plan : Plan) (files : Files) (a b : FactSet) (m : IntersectionMode) (target : ℕ)
          (masked : List MaskedElement)
        → plan.pad_to ≡ some target
        → length a.ids < target
        → Runs plan files a b m masked
        → online_run plan files ≡ err (session_error (element_count_mismatch (length a.ids) target))
    unfolding Reply.new_v2 Offer.new_v2 apply_mask
    online_run-padded reads plan files a b m target masked pads above runs =
        let size : length masked ≡ target =
          length-pad_if_asked plan.random target plan.pad_secret plan.session
            (map (mask plan.drawn_a.secret) a.ids) masked
            (ap
                (λ t.
                  pad_if_asked plan.random t plan.pad_secret plan.session
                    (map (mask plan.drawn_a.secret) a.ids))
                (sym pads)
              ∙ runs.padded) in
        online_run-outcome reads plan files a b m masked runs
        ∙ ground (arith, length-map (c.diffie_hellman plan.drawn_b.secret) masked ∙ size, above)
