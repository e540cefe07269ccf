-- ===== src/Cli/Online/Revealing/Dummies.antt =====
-- What `online-reveal` does with a state and a reveal: the initiator's elements are those of an offer
-- of zeros, and not those that the state holds.
use blind_overlap.Prelude.{
  ℕ, zero, suc, ◌≤◌, ◌≡◌, ◌≢◌, ap, ◌∙◌, true, Option, none, some, List, [], ◌∷◌, map, arith, length,
  length-map, ok,
}
use blind_overlap.Bytes.{Bytes, Text, eqb_refl, bytes_order}
use blind_overlap.Crypto.{Crypto, HexRoundTrips}
use blind_overlap.Order.{eq_of_same}
use blind_overlap.OrdSet
use blind_overlap.OrdSet.{IsAscending}
use blind_overlap.FactSet
use blind_overlap.FactSet.{FactId, from_ids}
use blind_overlap.Freshness.{SessionNonce}
use blind_overlap.Protocol.{IntersectionMode, max_set_size, mask, apply_mask, compute_intersection}
use blind_overlap.Protocol.Exactness.{result_of}
use blind_overlap.Session.Common.{v1_compatible, count_or_zero}
use blind_overlap.Session.Responder
use blind_overlap.Wire.Offer
use blind_overlap.Wire.Reveal.{IntersectionReveal, validate}
use blind_overlap.Wire.Message
use blind_overlap.Wire.Message.{WireMessage, WireCodec}
use blind_overlap.Cli.Common.{
  Files, write_out, Serde, parse_mode, parse_peer, read_to_string, read_json, decode_arg,
}
use blind_overlap.Cli.Lines.{unlines}
use blind_overlap.Cli.FactFile.{result_lines}
use blind_overlap.Cli.FactFile.Reading.{Are32}
use blind_overlap.Cli.Online.{ResponderState, decode_expected, as_reveal, decode_ids, zeros, repeat}
use blind_overlap.Cli.Online.Completing.Results.{collect_of_ascending, decode_ids-encode}
use blind_overlap.Cli.Online.Run.Faults.{compute_intersection_of_none}
use blind_overlap.Cli.Online.Revealing.{cmd_online_reveal}

eq_of_repeated :
    (n : ℕ) (element y : Bytes) → OrdSet.contains y (repeat n element) ≡ true → y ≡ element
unfolding OrdSet.contains repeat
eq_of_repeated zero element y h = absurd (ground (arith, h))
eq_of_repeated (suc n) element y h =
    ground (arith, h, eq_of_same bytes_order y element, eq_of_repeated n element y)

module _ ⦃c : Crypto⦄ where
  -- The state that stands in a file: its identifiers, a secret, and any doubly masked elements.
  pub record Holds (state : ResponderState) (session : Text) (ids : List FactId) (secret : Bytes)
      (mode : IntersectionMode) : Type 0 where
    pub same_session : state.session_id ≡ session
    pub same_ids : state.fact_ids_hex ≡ map c.hex_encode ids
    pub same_secret : state.secret_hex ≡ c.hex_encode secret
    pub same_mode : parse_mode state.mode ≡ ok mode

  module _ ⦃w : WireCodec⦄ ⦃j : Serde ResponderState⦄ where
    cmd_online_reveal_outcome :
        HexRoundTrips c
        → (now : ℕ) (nonce fresh : SessionNonce) (files : Files)
          (reveal_path state_path text state_text : Text) (output : Option Text)
          (state : ResponderState) (reveal : IntersectionReveal) (ids : List FactId)
          (secret : Bytes) (mode : IntersectionMode)
        → files state_path ≡ some state_text
        → j.from_str state_text ≡ some state
        → Holds state reveal.session_id ids secret mode
        → IsAscending ids
        → Are32 ids
        → length secret ≡ 32
        → length ids ≤ max_set_size
        → files reveal_path ≡ some text
        → w.signed_from_str text ≡ none
        → w.from_str text ≡ some (WireMessage.reveal reveal)
        → validate reveal ≡ ok tt
        → length reveal.responder_doubly_masked ≡ length ids
        → cmd_online_reveal now nonce fresh files reveal_path state_path output none
          ≡ ok (
              write_out output (
                unlines (
                  result_lines [] (
                    compute_intersection reveal.responder_doubly_masked
                      (apply_mask secret
                        (repeat (length state.initiator_doubly_masked_hex) (zeros 32)))
                      ids
                      mode)))
              ∷ [])
    unfolding cmd_online_reveal read_json read_to_string parse_peer decode_expected Message.decode
        Message.decode_signed Message.validate as_reveal decode_arg FactSet.len from_ids
        Responder.with_secret Responder.with_config Responder.initial Responder.is_state
        Responder.process_offer_and_reply Responder.check_offer_freshness Responder.uses_v2
        Responder.answer_offer Responder.process_reveal Responder.check_reveal_freshness
        Responder.finish_reveal v1_compatible count_or_zero Offer.new
    cmd_online_reveal_outcome reads now nonce fresh files reveal_path state_path text state_text
          output state reveal ids secret mode state_read parsed holds asc all32 size small
          reveal_read unsigned decoded valid count =
        ground (
          arith,
          state_read,
          parsed,
          holds.same_session,
          holds.same_mode,
          ap decode_ids holds.same_ids ∙ decode_ids-encode reads ids all32,
          ap c.hex_decode holds.same_secret ∙ reads secret,
          size,
          collect_of_ascending ids asc,
          length-map (mask secret) ids,
          small,
          reveal_read,
          unsigned,
          decoded,
          valid,
          count,
          eqb_refl reveal.session_id,
        )

    -- The command with an unsigned reveal whose elements are the masks of the responder's set by both
    -- secrets: whatever the two sets have in common, and also where the state holds the responder's
    -- own secret, it writes the result of no identifiers, provided that the files are read as the state
    -- and the reveal, that hex text is decoded as what it encodes, and that no element of the reveal
    -- equals 32 zero bytes under the responder's secret.
    pub cmd_online_reveal-empty :
        HexRoundTrips c
        → (now : ℕ) (nonce fresh : SessionNonce) (files : Files)
          (reveal_path state_path text state_text : Text) (output : Option Text)
          (state : ResponderState) (reveal : IntersectionReveal) (ids : List FactId)
          (secret their_secret : Bytes) (mode : IntersectionMode)
        → files state_path ≡ some state_text
        → j.from_str state_text ≡ some state
        → Holds state reveal.session_id ids secret mode
        → IsAscending ids
        → Are32 ids
        → length secret ≡ 32
        → length ids ≤ max_set_size
        → files reveal_path ≡ some text
        → w.signed_from_str text ≡ none
        → w.from_str text ≡ some (WireMessage.reveal reveal)
        → validate reveal ≡ ok tt
        → reveal.responder_doubly_masked
          ≡ map (λ x. c.diffie_hellman their_secret (mask secret x)) ids
        → ((x : FactId)
            → OrdSet.contains x ids ≡ true
            → c.diffie_hellman their_secret (mask secret x) ≢ c.diffie_hellman secret (zeros 32))
        → cmd_online_reveal now nonce fresh files reveal_path state_path output none
          ≡ ok (write_out output (unlines (result_lines [] (result_of [] mode))) ∷ [])
    unfolding apply_mask
    cmd_online_reveal-empty reads now nonce fresh files reveal_path state_path text state_text
          output state reveal ids secret their_secret mode state_read parsed holds asc all32 size
          small reveal_read unsigned decoded valid elements apart =
        let count = length state.initiator_doubly_masked_hex in
        cmd_online_reveal_outcome reads now nonce fresh files reveal_path state_path text state_text
          output state reveal ids secret mode state_read parsed holds asc all32 size small
          reveal_read unsigned decoded valid
          (ap length elements ∙ length-map (λ x. c.diffie_hellman their_secret (mask secret x)) ids)
        ∙ ground (
          arith,
          ap (λ l. compute_intersection l (apply_mask secret (repeat count (zeros 32))) ids mode)
                elements
              ∙ compute_intersection_of_none (λ x. c.diffie_hellman their_secret (mask secret x))
                  (c.diffie_hellman secret) ids (repeat count (zeros 32)) mode asc
                  (λ x y m n e.
                    apart x m
                      (e ∙ ap (c.diffie_hellman secret) (eq_of_repeated count (zeros 32) y n))),
        )
