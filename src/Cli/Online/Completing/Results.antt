-- ===== src/Cli/Online/Completing/Results.antt =====
-- What `online-complete` does with a state and a reply.
use blind_overlap.Prelude.{
  ℕ, ◌≤◌, ◌≡◌, refl, ap, ap₂, ◌∙◌, false, Option, none, some, List, [], ◌∷◌, map, arith, length,
  length-map, ◌==◌, if◌then◌else◌, Result, ok, err,
}
use blind_overlap.Bytes.{Bytes, Text, eqb_refl, bytes_order}
use blind_overlap.Crypto.{Crypto, Commutes, HexRoundTrips}
use blind_overlap.OrdSet
use blind_overlap.OrdSet.{IsAscending, After}
use blind_overlap.FactSet
use blind_overlap.FactSet.{FactId, from_ids}
use blind_overlap.Freshness.{SessionNonce}
use blind_overlap.Protocol.{IntersectionMode, max_set_size, mask, apply_mask, compute_intersection}
use blind_overlap.Protocol.Exactness.{overlap, result_of, TellsApart, compute_intersection-overlap}
use blind_overlap.Session.Common.{element_count_mismatch, v1_compatible, count_or_zero}
use blind_overlap.Session.Initiator
use blind_overlap.Wire.Reply.{MaskedSetReply, validate}
use blind_overlap.Wire.Message
use blind_overlap.Wire.Message.{WireMessage, WireCodec}
use blind_overlap.Cli.Common.{
  CliError, session_error, Files, Effect, write_out, Serde, StoredIdentity, parse_mode, parse_peer,
  load_optional, read_to_string, read_json, decode_arg,
}
use blind_overlap.Cli.Lines.{unlines}
use blind_overlap.Cli.FactFile.{result_lines}
use blind_overlap.Cli.FactFile.Reading.{Are32}
use blind_overlap.Cli.Online.{InitiatorState, PrettyWire, decode_expected, as_reply, decode_ids}
use blind_overlap.Cli.Online.Completing.{cmd_online_complete, reveal_effects}

insert-first : (x : Bytes) (xs : List Bytes) → After x xs → OrdSet.insert x xs ≡ x ∷ xs
unfolding OrdSet.insert
insert-first x [] h = refl
insert-first x (y ∷ ys) h = ground (arith, h.0)

-- An ascending list is its own set.
pub collect_of_ascending : (xs : List Bytes) → IsAscending xs → OrdSet.collect xs ≡ xs
unfolding OrdSet.collect
collect_of_ascending [] h = refl
collect_of_ascending (x ∷ xs) h =
    ap (OrdSet.insert x) (collect_of_ascending xs h.1) ∙ insert-first x xs h.0

module _ ⦃c : Crypto⦄ where
  pub decode_ids-encode :
      HexRoundTrips c → (ids : List FactId) → Are32 ids → decode_ids (map c.hex_encode ids) ≡ ok ids
  unfolding decode_ids
  decode_ids-encode reads [] h = refl
  decode_ids-encode reads (id ∷ ids) h =
      ground (arith, reads id, h, decode_ids-encode reads ids h.1)

  -- The state that stands in a file: its identifiers and a secret of 32 bytes.
  pub record Holds (state : InitiatorState) (session : Text) (ids : List FactId) (secret : Bytes)
      (mode : IntersectionMode) : Type 0 where
    pub same_session : state.session_id ≡ session
    pub same_ids : state.fact_ids_hex ≡ map c.hex_encode ids
    pub same_secret : state.secret_hex ≡ c.hex_encode secret
    pub same_mode : parse_mode state.mode ≡ ok mode

  -- What is written of a reply: the intersection by the given secret, if the counts agree.
  abbrev pub outcome :
      Bytes
      → List FactId
      → IntersectionMode
      → Option Text
      → MaskedSetReply
      → Result CliError (List Effect)
  outcome secret ids mode output reply =
      if length reply.initiator_doubly_masked == length ids
      then ok (
          write_out output (
            unlines (
              result_lines [] (
                compute_intersection reply.initiator_doubly_masked
                  (apply_mask secret reply.responder_masked) ids mode)))
          ∷ [])
      else err (
          session_error
            (element_count_mismatch (length ids) (length reply.initiator_doubly_masked)))

  module _ ⦃w : WireCodec⦄ ⦃p : PrettyWire⦄ ⦃i : Serde StoredIdentity⦄
      ⦃j : Serde InitiatorState⦄ where
    pub cmd_online_complete-outcome :
        HexRoundTrips c
        → (started now : ℕ) (nonce fresh : SessionNonce) (files : Files)
          (reply_path state_path text state_text : Text) (output : Option Text)
          (state : InitiatorState) (reply : MaskedSetReply) (ids : List FactId) (secret : Bytes)
          (mode : IntersectionMode)
        → files state_path ≡ some state_text
        → j.from_str state_text ≡ some state
        → Holds state reply.session_id ids secret mode
        → IsAscending ids
        → Are32 ids
        → length secret ≡ 32
        → length ids ≤ max_set_size
        → files reply_path ≡ some text
        → w.signed_from_str text ≡ none
        → w.from_str text ≡ some (WireMessage.reply reply)
        → validate reply ≡ ok tt
        → cmd_online_complete started now nonce fresh files reply_path state_path output false none
            none none
          ≡ outcome secret ids mode output reply
    unfolding cmd_online_complete read_json read_to_string load_optional parse_peer decode_expected
        Message.decode Message.decode_signed Message.validate as_reply decode_arg FactSet.len
        from_ids Initiator.with_secret Initiator.with_config Initiator.initial
        Initiator.generate_offer Initiator.is_state Initiator.process_reply
        Initiator.check_freshness Initiator.note_nonce Initiator.uses_v2 Initiator.finish_reply
        v1_compatible count_or_zero reveal_effects
    cmd_online_complete-outcome reads started now nonce fresh files reply_path state_path text
          state_text output state reply ids secret mode state_read parsed holds asc all32 size small
          reply_read unsigned decoded valid =
        ground (
          arith,
          state_read,
          parsed,
          holds.same_session,
          holds.same_mode,
          ap decode_ids holds.same_ids ∙ decode_ids-encode reads ids all32,
          ap c.hex_decode holds.same_secret ∙ reads secret,
          size,
          collect_of_ascending ids asc,
          length-map (mask secret) ids,
          small,
          reply_read,
          unsigned,
          decoded,
          valid,
          eqb_refl reply.session_id,
        )

    -- The command with a state that holds the initiator's own secret and set, and with the honest
    -- unsigned reply of a responder: it writes exactly the overlap of the two sets, provided that the
    -- files are read as the state and the reply, that hex text is decoded as what it encodes, that
    -- Diffie-Hellman commutes and that the masks tell the identifiers apart.
    pub cmd_online_complete-overlap :
        HexRoundTrips c
        → Commutes c
        → (started now : ℕ) (nonce fresh : SessionNonce) (files : Files)
          (reply_path state_path text state_text : Text) (output : Option Text)
          (state : InitiatorState) (reply : MaskedSetReply) (xs ys : List FactId)
          (secret their_secret : Bytes) (mode : IntersectionMode)
        → files state_path ≡ some state_text
        → j.from_str state_text ≡ some state
        → Holds state reply.session_id xs secret mode
        → IsAscending xs
        → Are32 xs
        → length secret ≡ 32
        → length xs ≤ max_set_size
        → files reply_path ≡ some text
        → w.signed_from_str text ≡ none
        → w.from_str text ≡ some (WireMessage.reply reply)
        → validate reply ≡ ok tt
        → reply.responder_masked ≡ map (mask their_secret) ys
        → reply.initiator_doubly_masked ≡ apply_mask their_secret (map (mask secret) xs)
        → TellsApart their_secret secret xs ys
        → cmd_online_complete started now nonce fresh files reply_path state_path output false none
            none none
          ≡ ok (write_out output (unlines (result_lines [] (result_of (overlap xs ys) mode))) ∷ [])
    unfolding apply_mask
    cmd_online_complete-overlap reads comm started now nonce fresh files reply_path state_path text
          state_text output state reply xs ys secret their_secret mode state_read parsed holds asc
          all32 size small reply_read unsigned decoded valid theirs ours apart =
        cmd_online_complete-outcome reads started now nonce fresh files reply_path state_path text
          state_text output state reply xs secret mode state_read parsed holds asc all32 size small
          reply_read unsigned decoded valid
        ∙ ground (
          arith,
          ap length ours
              ∙ length-map (c.diffie_hellman their_secret) (map (mask secret) xs)
              ∙ length-map (mask secret) xs,
          ap₂ (λ l r. compute_intersection l (apply_mask secret r) xs mode) ours theirs
              ∙ compute_intersection-overlap comm their_secret secret xs ys mode asc apart,
        )
