-- ===== src/Cli/Online/Run.antt =====
-- The online commands, one after the other, as the two parties run them without identities.
pub mod Outcome
pub mod Faults
use blind_overlap.Prelude.{
  ℕ, ◌≤◌, ◌≡◌, Option, none, some, List, [], ◌∷◌, map, arith, length, false, ltb, ◌==◌,
  if◌then◌else◌, Result, ok, err, ◌>>=◌,
}
use blind_overlap.Bytes.{Bytes, Text, ascii, eqb, eqb_refl}
use blind_overlap.Crypto.{Crypto, HexRoundTrips}
use blind_overlap.FactSet
use blind_overlap.FactSet.{FactId, FactSet}
use blind_overlap.Freshness.{SessionNonce, new_deadline, validate}
use blind_overlap.Protocol.{
  MaskedElement, IntersectionMode, max_set_size, mask, apply_mask, compute_intersection,
}
use blind_overlap.Session.Common.{config_with_ttl, element_count_mismatch, check_deadline}
use blind_overlap.Session.Initiator
use blind_overlap.Session.Initiator.{Drawn}
use blind_overlap.Session.Responder
use blind_overlap.Wire.Common.{deadline, masked_set_offer_v2}
use blind_overlap.Wire.Offer
use blind_overlap.Wire.Offer.{MaskedSetOffer}
use blind_overlap.Wire.Reply
use blind_overlap.Wire.Reply.{MaskedSetReply}
use blind_overlap.Wire.Message
use blind_overlap.Wire.Message.{WireMessage, WireCodec}
use blind_overlap.Cli.Common.{
  CliError, session_error, Files, Effect, write_file, write_out, Serde, ReadsBack, StoredIdentity,
  parse_mode, parse_peer, load_optional, emit, perform, read_to_string,
}
use blind_overlap.Cli.Lines.{unlines}
use blind_overlap.Cli.FactFile.{load_fact_set, result_lines}
use blind_overlap.Cli.Online.{
  InitiatorState, ResponderState, PrettyWire, zeros, pad_if_asked, message_text, decode_expected,
  as_offer,
}
use blind_overlap.Cli.Online.Offering.{
  ttl_or_default, offer_state, sent_offer, fresh_offer, cmd_online_offer,
}
use blind_overlap.Cli.Online.Replying.{sent_reply, fresh_reply, reply_state, cmd_online_reply}
use blind_overlap.Cli.Online.Completing.{cmd_online_complete}

module _ ⦃c : Crypto⦄ ⦃w : WireCodec⦄ ⦃p : PrettyWire⦄ ⦃i : Serde StoredIdentity⦄ where
  -- The offer of a session, and its state as it is saved.
  abbrev pub made_offer : ℕ → Drawn → Text → Option ℕ → List MaskedElement → MaskedSetOffer
  made_offer now drawn session ttl masked =
      Offer.new_v2 session masked drawn.nonce (new_deadline now (ttl_or_default ttl))

  abbrev pub saved_state :
      ℕ → Drawn → Text → Text → Option ℕ → FactSet → IntersectionMode → InitiatorState
  saved_state now drawn session mode ttl a m =
      offer_state session mode (ttl_or_default ttl) a
        (Initiator.initial now drawn session a m (config_with_ttl (ttl_or_default ttl)))
        (made_offer now drawn session ttl (map (mask drawn.secret) a.ids))

  -- An offer is written with its state, for any padding that succeeds.
  pub cmd_online_offer_writes :
      ⦃j : Serde InitiatorState⦄
      → (now : ℕ) (drawn : Drawn) (random : Bytes) (files : Files) (input session mode : Text)
        (ttl pad_to : Option ℕ) (pad_secret : Option Text) (out state_out : Text) (a : FactSet)
        (m : IntersectionMode) (masked : List MaskedElement)
      → load_fact_set files input ≡ ok a
      → parse_mode mode ≡ ok m
      → length a.ids ≤ max_set_size
      → pad_if_asked random pad_to pad_secret session (map (mask drawn.secret) a.ids) ≡ ok masked
      → cmd_online_offer now drawn random files input session mode ttl pad_to pad_secret
          (some out)
          state_out
          none
          none
        ≡ ok (
            write_file out (p.pretty (WireMessage.offer (made_offer now drawn session ttl masked)))
            ∷ write_file state_out (j.to_string_pretty (saved_state now drawn session mode ttl a m))
            ∷ [])
  unfolding cmd_online_offer Initiator.with_config Initiator.initial Initiator.generate_offer
      Initiator.offer_of sent_offer Offer.has_freshness deadline config_with_ttl load_optional
      parse_peer emit message_text Offer.new_v2 offer_state FactSet.len
  cmd_online_offer_writes ⦃j = j⦄ now drawn random files input session mode ttl pad_to pad_secret
        out state_out a m masked loads mode_is small padded =
      ground (arith, loads, mode_is, padded)

  -- The reply to an offer.
  abbrev pub made_reply :
      ℕ → Drawn → Option ℕ → SessionNonce → MaskedSetOffer → FactSet → MaskedSetReply
  made_reply later drawn ttl nonce offer b =
      Reply.new_v2 offer.session_id (map (mask drawn.secret) b.ids)
        (apply_mask drawn.secret offer.masked_elements) nonce drawn.nonce
        (new_deadline later (ttl_or_default ttl))

  abbrev pub replied_state :
      ℕ
      → Drawn
      → Text
      → Option ℕ
      → SessionNonce
      → MaskedSetOffer
      → FactSet
      → IntersectionMode
      → ResponderState
  replied_state later drawn mode ttl nonce offer b m =
      reply_state offer.session_id mode (ttl_or_default ttl) b
        (record (Responder.initial drawn offer.session_id b m
          (config_with_ttl (ttl_or_default ttl))) { initiator_nonce = some nonce })
        (made_reply later drawn ttl nonce offer b)

  -- An unsigned offer with a nonce, unexpired, is answered without padding.
  pub cmd_online_reply_writes :
      ⦃j : Serde ResponderState⦄
      → (now later : ℕ) (fresh : SessionNonce) (drawn : Drawn) (random : Bytes) (files : Files)
        (input offer_path mode : Text) (ttl : Option ℕ) (out state_out text : Text) (b : FactSet)
        (m : IntersectionMode) (made : ℕ) (sender : Drawn) (session : Text)
        (masked : List MaskedElement)
      → load_fact_set files input ≡ ok b
      → parse_mode mode ≡ ok m
      → length b.ids ≤ max_set_size
      → files offer_path ≡ some text
      → w.signed_from_str text ≡ none
      → w.from_str text ≡ some (WireMessage.offer (made_offer made sender session ttl masked))
      → validate now (new_deadline made (ttl_or_default ttl)) ≡ ok tt
      → cmd_online_reply now later fresh drawn random files input offer_path mode ttl none none
          (some out)
          state_out
          none
          none
        ≡ ok (
            write_file out (
              p.pretty (
                WireMessage.reply (
                  made_reply later drawn ttl sender.nonce
                    (made_offer made sender session ttl masked)
                    b)))
            ∷ write_file state_out (
                j.to_string_pretty (
                  replied_state later drawn mode ttl sender.nonce
                    (made_offer made sender session ttl masked)
                    b
                    m))
            ∷ [])
  unfolding cmd_online_reply Responder.with_config Responder.initial
      Responder.process_offer_and_reply Responder.reply_of Responder.uses_v2 Responder.answer_offer
      Responder.check_offer_freshness Responder.is_state pad_if_asked sent_reply Reply.has_freshness
      Offer.has_freshness deadline config_with_ttl load_optional parse_peer emit message_text
      Offer.new_v2 Reply.new_v2 reply_state FactSet.len decode_expected Message.decode
      Message.decode_signed Message.validate Offer.validate as_offer read_to_string check_deadline
  cmd_online_reply_writes ⦃j = j⦄ now later fresh drawn random files input offer_path mode ttl out
        state_out text b m made sender session masked loads mode_is small reads unsigned decoded
        timely =
      ground (
        arith,
        loads,
        mode_is,
        reads,
        unsigned,
        decoded,
        timely,
        eqb_refl session,
        eqb_refl masked_set_offer_v2,
      )

-- The files of a run in one directory.
abbrev pub input_a : Text
input_a = ascii "a.txt"

abbrev pub input_b : Text
input_b = ascii "b.txt"

abbrev pub offer_json : Text
offer_json = ascii "offer.json"

abbrev pub reply_json : Text
reply_json = ascii "reply.json"

abbrev pub state_a_json : Text
state_a_json = ascii "state_a.json"

abbrev pub state_b_json : Text
state_b_json = ascii "state_b.json"

-- The arguments of a run, and what its commands draw and read from the clock.
pub record Plan : Type 0 where
  pub session : Text
  pub mode : Text
  pub ttl_secs : Option ℕ
  pub pad_to : Option ℕ
  pub pad_secret : Option Text
  pub output : Option Text
  pub drawn_a : Drawn
  pub drawn_b : Drawn
  pub random : Bytes
  pub offer_made : ℕ
  pub offer_checked : ℕ
  pub reply_made : ℕ
  pub restarted : ℕ
  pub reply_checked : ℕ
  pub nonce : SessionNonce
  pub fresh : SessionNonce

module _ ⦃c : Crypto⦄ ⦃w : WireCodec⦄ ⦃p : PrettyWire⦄ ⦃i : Serde StoredIdentity⦄
    ⦃j : Serde InitiatorState⦄ ⦃r : Serde ResponderState⦄ where
  -- `online-offer`, `online-reply` and `online-complete`, each on the files that the former leave.
  unfoldable pub online_run : Plan → Files → Result CliError (List Effect)
  online_run plan files = do
    offered ←
        cmd_online_offer plan.offer_made plan.drawn_a plan.random files input_a plan.session
          plan.mode plan.ttl_secs plan.pad_to plan.pad_secret (some offer_json) state_a_json none
          none
    replied ←
        cmd_online_reply plan.offer_checked plan.reply_made plan.fresh plan.drawn_b plan.random
          (perform offered files) input_b offer_json plan.mode plan.ttl_secs none none
          (some reply_json) state_b_json none none
    cmd_online_complete plan.restarted plan.reply_checked plan.nonce plan.fresh
        (perform replied (perform offered files)) reply_json state_a_json plan.output false none
        none none
