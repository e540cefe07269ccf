-- ===== src/Session/Responder.antt =====
-- `ResponderSession` of crates/blindoverlap/src/session.rs.
use blind_overlap.Prelude.{
  ℕ, Bool, true, false, not, ◌&&◌, Option, none, some, List, map, length, ltb, ◌==◌, if◌then◌else◌,
  Result, ok, err, ◌>>=◌, ◌>>◌,
}
use blind_overlap.Bytes.{Bytes, Text, ascii, eqb}
use blind_overlap.Crypto.{Crypto}
use blind_overlap.Freshness.{SessionNonce, new_deadline, default_ttl_secs}
use blind_overlap.FactSet
use blind_overlap.FactSet.{FactId, FactSet}
use blind_overlap.Protocol.{
  MaskedElement, IntersectionMode, PsiResult, max_set_size, mask, apply_mask, compute_intersection,
}
use blind_overlap.Identity
use blind_overlap.Identity.{PublicIdentity, PartyIdentity}
use blind_overlap.Wire.Common.{deadline}
use blind_overlap.Wire.Offer
use blind_overlap.Wire.Offer.{MaskedSetOffer}
use blind_overlap.Wire.Reply
use blind_overlap.Wire.Reply.{MaskedSetReply}
use blind_overlap.Wire.Reveal
use blind_overlap.Wire.Reveal.{IntersectionReveal}
use blind_overlap.Session.Common.{
  SessionError, set_too_large, invalid_state, session_id_mismatch, element_count_mismatch,
  SessionConfig, default_config, v1_compatible, with_identity_binding, ChannelBinding, check_nonce,
  check_deadline, count_or_zero,
}
use blind_overlap.Session.Initiator.{Drawn, or_generated}

pub data ResponderState : Type 0 where
  created reply_sent complete : ResponderState

unfoldable pub responder_state_name : ResponderState → Text
responder_state_name created = ascii "Created"
responder_state_name reply_sent = ascii "ReplySent"
responder_state_name complete = ascii "Complete"

-- `==` on states
unfoldable pub is_state : ResponderState → ResponderState → Bool
is_state created created = true
is_state reply_sent reply_sent = true
is_state complete complete = true
is_state _ _ = false

pub record ResponderSession : Type 0 where
  pub session_id : Text
  pub secret : Bytes
  pub fact_set : FactSet
  pub original_ids : List FactId
  pub mode : IntersectionMode
  pub state : ResponderState
  pub config : SessionConfig
  pub nonce : SessionNonce
  pub initiator_nonce : Option SessionNonce
  pub masked_elements : Option (List MaskedElement)
  pub initiator_doubly_masked : Option (List MaskedElement)
  pub channel_binding : Option ChannelBinding
  pub verified_peer : Option PublicIdentity

-- The session before its first message, within the size limit.
unfoldable pub initial :
    Drawn → Text → FactSet → IntersectionMode → SessionConfig → ResponderSession
initial drawn session_id fact_set mode config = record {
  session_id = session_id;
  secret = drawn.secret;
  fact_set = fact_set;
  original_ids = fact_set.ids;
  mode = mode;
  state = created;
  config = config;
  nonce = drawn.nonce;
  initiator_nonce = none;
  masked_elements = none;
  initiator_doubly_masked = none;
  channel_binding = none;
  verified_peer = none;
}

unfoldable pub with_config :
    Drawn → Text → FactSet → IntersectionMode → SessionConfig → Result SessionError ResponderSession
with_config drawn session_id fact_set mode config =
    if ltb max_set_size (FactSet.len fact_set)
    then err (set_too_large (FactSet.len fact_set))
    else ok (initial drawn session_id fact_set mode config)

unfoldable pub new :
    Drawn → Text → FactSet → IntersectionMode → Result SessionError ResponderSession
unfolding with_config
new drawn session_id fact_set mode = with_config drawn session_id fact_set mode default_config

-- `with_secret`: the secret is given, and only the nonce is drawn.
unfoldable pub with_secret :
    Drawn → Text → FactSet → IntersectionMode → Result SessionError ResponderSession
unfolding with_config
with_secret drawn session_id fact_set mode =
    with_config drawn session_id fact_set mode v1_compatible

module _ ⦃c : Crypto⦄ where
  unfoldable pub with_channel_binding :
      Drawn
      → Text
      → FactSet
      → IntersectionMode
      → PartyIdentity
      → PublicIdentity
      → Result SessionError ResponderSession
  unfolding with_config
  with_channel_binding drawn session_id fact_set mode local_identity expected_peer = do
    session ← with_config drawn session_id fact_set mode (with_identity_binding default_ttl_secs)
    ok (record session {
      channel_binding =
          some
            (record { local_pubkey = Identity.public local_identity; peer_pubkey = expected_peer });
    })

  unfoldable pub uses_v2 : ResponderSession → MaskedSetOffer → Bool
  uses_v2 s offer = s.config.use_freshness && Offer.has_freshness offer

  unfoldable pub check_offer_freshness :
      ℕ → ResponderSession → MaskedSetOffer → Result SessionError Unit
  check_offer_freshness now s offer =
      if uses_v2 s offer
      then check_deadline now (deadline offer.issued_at offer.expires_at)
      else ok tt

  -- `fresh` is what `SessionNonce::generate` would draw, and `later` the clock of the new deadline.
  unfoldable pub reply_of :
      ℕ
      → SessionNonce
      → ResponderSession
      → MaskedSetOffer
      → List MaskedElement
      → List MaskedElement
      → MaskedSetReply
  reply_of later fresh s offer our_masked initiator_doubly_masked =
      if uses_v2 s offer
      then Reply.new_v2 s.session_id our_masked initiator_doubly_masked
          (or_generated offer.nonce fresh) s.nonce (new_deadline later s.config.ttl_secs)
      else Reply.new s.session_id our_masked initiator_doubly_masked

  unfoldable pub answer_offer :
      ℕ
      → SessionNonce
      → ResponderSession
      → MaskedSetOffer
      → Result SessionError MaskedSetReply × ResponderSession
  answer_offer later fresh s offer =
      let our_masked = map (mask s.secret) s.original_ids in
      let initiator_doubly_masked = apply_mask s.secret offer.masked_elements in
      (
        ok (reply_of later fresh s offer our_masked initiator_doubly_masked),
        record s {
          initiator_nonce = if uses_v2 s offer then offer.nonce else s.initiator_nonce;
          masked_elements = some our_masked;
          initiator_doubly_masked = some initiator_doubly_masked;
          state = reply_sent;
        },
      )

  unfoldable pub process_offer_and_reply :
      (now later : ℕ)
      → SessionNonce
      → MaskedSetOffer
      → ResponderSession
      → Result SessionError MaskedSetReply × ResponderSession
  unfolding is_state check_offer_freshness answer_offer
  process_offer_and_reply now later fresh offer s =
      if not (is_state s.state created)
      then (err (invalid_state (ascii "Created") (responder_state_name s.state)), s)
      else if not (eqb offer.session_id s.session_id)
      then (err (session_id_mismatch s.session_id offer.session_id), s)
      else elim (check_offer_freshness now s offer) [
        | err e ↦ (err e, s)
        | ok _ ↦ answer_offer later fresh s offer
      ]

  unfoldable pub check_reveal_freshness :
      ℕ → ResponderSession → IntersectionReveal → Result SessionError Unit
  check_reveal_freshness now s reveal =
      if s.config.use_freshness && Reveal.has_freshness reveal
      then (do
        check_nonce c.hex_encode s.nonce reveal.responder_nonce
        check_deadline now (deadline reveal.issued_at reveal.expires_at))
      else ok tt

  unfoldable pub finish_reveal :
      ResponderSession → IntersectionReveal → Result SessionError PsiResult × ResponderSession
  finish_reveal s reveal =
      let our_count = count_or_zero s.masked_elements in
      if not (length reveal.responder_doubly_masked == our_count)
      then (err (element_count_mismatch our_count (length reveal.responder_doubly_masked)), s)
      else elim s.initiator_doubly_masked [
        | none ↦ (
          err (
              invalid_state (ascii "ReplySent with initiator data")
                (ascii "missing initiator doubly masked")),
          s,
        )
        | some initiator_doubly_masked ↦ (
          ok (
              compute_intersection reveal.responder_doubly_masked initiator_doubly_masked
                s.original_ids s.mode),
          record s { state = complete },
        )
      ]

  unfoldable pub process_reveal :
      ℕ → IntersectionReveal → ResponderSession → Result SessionError PsiResult × ResponderSession
  unfolding is_state check_reveal_freshness finish_reveal
  process_reveal now reveal s =
      if not (is_state s.state reply_sent)
      then (err (invalid_state (ascii "ReplySent") (responder_state_name s.state)), s)
      else if not (eqb reveal.session_id s.session_id)
      then (err (session_id_mismatch s.session_id reveal.session_id), s)
      else elim (check_reveal_freshness now s reveal) [
        | err e ↦ (err e, s)
        | ok _ ↦ finish_reveal s reveal
      ]
