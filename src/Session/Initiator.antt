-- ===== src/Session/Initiator.antt =====
-- `InitiatorSession` of crates/blindoverlap/src/session.rs.
use blind_overlap.Prelude.{
  ℕ, Bool, true, false, not, ◌&&◌, Option, none, some, List, map, length, ltb, ◌==◌, if◌then◌else◌,
  Result, ok, err, ◌>>=◌, ◌>>◌,
}
use blind_overlap.Bytes.{Bytes, Text, ascii, eqb}
use blind_overlap.Crypto.{Crypto}
use blind_overlap.Freshness.{SessionNonce, SessionDeadline, new_deadline}
use blind_overlap.FactSet
use blind_overlap.FactSet.{FactId, FactSet}
use blind_overlap.Protocol.{
  MaskedElement, IntersectionMode, PsiResult, max_set_size, mask, apply_mask, compute_intersection,
}
use blind_overlap.Identity
use blind_overlap.Identity.{PublicIdentity, PartyIdentity}
use blind_overlap.Wire.Common.{deadline}
use blind_overlap.Wire.Offer
use blind_overlap.Wire.Offer.{MaskedSetOffer}
use blind_overlap.Wire.Reply
use blind_overlap.Wire.Reply.{MaskedSetReply}
use blind_overlap.Wire.Reveal
use blind_overlap.Wire.Reveal.{IntersectionReveal}
use blind_overlap.Session.Common.{
  SessionError, set_too_large, invalid_state, session_id_mismatch, element_count_mismatch,
  SessionConfig, default_config, v1_compatible, with_identity_binding, ChannelBinding, check_nonce,
  check_deadline, count_or_zero,
}
use blind_overlap.Freshness.{default_ttl_secs}

pub data InitiatorState : Type 0 where
  created awaiting_reply complete : InitiatorState

unfoldable pub state_name : InitiatorState → Text
state_name created = ascii "Created"
state_name awaiting_reply = ascii "AwaitingReply"
state_name complete = ascii "Complete"

-- `==` on states
unfoldable pub is_state : InitiatorState → InitiatorState → Bool
is_state created created = true
is_state awaiting_reply awaiting_reply = true
is_state complete complete = true
is_state _ _ = false

pub record InitiatorSession : Type 0 where
  pub session_id : Text
  pub secret : Bytes
  pub fact_set : FactSet
  pub original_ids : List FactId
  pub mode : IntersectionMode
  pub state : InitiatorState
  pub config : SessionConfig
  pub nonce : SessionNonce
  pub session_deadline : SessionDeadline
  pub masked_elements : Option (List MaskedElement)
  pub responder_masked : Option (List MaskedElement)
  pub responder_nonce : Option SessionNonce
  pub our_doubly_masked : Option (List MaskedElement)
  pub channel_binding : Option ChannelBinding
  pub verified_peer : Option PublicIdentity

-- What a new session draws: its secret and its nonce.
pub record Drawn : Type 0 where
  pub secret : Bytes
  pub nonce : SessionNonce

-- The session before its first message, within the size limit.
unfoldable pub initial :
    ℕ → Drawn → Text → FactSet → IntersectionMode → SessionConfig → InitiatorSession
initial now drawn session_id fact_set mode config = record {
  session_id = session_id;
  secret = drawn.secret;
  fact_set = fact_set;
  original_ids = fact_set.ids;
  mode = mode;
  state = created;
  config = config;
  nonce = drawn.nonce;
  session_deadline = new_deadline now config.ttl_secs;
  masked_elements = none;
  responder_masked = none;
  responder_nonce = none;
  our_doubly_masked = none;
  channel_binding = none;
  verified_peer = none;
}

unfoldable pub with_config :
    ℕ
    → Drawn
    → Text
    → FactSet
    → IntersectionMode
    → SessionConfig
    → Result SessionError InitiatorSession
with_config now drawn session_id fact_set mode config =
    if ltb max_set_size (FactSet.len fact_set)
    then err (set_too_large (FactSet.len fact_set))
    else ok (initial now drawn session_id fact_set mode config)

unfoldable pub new :
    ℕ → Drawn → Text → FactSet → IntersectionMode → Result SessionError InitiatorSession
unfolding with_config
new now drawn session_id fact_set mode =
    with_config now drawn session_id fact_set mode default_config

-- `with_secret`: the secret is given, and only the nonce is drawn.
unfoldable pub with_secret :
    ℕ → Drawn → Text → FactSet → IntersectionMode → Result SessionError InitiatorSession
unfolding with_config
with_secret now drawn session_id fact_set mode =
    with_config now drawn session_id fact_set mode v1_compatible

module _ ⦃c : Crypto⦄ where
  unfoldable pub with_channel_binding :
      ℕ
      → Drawn
      → Text
      → FactSet
      → IntersectionMode
      → PartyIdentity
      → PublicIdentity
      → Result SessionError InitiatorSession
  unfolding with_config
  with_channel_binding now drawn session_id fact_set mode local_identity expected_peer = do
    session ←
        with_config now drawn session_id fact_set mode (with_identity_binding default_ttl_secs)
    ok (record session {
      channel_binding =
          some
            (record { local_pubkey = Identity.public local_identity; peer_pubkey = expected_peer });
    })

  unfoldable pub offer_of : InitiatorSession → List MaskedElement → MaskedSetOffer
  offer_of s masked =
      if s.config.use_freshness
      then Offer.new_v2 s.session_id masked s.nonce s.session_deadline
      else Offer.new s.session_id masked

  unfoldable pub generate_offer :
      InitiatorSession → Result SessionError MaskedSetOffer × InitiatorSession
  unfolding is_state
  generate_offer s =
      if not (is_state s.state created)
      then (err (invalid_state (ascii "Created") (state_name s.state)), s)
      else (let masked = map (mask s.secret) s.original_ids in
          (
            ok (offer_of s masked),
            record s { masked_elements = some masked; state = awaiting_reply },
          ))

  -- The checks on nonce and times, made only where the session and the reply both use freshness.
  unfoldable pub uses_v2 : InitiatorSession → MaskedSetReply → Bool
  uses_v2 s reply = s.config.use_freshness && Reply.has_freshness reply

  unfoldable pub check_freshness : ℕ → InitiatorSession → MaskedSetReply → Result SessionError Unit
  check_freshness now s reply =
      if uses_v2 s reply
      then (do
        check_nonce c.hex_encode s.nonce reply.initiator_nonce
        check_deadline now (deadline reply.issued_at reply.expires_at))
      else ok tt

  -- The responder's nonce is noted before the element count is checked.
  unfoldable pub note_nonce : InitiatorSession → MaskedSetReply → InitiatorSession
  note_nonce s reply =
      if uses_v2 s reply then record s { responder_nonce = reply.responder_nonce } else s

  unfoldable pub finish_reply :
      InitiatorSession → MaskedSetReply → Result SessionError PsiResult × InitiatorSession
  finish_reply s reply =
      let our_count = count_or_zero s.masked_elements in
      if not (length reply.initiator_doubly_masked == our_count)
      then (err (element_count_mismatch our_count (length reply.initiator_doubly_masked)), s)
      else (
        ok (
            compute_intersection reply.initiator_doubly_masked
              (apply_mask s.secret reply.responder_masked) s.original_ids s.mode),
        record s {
          our_doubly_masked = some reply.initiator_doubly_masked;
          responder_masked = some reply.responder_masked;
          state = complete;
        },
      )

  unfoldable pub process_reply :
      ℕ → MaskedSetReply → InitiatorSession → Result SessionError PsiResult × InitiatorSession
  unfolding is_state check_freshness note_nonce finish_reply
  process_reply now reply s =
      if not (is_state s.state awaiting_reply)
      then (err (invalid_state (ascii "AwaitingReply") (state_name s.state)), s)
      else if not (eqb reply.session_id s.session_id)
      then (err (session_id_mismatch s.session_id reply.session_id), s)
      else elim (check_freshness now s reply) [
        | err e ↦ (err e, s)
        | ok _ ↦ finish_reply (note_nonce s reply) reply
      ]

  -- `self.responder_nonce.unwrap_or_else(SessionNonce::generate)`
  abbrev pub or_generated : Option SessionNonce → SessionNonce → SessionNonce
  or_generated none fresh = fresh
  or_generated (some n) fresh = n

  unfoldable pub reveal_of :
      ℕ → SessionNonce → InitiatorSession → List MaskedElement → IntersectionReveal
  reveal_of now fresh s doubly_masked =
      if s.config.use_freshness
      then Reveal.new_v2 s.session_id doubly_masked s.nonce (or_generated s.responder_nonce fresh)
          (new_deadline now s.config.ttl_secs)
      else Reveal.new s.session_id doubly_masked

  unfoldable pub generate_reveal :
      ℕ → SessionNonce → InitiatorSession → Result SessionError IntersectionReveal
  unfolding is_state
  generate_reveal now fresh s =
      if not (is_state s.state complete)
      then err (invalid_state (ascii "Complete") (state_name s.state))
      else elim s.responder_masked [
        | none ↦ err (
            invalid_state (ascii "Complete with responder data")
              (ascii "missing responder masked elements"))
        | some masked ↦ ok (reveal_of now fresh s (apply_mask s.secret masked))
      ]
