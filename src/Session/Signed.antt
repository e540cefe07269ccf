-- ===== src/Session/Signed.antt =====
-- The signed handlers of both sessions of crates/blindoverlap/src/session.rs.
pub mod Authentication
use blind_overlap.Prelude.{ℕ, Bool, true, false, Option, none, some, if◌then◌else◌, Result, ok, err}
use blind_overlap.Bytes.{ascii}
use blind_overlap.Crypto.{Crypto}
use blind_overlap.Freshness.{SessionNonce}
use blind_overlap.Protocol.{PsiResult}
use blind_overlap.Identity.{PartyIdentity}
use blind_overlap.Wire.Reply.{MaskedSetReply}
use blind_overlap.Wire.Message
use blind_overlap.Wire.Message.{WireMessage, SignedWireMessage, WireCodec, sign, verify_peer}
use blind_overlap.Session.Common.{
  SessionError, missing_identity, invalid_state, ChannelBinding, SessionConfig, peer_error,
}
use blind_overlap.Session.Initiator.{
  InitiatorSession, generate_offer, process_reply, generate_reveal,
}
use blind_overlap.Session.Responder.{ResponderSession, process_offer_and_reply, process_reveal}

module _ ⦃c : Crypto⦄ ⦃w : WireCodec⦄ where
  -- The test that each signed handler starts with.
  unfoldable pub check_binding :
      Option ChannelBinding → SessionConfig → SignedWireMessage → Result SessionError Unit
  check_binding none config signed =
      if config.require_signatures then err missing_identity else ok tt
  check_binding (some binding) config signed = elim (verify_peer signed binding.peer_pubkey) [
    | ok _ ↦ ok tt
    | err e ↦ err (peer_error e)
  ]

  unfoldable pub generate_offer_signed :
      PartyIdentity → InitiatorSession → Result SessionError SignedWireMessage × InitiatorSession
  generate_offer_signed party s =
      let (offered, s') = generate_offer s in
      (elim offered [ ok offer ↦ ok (sign (WireMessage.offer offer) party) | err e ↦ err e ], s')

  -- `self.verified_peer = Some(signed_reply.signer_pubkey)`, where the session has a binding.
  unfoldable pub note_initiator_peer : SignedWireMessage → InitiatorSession → InitiatorSession
  note_initiator_peer signed s = elim s.channel_binding [
    | none ↦ s
    | some _ ↦ record s { verified_peer = some signed.signer_pubkey }
  ]

  unfoldable pub note_responder_peer : SignedWireMessage → ResponderSession → ResponderSession
  note_responder_peer signed s = elim s.channel_binding [
    | none ↦ s
    | some _ ↦ record s { verified_peer = some signed.signer_pubkey }
  ]

  -- The message is looked at after the signature; `now` is read by `process_reply`.
  unfoldable pub process_reply_message :
      ℕ → WireMessage → InitiatorSession → Result SessionError PsiResult × InitiatorSession
  process_reply_message now (WireMessage.reply m) s = process_reply now m s
  process_reply_message now _ s =
      (err (invalid_state (ascii "Reply message") (ascii "non-reply message type")), s)

  unfoldable pub process_reply_signed :
      ℕ → SignedWireMessage → InitiatorSession → Result SessionError PsiResult × InitiatorSession
  unfolding check_binding note_initiator_peer process_reply_message
  process_reply_signed now signed s = elim (check_binding s.channel_binding s.config signed) [
    | err e ↦ (err e, s)
    | ok _ ↦ process_reply_message now signed.message (note_initiator_peer signed s)
  ]

  unfoldable pub generate_reveal_signed :
      ℕ → SessionNonce → PartyIdentity → InitiatorSession → Result SessionError SignedWireMessage
  generate_reveal_signed now fresh party s = elim (generate_reveal now fresh s) [
    | ok reveal ↦ ok (sign (WireMessage.reveal reveal) party)
    | err e ↦ err e
  ]

  unfoldable pub sign_reply :
      PartyIdentity → Result SessionError MaskedSetReply → Result SessionError SignedWireMessage
  sign_reply party (ok reply) = ok (sign (WireMessage.reply reply) party)
  sign_reply party (err e) = err e

  unfoldable pub process_offer_message :
      (now later : ℕ)
      → SessionNonce
      → PartyIdentity
      → WireMessage
      → ResponderSession
      → Result SessionError SignedWireMessage × ResponderSession
  process_offer_message now later fresh party (WireMessage.offer m) s =
      let (replied, s') = process_offer_and_reply now later fresh m s in
      (sign_reply party replied, s')
  process_offer_message now later fresh party _ s =
      (err (invalid_state (ascii "Offer message") (ascii "non-offer message type")), s)

  unfoldable pub process_offer_and_reply_signed :
      (now later : ℕ)
      → SessionNonce
      → SignedWireMessage
      → PartyIdentity
      → ResponderSession
      → Result SessionError SignedWireMessage × ResponderSession
  unfolding check_binding note_responder_peer process_offer_message
  process_offer_and_reply_signed now later fresh signed party s =
      elim (check_binding s.channel_binding s.config signed) [
        | err e ↦ (err e, s)
        | ok _ ↦
            process_offer_message now later fresh party signed.message
              (note_responder_peer signed s)
      ]

  unfoldable pub process_reveal_message :
      ℕ → WireMessage → ResponderSession → Result SessionError PsiResult × ResponderSession
  process_reveal_message now (WireMessage.reveal m) s = process_reveal now m s
  process_reveal_message now _ s =
      (err (invalid_state (ascii "Reveal message") (ascii "non-reveal message type")), s)

  -- This handler does not note the peer.
  unfoldable pub process_reveal_signed :
      ℕ → SignedWireMessage → ResponderSession → Result SessionError PsiResult × ResponderSession
  unfolding check_binding process_reveal_message
  process_reveal_signed now signed s = elim (check_binding s.channel_binding s.config signed) [
    | err e ↦ (err e, s)
    | ok _ ↦ process_reveal_message now signed.message s
  ]
