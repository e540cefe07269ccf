-- ===== src/Session/Signed/Authentication.antt =====
-- What the signed handlers of crates/blindoverlap/src/session.rs establish about the sender.
use blind_overlap.Prelude.{
  ◌≡◌, refl, ℕ, true, false, Option, none, some, arith, Result, ok, err, ◌↔◌, ◌≢◌, subst,
}
use blind_overlap.Bytes.{eqb_of_ne}
use blind_overlap.Crypto.{Crypto}
use blind_overlap.Freshness.{SessionNonce}
use blind_overlap.Protocol.{PsiResult}
use blind_overlap.Identity
use blind_overlap.Identity.{PublicIdentity, PartyIdentity}
use blind_overlap.Wire.Message.{
  WireMessage, SignedWireMessage, WireCodec, signing_payload, verify_peer, sign,
}
use blind_overlap.Wire.Envelope.{verify_peer_iff}
use blind_overlap.Session.Common.{
  SessionError, missing_identity, identity_mismatch, ChannelBinding, SessionConfig, peer_error,
}
use blind_overlap.Session.Guards.{process_reply_ok, process_offer_ok, process_reveal_ok}
use blind_overlap.Wire.Offer.{MaskedSetOffer}
use blind_overlap.Wire.Reply.{MaskedSetReply}
use blind_overlap.Wire.Reveal.{IntersectionReveal}
use blind_overlap.Session.Initiator
use blind_overlap.Session.Initiator.{InitiatorSession, process_reply, finish_reply, note_nonce}
use blind_overlap.Session.Responder
use blind_overlap.Session.Responder.{
  ResponderSession, process_offer_and_reply, answer_offer, process_reveal, finish_reveal,
}
use blind_overlap.Session.Signed.{
  check_binding, note_initiator_peer, note_responder_peer, process_reply_message,
  process_reply_signed, sign_reply, process_offer_message, process_offer_and_reply_signed,
  process_reveal_message, process_reveal_signed,
}

module _ ⦃c : Crypto⦄ ⦃w : WireCodec⦄ where
  -- The message of the envelope is signed under the key of this peer.
  pub record IsFrom (peer : PublicIdentity) (signed : SignedWireMessage) : Type 0 where
    pub signer : signed.signer_pubkey ≡ peer
    pub authentic : Identity.verify peer (signing_payload signed.message) signed.signature ≡ ok tt

  -- The binding of a session, if it has one, holds of this envelope; without a binding the
  -- session does not require signatures.
  pub Admits : Option ChannelBinding → SessionConfig → SignedWireMessage → Type 0
  Admits none config signed = config.require_signatures ≡ false
  Admits (some binding) config signed = IsFrom binding.peer_pubkey signed

  pub check_binding_iff :
      (b : Option ChannelBinding) (config : SessionConfig) (signed : SignedWireMessage)
      → (check_binding b config signed ≡ ok tt) ↔ Admits b config signed
  unfolding check_binding Admits
  check_binding_iff none config signed = (λ h. ground arith, λ h. ground (arith, h))
  check_binding_iff (some binding) config signed =
      let law = verify_peer_iff signed binding.peer_pubkey in
      (
        λ h.
            let p : verify_peer signed binding.peer_pubkey ≡ ok tt = ground arith in
            let q = law.0 p in record { signer = q.0; authentic = q.1 },
        λ h. ground (arith, law.1 (h.signer, h.authentic)),
      )

  reply_message_ok :
      (now : ℕ) (m : WireMessage) (s s' : InitiatorSession) (result : PsiResult)
      → process_reply_message now m s ≡ (ok result, s')
      → ((reply : MaskedSetReply) × (m ≡ WireMessage.reply reply)
          × (reply.session_id ≡ s.session_id)
          × (process_reply now reply s ≡ (ok result, s')))
        × (s.state ≡ Initiator.awaiting_reply)
        × (s'.state ≡ Initiator.complete)
        × (s'.verified_peer ≡ s.verified_peer)
  unfolding process_reply_message note_nonce
  reply_message_ok now (WireMessage.reply m) s s' result e =
      let law = process_reply_ok now m s s' result e in
      ((m, refl, law.1, e), law.0, ground (arith, law.4), ground (arith, law.4))
  reply_message_ok now (WireMessage.offer m) s s' result e = ground (arith, e)
  reply_message_ok now (WireMessage.reveal m) s s' result e = ground (arith, e)
  reply_message_ok now (WireMessage.abort m) s s' result e = ground (arith, e)

  -- A signed reply is accepted only if the session's binding admits its envelope, its message is a
  -- reply and no message of another kind, of this session, and the session awaits one. The result is
  -- that of `process_reply` on this reply. The session is complete then, and where it has a binding it
  -- has noted the bound peer as verified.
  pub accepted_reply :
      (now : ℕ) (signed : SignedWireMessage) (s s' : InitiatorSession) (result : PsiResult)
      → process_reply_signed now signed s ≡ (ok result, s')
      → Admits s.channel_binding s.config signed
        × ((reply : MaskedSetReply) × (signed.message ≡ WireMessage.reply reply)
            × (reply.session_id ≡ s.session_id)
            × (process_reply now reply (note_initiator_peer signed s) ≡ (ok result, s')))
        × (s.state ≡ Initiator.awaiting_reply)
        × (s'.state ≡ Initiator.complete)
        × ((b : ChannelBinding)
            → s.channel_binding ≡ some b
            → s'.verified_peer ≡ some b.peer_pubkey)
  unfolding process_reply_signed note_initiator_peer Admits
  accepted_reply now signed s s' result e =
      let admitted = (check_binding_iff s.channel_binding s.config signed).0 (ground (arith, e)) in
      let step =
        reply_message_ok now signed.message (note_initiator_peer signed s) s' result
          (ground (arith, e)) in
      let (reply, is_reply, same, processed) = step.0 in
      (
        admitted,
        (reply, is_reply, ground (arith, same), processed),
        ground (arith, step.1),
        step.2,
        λ b h. ground (arith, step.3, h, noted b h admitted),
      )
    where
      noted :
          (b : ChannelBinding)
          → s.channel_binding ≡ some b
          → Admits s.channel_binding s.config signed
          → signed.signer_pubkey ≡ b.peer_pubkey
      noted b h a = (subst (λ x. Admits x s.config signed) h a).signer

  signed_reply_ok :
      (party : PartyIdentity) (x : Result SessionError MaskedSetReply × ResponderSession)
      (s' : ResponderSession) (result : SignedWireMessage)
      → ◌≡◌ {A = Result SessionError SignedWireMessage × ResponderSession}
          (sign_reply party x.0, x.1)
          (ok result, s')
      → (r : MaskedSetReply) × (x ≡ (ok r, s')) × (result ≡ sign (WireMessage.reply r) party)
  unfolding sign_reply
  signed_reply_ok party (ok r, t) s' result e = (r, ground (arith, e), ground (arith, e))
  signed_reply_ok party (err f, t) s' result e = ground (arith, e)

  offer_message_ok :
      (now later : ℕ) (fresh : SessionNonce) (party : PartyIdentity) (m : WireMessage)
      (s s' : ResponderSession) (result : SignedWireMessage)
      → process_offer_message now later fresh party m s ≡ (ok result, s')
      → ((offer : MaskedSetOffer) × (r : MaskedSetReply) × (m ≡ WireMessage.offer offer)
          × (offer.session_id ≡ s.session_id)
          × (process_offer_and_reply now later fresh offer s ≡ (ok r, s'))
          × (result ≡ sign (WireMessage.reply r) party))
        × (s.state ≡ Responder.created)
        × (s'.state ≡ Responder.reply_sent)
        × (s'.verified_peer ≡ s.verified_peer)
  unfolding process_offer_message answer_offer
  offer_message_ok now later fresh party (WireMessage.offer m) s s' result e =
      let (r, eq, is_signed) =
        signed_reply_ok party (process_offer_and_reply now later fresh m s) s' result e in
      let law = process_offer_ok now later fresh m s s' r eq in
      ((m, r, refl, law.1, eq, is_signed), law.0, ground (arith, law.3), ground (arith, law.3))
  offer_message_ok now later fresh party (WireMessage.reply m) s s' result e = ground (arith, e)
  offer_message_ok now later fresh party (WireMessage.reveal m) s s' result e = ground (arith, e)
  offer_message_ok now later fresh party (WireMessage.abort m) s s' result e = ground (arith, e)

  -- A signed offer is answered only if the session's binding admits its envelope, its message is an
  -- offer and no message of another kind, of this session, and the session is new. The answer is the
  -- reply of `process_offer_and_reply` to this offer, signed by the party; the session has sent its
  -- reply then, and where it has a binding it has noted the bound peer as verified.
  pub accepted_offer :
      (now later : ℕ) (fresh : SessionNonce) (signed : SignedWireMessage) (party : PartyIdentity)
      (s s' : ResponderSession) (result : SignedWireMessage)
      → process_offer_and_reply_signed now later fresh signed party s ≡ (ok result, s')
      → Admits s.channel_binding s.config signed
        × ((offer : MaskedSetOffer) × (r : MaskedSetReply) × (signed.message
              ≡ WireMessage.offer offer)
            × (offer.session_id ≡ s.session_id)
            × (process_offer_and_reply now later fresh offer (note_responder_peer signed s)
                ≡ (ok r, s'))
            × (result ≡ sign (WireMessage.reply r) party))
        × (s.state ≡ Responder.created)
        × (s'.state ≡ Responder.reply_sent)
        × ((b : ChannelBinding)
            → s.channel_binding ≡ some b
            → s'.verified_peer ≡ some b.peer_pubkey)
  unfolding process_offer_and_reply_signed note_responder_peer Admits
  accepted_offer now later fresh signed party s s' result e =
      let admitted = (check_binding_iff s.channel_binding s.config signed).0 (ground (arith, e)) in
      let step =
        offer_message_ok now later fresh party signed.message (note_responder_peer signed s) s'
          result (ground (arith, e)) in
      let (offer, r, is_offer, same, processed, is_signed) = step.0 in
      (
        admitted,
        (offer, r, is_offer, ground (arith, same), processed, is_signed),
        ground (arith, step.1),
        step.2,
        λ b h. ground (arith, step.3, h, (subst (λ x. Admits x s.config signed) h admitted).signer),
      )

  reveal_message_ok :
      (now : ℕ) (m : WireMessage) (s s' : ResponderSession) (result : PsiResult)
      → process_reveal_message now m s ≡ (ok result, s')
      → ((reveal : IntersectionReveal) × (m ≡ WireMessage.reveal reveal)
          × (reveal.session_id ≡ s.session_id)
          × (process_reveal now reveal s ≡ (ok result, s')))
        × (s.state ≡ Responder.reply_sent)
        × (s' ≡ record s { state = Responder.complete })
  unfolding process_reveal_message
  reveal_message_ok now (WireMessage.reveal m) s s' result e =
      let law = process_reveal_ok now m s s' result e in ((m, refl, law.1, e), law.0, law.4)
  reveal_message_ok now (WireMessage.reply m) s s' result e = ground (arith, e)
  reveal_message_ok now (WireMessage.offer m) s s' result e = ground (arith, e)
  reveal_message_ok now (WireMessage.abort m) s s' result e = ground (arith, e)

  -- A signed reveal is accepted only if the session's binding admits its envelope, its message is a
  -- reveal and no message of another kind, of this session, and the session has sent its reply. The
  -- result is that of `process_reveal` on this reveal. Nothing but the state changes: this handler
  -- does not note the signer.
  pub accepted_reveal :
      (now : ℕ) (signed : SignedWireMessage) (s s' : ResponderSession) (result : PsiResult)
      → process_reveal_signed now signed s ≡ (ok result, s')
      → Admits s.channel_binding s.config signed
        × ((reveal : IntersectionReveal) × (signed.message ≡ WireMessage.reveal reveal)
            × (reveal.session_id ≡ s.session_id)
            × (process_reveal now reveal s ≡ (ok result, s')))
        × (s.state ≡ Responder.reply_sent)
        × (s' ≡ record s { state = Responder.complete })
  unfolding process_reveal_signed
  accepted_reveal now signed s s' result e =
      let step = reveal_message_ok now signed.message s s' result (ground (arith, e)) in
      (
        (check_binding_iff s.channel_binding s.config signed).0 (ground (arith, e)),
        step.0,
        step.1,
        step.2,
      )

  -- Without a binding, a session that requires signatures refuses every signed message, and with
  -- one a message of another signer: the error says so, and the session stays as it was.
  pub unauthenticated_is_refused :
      (now later : ℕ) (fresh : SessionNonce) (party : PartyIdentity) (signed : SignedWireMessage)
      (i : InitiatorSession) (r : ResponderSession)
      → (i.channel_binding ≡ none
          → i.config.require_signatures ≡ true
          → process_reply_signed now signed i ≡ (err missing_identity, i))
        × (r.channel_binding ≡ none
            → r.config.require_signatures ≡ true
            → (process_offer_and_reply_signed now later fresh signed party r
                ≡ (err missing_identity, r))
              × (process_reveal_signed now signed r ≡ (err missing_identity, r)))
        × ((b : ChannelBinding)
            → signed.signer_pubkey ≢ b.peer_pubkey
            → let refused =
                identity_mismatch
                  (c.hex_encode b.peer_pubkey)
                  (c.hex_encode signed.signer_pubkey) in
              (i.channel_binding ≡ some b → process_reply_signed now signed i ≡ (err refused, i))
              × (r.channel_binding ≡ some b
                  → (process_offer_and_reply_signed now later fresh signed party r
                      ≡ (err refused, r))
                    × (process_reveal_signed now signed r ≡ (err refused, r))))
  unfolding process_reply_signed process_offer_and_reply_signed process_reveal_signed check_binding
      verify_peer peer_error
  unauthenticated_is_refused now later fresh party signed i r = (
    λ h k. ground (arith, h, k),
    λ h k. (ground (arith, h, k), ground (arith, h, k)),
    λ b ne.
        let no = eqb_of_ne signed.signer_pubkey b.peer_pubkey ne in
        (λ h. ground (arith, h, no), λ h. (ground (arith, h, no), ground (arith, h, no))),
  )
