-- ===== src/Session/Lifecycle/InitiatorSteps.antt =====
-- The invariant of an initiator's session, which every call keeps.
use blind_overlap.Prelude.{
  ℕ, ◌≤◌, ◌≡◌, refl, sym, subst, some, List, map, arith, Result, ok, err, inl, inr,
}
use blind_overlap.Crypto.{Crypto}
use blind_overlap.Protocol.{MaskedElement, PsiResult, mask}
use blind_overlap.Wire.Message.{WireMessage, SignedWireMessage, WireCodec}
use blind_overlap.Wire.Offer.{MaskedSetOffer}
use blind_overlap.Wire.Reply.{MaskedSetReply}
use blind_overlap.Session.Common.{SessionError}
use blind_overlap.Session.Initiator
use blind_overlap.Session.Initiator.{
  InitiatorState, InitiatorSession, Drawn, initial, generate_offer, note_nonce, process_reply,
  check_freshness, finish_reply, generate_reveal, reveal_of,
}
use blind_overlap.Session.Signed.{
  check_binding, note_initiator_peer, process_reply_message, process_reply_signed,
  generate_offer_signed,
}
use blind_overlap.Session.Guards.{generate_offer_ok, process_reply_ok, failure_keeps_initiator}
use blind_overlap.Session.Lifecycle.{
  InitiatorStep, offers, offers_signed, is_replied, is_replied_signed,
}

-- How far a state is along the protocol.
unfoldable pub rank : InitiatorState → ℕ
rank Initiator.created = 0
rank Initiator.awaiting_reply = 1
rank Initiator.complete = 2

module _ ⦃c : Crypto⦄ ⦃w : WireCodec⦄ where
  -- Against the session it started as: secret, identifiers, identifier and mode are those of the
  -- start, the masks are there once the offer was made, and the
  -- responder's once the session is complete.
  pub record IsConsistent (start s : InitiatorSession) : Type 0 where
    pub same_id : s.session_id ≡ start.session_id
    pub same_secret : s.secret ≡ start.secret
    pub same_ids : s.original_ids ≡ start.original_ids
    pub same_mode : s.mode ≡ start.mode
    pub masked :
        1 ≤ rank s.state → s.masked_elements ≡ some (map (mask start.secret) start.original_ids)
    pub answered : 2 ≤ rank s.state → (m : List MaskedElement) × (s.responder_masked ≡ some m)

  offer-keeps :
      (start s : InitiatorSession) (x : Result SessionError MaskedSetOffer × InitiatorSession)
      → generate_offer s ≡ x
      → IsConsistent start s
      → IsConsistent start x.1
  unfolding rank generate_offer
  offer-keeps start s (ok o, s') e inv =
      let law = generate_offer_ok s s' o e in
      record {
        same_id = ground (arith, law.1, inv.same_id);
        same_secret = ground (arith, law.1, inv.same_secret);
        same_ids = ground (arith, law.1, inv.same_ids);
        same_mode = ground (arith, law.1, inv.same_mode);
        masked = λ h. ground (arith, law.1, inv.same_secret, inv.same_ids);
        answered = λ h. ground (arith, law.1, h);
      }
  offer-keeps start s (err f, s') e inv =
      let same : s ≡ s' = ground (arith, e) in subst (IsConsistent start) same inv

  note_nonce-keeps :
      (start s : InitiatorSession) (m : MaskedSetReply)
      → IsConsistent start s
      → IsConsistent start (note_nonce s m)
  unfolding note_nonce
  note_nonce-keeps start s m inv = record {
    same_id = ground (arith, inv.same_id);
    same_secret = ground (arith, inv.same_secret);
    same_ids = ground (arith, inv.same_ids);
    same_mode = ground (arith, inv.same_mode);
    masked = λ h. ground (arith, inv.masked, h);
    answered = λ h.
        let same_state : (note_nonce s m).state ≡ s.state = ground arith in
        let got = inv.answered (subst (λ x. 2 ≤ rank x) same_state h) in
        (got.0, ground (arith, got.1));
  }

  reply-keeps :
      (start s : InitiatorSession) (now : ℕ) (m : MaskedSetReply)
      (x : Result SessionError PsiResult × InitiatorSession)
      → process_reply now m s ≡ x
      → IsConsistent start s
      → IsConsistent start x.1
  unfolding rank
  reply-keeps start s now m (ok r, s') e inv =
      let law = process_reply_ok now m s s' r e in
      let noted = note_nonce-keeps start s m inv in
      let awaiting : 1 ≤ rank (note_nonce s m).state = unfold note_nonce in ground (arith, law.0) in
      record {
        same_id = ground (arith, law.4, noted.same_id);
        same_secret = ground (arith, law.4, noted.same_secret);
        same_ids = ground (arith, law.4, noted.same_ids);
        same_mode = ground (arith, law.4, noted.same_mode);
        masked = λ h. ground (arith, law.4, noted.masked awaiting);
        answered = λ h. (m.responder_masked, ground (arith, law.4));
      }
  reply-keeps start s now m (err f, s') e inv = elim (failure_keeps_initiator now m s s' f e) [
    | inl p ↦ subst (IsConsistent start) (sym p) inv
    | inr p ↦ subst (IsConsistent start) (sym p.0) (note_nonce-keeps start s m inv)
  ]

  pub note_peer-keeps :
      (start s : InitiatorSession) (signed : SignedWireMessage)
      → IsConsistent start s
      → IsConsistent start (note_initiator_peer signed s)
  unfolding note_initiator_peer
  note_peer-keeps start s signed inv = record {
    same_id = ground (arith, inv.same_id);
    same_secret = ground (arith, inv.same_secret);
    same_ids = ground (arith, inv.same_ids);
    same_mode = ground (arith, inv.same_mode);
    masked = λ h. ground (arith, inv.masked, h);
    answered = λ h.
        let same_state : (note_initiator_peer signed s).state ≡ s.state = ground arith in
        let got = inv.answered (subst (λ x. 2 ≤ rank x) same_state h) in
        (got.0, ground (arith, got.1));
  }

  message-keeps :
      (start s : InitiatorSession) (now : ℕ) (m : WireMessage)
      → IsConsistent start s
      → IsConsistent start (process_reply_message now m s).1
  unfolding process_reply_message
  message-keeps start s now (WireMessage.reply m) inv =
      reply-keeps start s now m (process_reply now m s) refl inv
  message-keeps start s now (WireMessage.offer m) inv = inv
  message-keeps start s now (WireMessage.reveal m) inv = inv
  message-keeps start s now (WireMessage.abort m) inv = inv

  signed_reply-keeps :
      (start s : InitiatorSession) (now : ℕ) (signed : SignedWireMessage)
      (x : Result SessionError Unit)
      → check_binding s.channel_binding s.config signed ≡ x
      → IsConsistent start s
      → IsConsistent start (process_reply_signed now signed s).1
  unfolding process_reply_signed
  signed_reply-keeps start s now signed (ok _) e inv =
      let same : (process_reply_message now signed.message (note_initiator_peer signed s)).1
          ≡ (process_reply_signed now signed s).1 =
        ground (arith, e) in
      subst (IsConsistent start) same (
        message-keeps start (note_initiator_peer signed s) now signed.message
          (note_peer-keeps start s signed inv))
  signed_reply-keeps start s now signed (err f) e inv =
      let same : s ≡ (process_reply_signed now signed s).1 = ground (arith, e) in
      subst (IsConsistent start) same inv

  pub step-keeps :
      (start s s' : InitiatorSession)
      → InitiatorStep s s'
      → IsConsistent start s
      → IsConsistent start s'
  unfolding generate_offer_signed
  step-keeps start s _ (offers _) inv = offer-keeps start s (generate_offer s) refl inv
  step-keeps start s _ (offers_signed party _) inv = offer-keeps start s (generate_offer s) refl inv
  step-keeps start s _ (is_replied now m _) inv =
      reply-keeps start s now m (process_reply now m s) refl inv
  step-keeps start s _ (is_replied_signed now m _) inv =
      signed_reply-keeps start s now m (check_binding s.channel_binding s.config m) refl inv
