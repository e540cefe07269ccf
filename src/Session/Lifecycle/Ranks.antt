-- ===== src/Session/Lifecycle/Ranks.antt =====
-- No call takes a session of crates/blindoverlap/src/session.rs back to an earlier state.
use blind_overlap.Prelude.{ℕ, ◌≤◌, ◌≡◌, refl, arith, Result, ok, err, inl, inr}
use blind_overlap.Crypto.{Crypto}
use blind_overlap.Freshness.{SessionNonce}
use blind_overlap.Identity.{PartyIdentity}
use blind_overlap.Protocol.{PsiResult}
use blind_overlap.Wire.Message.{WireMessage, SignedWireMessage, WireCodec}
use blind_overlap.Wire.Offer.{MaskedSetOffer}
use blind_overlap.Wire.Reply.{MaskedSetReply}
use blind_overlap.Wire.Reveal.{IntersectionReveal}
use blind_overlap.Session.Common.{SessionError}
use blind_overlap.Session.Initiator.{InitiatorSession, generate_offer, note_nonce, process_reply}
use blind_overlap.Session.Responder.{
  ResponderSession, answer_offer, process_offer_and_reply, process_reveal,
}
use blind_overlap.Session.Signed.{
  check_binding, note_initiator_peer, note_responder_peer, process_reply_message,
  process_reply_signed, generate_offer_signed, process_offer_message,
  process_offer_and_reply_signed, process_reveal_message, process_reveal_signed,
}
use blind_overlap.Session.Guards.{
  generate_offer_ok, process_reply_ok, failure_keeps_initiator, process_offer_ok, process_reveal_ok,
  offer_failure_keeps, reveal_failure_keeps,
}
use blind_overlap.Session.Lifecycle.{
  InitiatorStep, offers, offers_signed, is_replied, is_replied_signed, ResponderStep, is_offered,
  is_offered_signed, is_revealed, is_revealed_signed,
}
use blind_overlap.Session.Lifecycle.InitiatorSteps.{rank}
use blind_overlap.Session.Lifecycle.ResponderSteps.{responder_rank}

module _ ⦃c : Crypto⦄ ⦃w : WireCodec⦄ where
  offer_rises :
      (s : InitiatorSession) (x : Result SessionError MaskedSetOffer × InitiatorSession)
      → generate_offer s ≡ x
      → rank s.state ≤ rank x.1.state
  unfolding generate_offer rank
  offer_rises s (ok o, s') e = let law = generate_offer_ok s s' o e in ground (arith, law.0, law.1)
  offer_rises s (err f, s') e = let same : s ≡ s' = ground (arith, e) in ground (arith, same)

  reply_rises :
      (s : InitiatorSession) (now : ℕ) (m : MaskedSetReply)
      (x : Result SessionError PsiResult × InitiatorSession)
      → process_reply now m s ≡ x
      → rank s.state ≤ rank x.1.state
  unfolding note_nonce rank
  reply_rises s now m (ok r, s') e =
      let law = process_reply_ok now m s s' r e in ground (arith, law.0, law.4)
  reply_rises s now m (err f, s') e = elim (failure_keeps_initiator now m s s' f e) [
    | inl p ↦ ground (arith, p)
    | inr p ↦ let same : s'.state ≡ s.state = ground (arith, p.0) in ground (arith, same)
  ]

  reply_message_rises :
      (s : InitiatorSession) (now : ℕ) (m : WireMessage)
      → rank s.state ≤ rank (process_reply_message now m s).1.state
  unfolding process_reply_message
  reply_message_rises s now (WireMessage.reply m) = reply_rises s now m (process_reply now m s) refl
  reply_message_rises s now (WireMessage.offer m) = omega arith
  reply_message_rises s now (WireMessage.reveal m) = omega arith
  reply_message_rises s now (WireMessage.abort m) = omega arith

  signed_reply_rises :
      (s : InitiatorSession) (now : ℕ) (signed : SignedWireMessage) (x : Result SessionError Unit)
      → check_binding s.channel_binding s.config signed ≡ x
      → rank s.state ≤ rank (process_reply_signed now signed s).1.state
  unfolding process_reply_signed note_initiator_peer
  signed_reply_rises s now signed (ok _) e =
      let same : (note_initiator_peer signed s).state ≡ s.state = ground arith in
      let more = reply_message_rises (note_initiator_peer signed s) now signed.message in
      ground (arith, e, same, more)
  signed_reply_rises s now signed (err f) e = ground (arith, e)

  -- The state of an initiator's session never goes back.
  pub initiator_rises :
      (s s' : InitiatorSession) → InitiatorStep s s' → rank s.state ≤ rank s'.state
  unfolding generate_offer_signed
  initiator_rises s _ (offers _) = offer_rises s (generate_offer s) refl
  initiator_rises s _ (offers_signed party _) = offer_rises s (generate_offer s) refl
  initiator_rises s _ (is_replied now m _) = reply_rises s now m (process_reply now m s) refl
  initiator_rises s _ (is_replied_signed now m _) =
      signed_reply_rises s now m (check_binding s.channel_binding s.config m) refl

  answer_rises :
      (s : ResponderSession) (now later : ℕ) (fresh : SessionNonce) (m : MaskedSetOffer)
      (x : Result SessionError MaskedSetReply × ResponderSession)
      → process_offer_and_reply now later fresh m s ≡ x
      → responder_rank s.state ≤ responder_rank x.1.state
  unfolding answer_offer responder_rank
  answer_rises s now later fresh m (ok r, s') e =
      let law = process_offer_ok now later fresh m s s' r e in ground (arith, law.0, law.3)
  answer_rises s now later fresh m (err f, s') e =
      ground (arith, offer_failure_keeps now later fresh m s s' f e)

  reveal_rises :
      (s : ResponderSession) (now : ℕ) (m : IntersectionReveal)
      (x : Result SessionError PsiResult × ResponderSession)
      → process_reveal now m s ≡ x
      → responder_rank s.state ≤ responder_rank x.1.state
  unfolding responder_rank
  reveal_rises s now m (ok r, s') e =
      let law = process_reveal_ok now m s s' r e in ground (arith, law.0, law.4)
  reveal_rises s now m (err f, s') e = ground (arith, reveal_failure_keeps now m s s' f e)

  offer_message_rises :
      (s : ResponderSession) (now later : ℕ) (fresh : SessionNonce) (party : PartyIdentity)
      (m : WireMessage)
      → responder_rank s.state
        ≤ responder_rank (process_offer_message now later fresh party m s).1.state
  unfolding process_offer_message
  offer_message_rises s now later fresh party (WireMessage.offer m) =
      answer_rises s now later fresh m (process_offer_and_reply now later fresh m s) refl
  offer_message_rises s now later fresh party (WireMessage.reply m) = omega arith
  offer_message_rises s now later fresh party (WireMessage.reveal m) = omega arith
  offer_message_rises s now later fresh party (WireMessage.abort m) = omega arith

  reveal_message_rises :
      (s : ResponderSession) (now : ℕ) (m : WireMessage)
      → responder_rank s.state ≤ responder_rank (process_reveal_message now m s).1.state
  unfolding process_reveal_message
  reveal_message_rises s now (WireMessage.reveal m) =
      reveal_rises s now m (process_reveal now m s) refl
  reveal_message_rises s now (WireMessage.reply m) = omega arith
  reveal_message_rises s now (WireMessage.offer m) = omega arith
  reveal_message_rises s now (WireMessage.abort m) = omega arith

  signed_answer_rises :
      (s : ResponderSession) (now later : ℕ) (fresh : SessionNonce) (signed : SignedWireMessage)
      (party : PartyIdentity) (x : Result SessionError Unit)
      → check_binding s.channel_binding s.config signed ≡ x
      → responder_rank s.state
        ≤ responder_rank (process_offer_and_reply_signed now later fresh signed party s).1.state
  unfolding process_offer_and_reply_signed note_responder_peer
  signed_answer_rises s now later fresh signed party (ok _) e =
      let t = note_responder_peer signed s in
      let same : t.state ≡ s.state = ground arith in
      ground (arith, e, same, offer_message_rises t now later fresh party signed.message)
  signed_answer_rises s now later fresh signed party (err f) e = ground (arith, e)

  signed_reveal_rises :
      (s : ResponderSession) (now : ℕ) (signed : SignedWireMessage) (x : Result SessionError Unit)
      → check_binding s.channel_binding s.config signed ≡ x
      → responder_rank s.state ≤ responder_rank (process_reveal_signed now signed s).1.state
  unfolding process_reveal_signed
  signed_reveal_rises s now signed (ok _) e =
      ground (arith, e, reveal_message_rises s now signed.message)
  signed_reveal_rises s now signed (err f) e = ground (arith, e)

  -- The state of a responder's session never goes back.
  pub responder_rises :
      (s s' : ResponderSession)
      → ResponderStep s s'
      → responder_rank s.state ≤ responder_rank s'.state
  responder_rises s _ (is_offered now later fresh m _) =
      answer_rises s now later fresh m (process_offer_and_reply now later fresh m s) refl
  responder_rises s _ (is_offered_signed now later fresh m party _) =
      signed_answer_rises s now later fresh m party (check_binding s.channel_binding s.config m)
        refl
  responder_rises s _ (is_revealed now m _) = reveal_rises s now m (process_reveal now m s) refl
  responder_rises s _ (is_revealed_signed now m _) =
      signed_reveal_rises s now m (check_binding s.channel_binding s.config m) refl
