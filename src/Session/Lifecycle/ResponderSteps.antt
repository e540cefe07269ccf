-- ===== src/Session/Lifecycle/ResponderSteps.antt =====
-- The invariant of a responder's session, which every call keeps.
use blind_overlap.Prelude.{ℕ, ◌≤◌, ◌≡◌, refl, sym, subst, some, List, map, arith, Result, ok, err}
use blind_overlap.Crypto.{Crypto}
use blind_overlap.Freshness.{SessionNonce}
use blind_overlap.Identity.{PartyIdentity}
use blind_overlap.Protocol.{MaskedElement, PsiResult, mask, apply_mask}
use blind_overlap.Wire.Message.{WireMessage, SignedWireMessage, WireCodec}
use blind_overlap.Wire.Offer.{MaskedSetOffer}
use blind_overlap.Wire.Reply.{MaskedSetReply}
use blind_overlap.Wire.Reveal.{IntersectionReveal}
use blind_overlap.Session.Common.{SessionError}
use blind_overlap.Session.Responder
use blind_overlap.Session.Responder.{
  ResponderState, ResponderSession, initial, answer_offer, process_offer_and_reply, process_reveal,
  finish_reveal, check_reveal_freshness,
}
use blind_overlap.Session.Signed.{
  check_binding, note_responder_peer, process_offer_message, process_offer_and_reply_signed,
  process_reveal_message, process_reveal_signed,
}
use blind_overlap.Session.Guards.{
  process_offer_ok, process_reveal_ok, offer_failure_keeps, reveal_failure_keeps,
}
use blind_overlap.Session.Lifecycle.{
  ResponderStep, is_offered, is_offered_signed, is_revealed, is_revealed_signed,
}

-- How far a state is along the protocol.
unfoldable pub responder_rank : ResponderState → ℕ
responder_rank Responder.created = 0
responder_rank Responder.reply_sent = 1
responder_rank Responder.complete = 2

module _ ⦃c : Crypto⦄ ⦃w : WireCodec⦄ where
  -- Against the session it started as: identifier, secret, identifiers and mode are those of the
  -- start, and past the offer the session's own masks and the initiator's are there.
  pub record IsConsistent (start s : ResponderSession) : Type 0 where
    pub same_id : s.session_id ≡ start.session_id
    pub same_secret : s.secret ≡ start.secret
    pub same_ids : s.original_ids ≡ start.original_ids
    pub same_mode : s.mode ≡ start.mode
    pub masked :
        1 ≤ responder_rank s.state
        → s.masked_elements ≡ some (map (mask start.secret) start.original_ids)
    pub answered :
        1 ≤ responder_rank s.state → (m : List MaskedElement) × (s.initiator_doubly_masked ≡ some m)

  offer-keeps :
      (start s : ResponderSession) (now later : ℕ) (fresh : SessionNonce) (m : MaskedSetOffer)
      (x : Result SessionError MaskedSetReply × ResponderSession)
      → process_offer_and_reply now later fresh m s ≡ x
      → IsConsistent start s
      → IsConsistent start x.1
  unfolding answer_offer
  offer-keeps start s now later fresh m (ok r, s') e inv =
      let law = (process_offer_ok now later fresh m s s' r e).3 in
      record {
        same_id = ground (arith, law, inv.same_id);
        same_secret = ground (arith, law, inv.same_secret);
        same_ids = ground (arith, law, inv.same_ids);
        same_mode = ground (arith, law, inv.same_mode);
        masked = λ h. ground (arith, law, inv.same_secret, inv.same_ids);
        answered = λ h. (apply_mask s.secret m.masked_elements, ground (arith, law));
      }
  offer-keeps start s now later fresh m (err f, s') e inv =
      subst (IsConsistent start) (sym (offer_failure_keeps now later fresh m s s' f e)) inv

  reveal-keeps :
      (start s : ResponderSession) (now : ℕ) (m : IntersectionReveal)
      (x : Result SessionError PsiResult × ResponderSession)
      → process_reveal now m s ≡ x
      → IsConsistent start s
      → IsConsistent start x.1
  unfolding responder_rank
  reveal-keeps start s now m (ok r, s') e inv =
      let law = process_reveal_ok now m s s' r e in
      let sent : 1 ≤ responder_rank s.state = ground (arith, law.0) in
      let got = inv.answered sent in
      record {
        same_id = ground (arith, law.4, inv.same_id);
        same_secret = ground (arith, law.4, inv.same_secret);
        same_ids = ground (arith, law.4, inv.same_ids);
        same_mode = ground (arith, law.4, inv.same_mode);
        masked = λ h. ground (arith, law.4, inv.masked sent);
        answered = λ h. (got.0, ground (arith, law.4, got.1));
      }
  reveal-keeps start s now m (err f, s') e inv =
      subst (IsConsistent start) (sym (reveal_failure_keeps now m s s' f e)) inv

  pub note_peer-keeps :
      (start s : ResponderSession) (signed : SignedWireMessage)
      → IsConsistent start s
      → IsConsistent start (note_responder_peer signed s)
  unfolding note_responder_peer
  note_peer-keeps start s signed inv =
      let same_state : (note_responder_peer signed s).state ≡ s.state = ground arith in
      record {
        same_id = ground (arith, inv.same_id);
        same_secret = ground (arith, inv.same_secret);
        same_ids = ground (arith, inv.same_ids);
        same_mode = ground (arith, inv.same_mode);
        masked = λ h. ground (arith, inv.masked, h);
        answered = λ h.
            let got = inv.answered (subst (λ x. 1 ≤ responder_rank x) same_state h) in
            (got.0, ground (arith, got.1));
      }

  offer_message-keeps :
      (start s : ResponderSession) (now later : ℕ) (fresh : SessionNonce) (party : PartyIdentity)
      (m : WireMessage)
      → IsConsistent start s
      → IsConsistent start (process_offer_message now later fresh party m s).1
  unfolding process_offer_message
  offer_message-keeps start s now later fresh party (WireMessage.offer m) inv =
      offer-keeps start s now later fresh m (process_offer_and_reply now later fresh m s) refl inv
  offer_message-keeps start s now later fresh party (WireMessage.reply m) inv = inv
  offer_message-keeps start s now later fresh party (WireMessage.reveal m) inv = inv
  offer_message-keeps start s now later fresh party (WireMessage.abort m) inv = inv

  reveal_message-keeps :
      (start s : ResponderSession) (now : ℕ) (m : WireMessage)
      → IsConsistent start s
      → IsConsistent start (process_reveal_message now m s).1
  unfolding process_reveal_message
  reveal_message-keeps start s now (WireMessage.reveal m) inv =
      reveal-keeps start s now m (process_reveal now m s) refl inv
  reveal_message-keeps start s now (WireMessage.reply m) inv = inv
  reveal_message-keeps start s now (WireMessage.offer m) inv = inv
  reveal_message-keeps start s now (WireMessage.abort m) inv = inv

  signed_offer-keeps :
      (start s : ResponderSession) (now later : ℕ) (fresh : SessionNonce)
      (signed : SignedWireMessage) (party : PartyIdentity) (x : Result SessionError Unit)
      → check_binding s.channel_binding s.config signed ≡ x
      → IsConsistent start s
      → IsConsistent start (process_offer_and_reply_signed now later fresh signed party s).1
  unfolding process_offer_and_reply_signed
  signed_offer-keeps start s now later fresh signed party (ok _) e inv =
      let t = note_responder_peer signed s in
      let same : (process_offer_message now later fresh party signed.message t).1
          ≡ (process_offer_and_reply_signed now later fresh signed party s).1 =
        ground (arith, e) in
      subst (IsConsistent start) same (
        offer_message-keeps start t now later fresh party signed.message
          (note_peer-keeps start s signed inv))
  signed_offer-keeps start s now later fresh signed party (err f) e inv =
      let same : s ≡ (process_offer_and_reply_signed now later fresh signed party s).1 =
        ground (arith, e) in
      subst (IsConsistent start) same inv

  signed_reveal-keeps :
      (start s : ResponderSession) (now : ℕ) (signed : SignedWireMessage)
      (x : Result SessionError Unit)
      → check_binding s.channel_binding s.config signed ≡ x
      → IsConsistent start s
      → IsConsistent start (process_reveal_signed now signed s).1
  unfolding process_reveal_signed
  signed_reveal-keeps start s now signed (ok _) e inv =
      let same : (process_reveal_message now signed.message s).1
          ≡ (process_reveal_signed now signed s).1 =
        ground (arith, e) in
      subst (IsConsistent start) same (reveal_message-keeps start s now signed.message inv)
  signed_reveal-keeps start s now signed (err f) e inv =
      let same : s ≡ (process_reveal_signed now signed s).1 = ground (arith, e) in
      subst (IsConsistent start) same inv

  pub step-keeps :
      (start s s' : ResponderSession)
      → ResponderStep s s'
      → IsConsistent start s
      → IsConsistent start s'
  step-keeps start s _ (is_offered now later fresh m _) inv =
      offer-keeps start s now later fresh m (process_offer_and_reply now later fresh m s) refl inv
  step-keeps start s _ (is_offered_signed now later fresh m party _) inv =
      signed_offer-keeps start s now later fresh m party
        (check_binding s.channel_binding s.config m) refl inv
  step-keeps start s _ (is_revealed now m _) inv =
      reveal-keeps start s now m (process_reveal now m s) refl inv
  step-keeps start s _ (is_revealed_signed now m _) inv =
      signed_reveal-keeps start s now m (check_binding s.channel_binding s.config m) refl inv
