-- ===== src/Session/Guards.antt =====
-- What the handlers of crates/blindoverlap/src/session.rs require, and what they keep on errors.
use blind_overlap.Prelude.{
  ℕ, ◌≡◌, ◌⊎◌, inl, inr, Bool-cases, ◌&&◌, refl, true, some, arith, length, Result, ok, err, map,
}
use blind_overlap.Bytes.{eqb, eqb_iff}
use blind_overlap.Crypto.{Crypto}
use blind_overlap.Freshness.{SessionNonce}
use blind_overlap.Protocol.{PsiResult, mask}
use blind_overlap.Wire.Offer.{MaskedSetOffer}
use blind_overlap.Wire.Reply.{MaskedSetReply}
use blind_overlap.Wire.Reveal.{IntersectionReveal}
use blind_overlap.Session.Common.{SessionError, element_count_mismatch, count_or_zero}
use blind_overlap.Session.Initiator
use blind_overlap.Session.Initiator.{
  InitiatorState, InitiatorSession, generate_offer, note_nonce, finish_reply, process_reply,
  check_freshness, state_name,
}
use blind_overlap.Session.Responder
use blind_overlap.Session.Responder.{
  ResponderState, ResponderSession, answer_offer, process_offer_and_reply, check_reveal_freshness,
  check_offer_freshness, finish_reveal, process_reveal, responder_state_name,
}

initiator_state_eq : (a b : InitiatorState) → Initiator.is_state a b ≡ true → a ≡ b
unfolding Initiator.is_state
initiator_state_eq Initiator.created Initiator.created h = refl
initiator_state_eq Initiator.created Initiator.awaiting_reply h = ground arith
initiator_state_eq Initiator.created Initiator.complete h = ground arith
initiator_state_eq Initiator.awaiting_reply Initiator.created h = ground arith
initiator_state_eq Initiator.awaiting_reply Initiator.awaiting_reply h = refl
initiator_state_eq Initiator.awaiting_reply Initiator.complete h = ground arith
initiator_state_eq Initiator.complete Initiator.created h = ground arith
initiator_state_eq Initiator.complete Initiator.awaiting_reply h = ground arith
initiator_state_eq Initiator.complete Initiator.complete h = refl

responder_state_eq : (a b : ResponderState) → Responder.is_state a b ≡ true → a ≡ b
unfolding Responder.is_state
responder_state_eq Responder.created Responder.created h = refl
responder_state_eq Responder.created Responder.reply_sent h = ground arith
responder_state_eq Responder.created Responder.complete h = ground arith
responder_state_eq Responder.reply_sent Responder.created h = ground arith
responder_state_eq Responder.reply_sent Responder.reply_sent h = refl
responder_state_eq Responder.reply_sent Responder.complete h = ground arith
responder_state_eq Responder.complete Responder.created h = ground arith
responder_state_eq Responder.complete Responder.reply_sent h = ground arith
responder_state_eq Responder.complete Responder.complete h = refl

checked : (r : Result SessionError Unit) → (r ≡ ok tt) ⊎ ((e : SessionError) × (r ≡ err e))
checked (ok tt) = inl refl
checked (err e) = inr (e, refl)

module _ ⦃c : Crypto⦄ where
  -- An offer was made from a new session.
  pub generate_offer_ok :
      (s s' : InitiatorSession) (o : MaskedSetOffer)
      → generate_offer s ≡ (ok o, s')
      → (s.state ≡ Initiator.created)
        × (s' ≡ record s {
          masked_elements = some (map (mask s.secret) s.original_ids);
          state = Initiator.awaiting_reply;
        })
  unfolding generate_offer
  generate_offer_ok s s' o e =
      (initiator_state_eq s.state Initiator.created (ground (arith, e)), ground (arith, e))

  -- What an accepted reply was checked for, and the session that it leaves.
  pub process_reply_ok :
      (now : ℕ) (m : MaskedSetReply) (s s' : InitiatorSession) (r : PsiResult)
      → process_reply now m s ≡ (ok r, s')
      → (s.state ≡ Initiator.awaiting_reply)
        × (m.session_id ≡ s.session_id)
        × (check_freshness now s m ≡ ok tt)
        × (length m.initiator_doubly_masked ≡ count_or_zero s.masked_elements)
        × (s' ≡ record (note_nonce s m) {
          our_doubly_masked = some m.initiator_doubly_masked;
          responder_masked = some m.responder_masked;
          state = Initiator.complete;
        })
  unfolding process_reply finish_reply note_nonce
  process_reply_ok now m s s' r e = (
    initiator_state_eq s.state Initiator.awaiting_reply (ground (arith, e)),
    ground (arith, e, eqb_iff m.session_id s.session_id),
    ground (arith, e),
    ground (arith, e),
    ground (arith, e),
  )

  -- What an accepted offer was checked for, and the session that it leaves.
  pub process_offer_ok :
      (now later : ℕ) (fresh : SessionNonce) (m : MaskedSetOffer) (s s' : ResponderSession)
      (r : MaskedSetReply)
      → process_offer_and_reply now later fresh m s ≡ (ok r, s')
      → (s.state ≡ Responder.created)
        × (m.session_id ≡ s.session_id)
        × (check_offer_freshness now s m ≡ ok tt)
        × (answer_offer later fresh s m ≡ (ok r, s'))
  unfolding process_offer_and_reply
  process_offer_ok now later fresh m s s' r e = (
    responder_state_eq s.state Responder.created (ground (arith, e)),
    ground (arith, e, eqb_iff m.session_id s.session_id),
    ground (arith, e),
    ground (arith, e),
  )

  -- What an accepted reveal was checked for, and the session that it leaves.
  pub process_reveal_ok :
      (now : ℕ) (m : IntersectionReveal) (s s' : ResponderSession) (r : PsiResult)
      → process_reveal now m s ≡ (ok r, s')
      → (s.state ≡ Responder.reply_sent)
        × (m.session_id ≡ s.session_id)
        × (check_reveal_freshness now s m ≡ ok tt)
        × (length m.responder_doubly_masked ≡ count_or_zero s.masked_elements)
        × (s' ≡ record s { state = Responder.complete })
  unfolding process_reveal finish_reveal
  process_reveal_ok now m s s' r e = (
    responder_state_eq s.state Responder.reply_sent (ground (arith, e)),
    ground (arith, e, eqb_iff m.session_id s.session_id),
    ground (arith, e),
    ground (arith, e),
    ground (arith, e),
  )

  -- A reply that fails leaves the initiator's session as it was, but for the nonce of a reply that
  -- passed every check except the element count.
  pub failure_keeps_initiator :
      (now : ℕ) (m : MaskedSetReply) (s s' : InitiatorSession) (e : SessionError)
      → process_reply now m s ≡ (err e, s')
      → (s' ≡ s)
        ⊎ ((s' ≡ note_nonce s m)
            × (e
                ≡ element_count_mismatch
                    (count_or_zero s.masked_elements)
                    (length m.initiator_doubly_masked)))
  unfolding process_reply finish_reply note_nonce
  failure_keeps_initiator now m s s' e h =
      elim (Bool-cases
        (Initiator.is_state s.state Initiator.awaiting_reply && eqb m.session_id s.session_id)) [
          | inr p ↦ inl (ground (arith, h, p))
          | inl p ↦ elim (checked (check_freshness now s m)) [
            | inl q ↦ inr (ground (arith, h, p, q), ground (arith, h, p, q))
            | inr q ↦ inl (ground (arith, h, p, q.1))
          ]
        ]

  pub offer_failure_keeps :
      (now later : ℕ) (fresh : SessionNonce) (o : MaskedSetOffer) (s s' : ResponderSession)
      (e : SessionError)
      → process_offer_and_reply now later fresh o s ≡ (err e, s')
      → s' ≡ s
  unfolding process_offer_and_reply answer_offer
  offer_failure_keeps now later fresh o s s' e h = ground (arith, h)

  pub reveal_failure_keeps :
      (now : ℕ) (m : IntersectionReveal) (s s' : ResponderSession) (e : SessionError)
      → process_reveal now m s ≡ (err e, s')
      → s' ≡ s
  unfolding process_reveal finish_reveal
  reveal_failure_keeps now m s s' e h = ground (arith, h)

  -- Whatever makes an offer or a reveal fail, the responder's session stays as it was.
  failure_keeps_responder :
      (now later : ℕ) (fresh : SessionNonce) (o : MaskedSetOffer) (m : IntersectionReveal)
      (s s' : ResponderSession) (e : SessionError)
      → (process_offer_and_reply now later fresh o s ≡ (err e, s') → s' ≡ s)
        × (process_reveal now m s ≡ (err e, s') → s' ≡ s)
  failure_keeps_responder now later fresh o m s s' e =
      (offer_failure_keeps now later fresh o s s' e, reveal_failure_keeps now m s s' e)
