-- ===== src/Session/Lifecycle/Once.antt =====
-- Each step of a session of crates/blindoverlap/src/session.rs is taken once, whatever is called
-- afterwards.
use blind_overlap.Prelude.{ℕ, ◌≤◌, ◌≡◌, refl, false, arith, ok, err}
use blind_overlap.Bytes.{ascii}
use blind_overlap.Crypto.{Crypto}
use blind_overlap.Freshness.{SessionNonce}
use blind_overlap.Identity.{PartyIdentity}
use blind_overlap.Protocol.{PsiResult}
use blind_overlap.Wire.Message.{SignedWireMessage, WireCodec}
use blind_overlap.Wire.Offer.{MaskedSetOffer}
use blind_overlap.Wire.Reply.{MaskedSetReply}
use blind_overlap.Wire.Reveal.{IntersectionReveal}
use blind_overlap.Session.Common.{invalid_state}
use blind_overlap.Session.Initiator
use blind_overlap.Session.Initiator.{
  InitiatorState, InitiatorSession, generate_offer, note_nonce, process_reply, state_name,
}
use blind_overlap.Session.Responder
use blind_overlap.Session.Responder.{
  ResponderState, ResponderSession, answer_offer, process_offer_and_reply, process_reveal,
  responder_state_name,
}
use blind_overlap.Session.Signed.{
  generate_offer_signed, process_reply_signed, process_offer_and_reply_signed,
  process_reveal_signed,
}
use blind_overlap.Session.Signed.Authentication.{accepted_reply, accepted_offer, accepted_reveal}
use blind_overlap.Session.Guards.{
  generate_offer_ok, process_reply_ok, process_offer_ok, process_reveal_ok,
}
use blind_overlap.Session.Lifecycle.{InitiatorStep, ResponderStep, Many, many-keeps}
use blind_overlap.Session.Lifecycle.InitiatorSteps.{rank}
use blind_overlap.Session.Lifecycle.ResponderSteps.{responder_rank}
use blind_overlap.Session.Lifecycle.Ranks.{initiator_rises, responder_rises}

past_created : (x : InitiatorState) → 1 ≤ rank x → Initiator.is_state x Initiator.created ≡ false
unfolding rank Initiator.is_state
past_created Initiator.created h = absurd (omega (arith, h))
past_created Initiator.awaiting_reply h = refl
past_created Initiator.complete h = refl

at_end : (x : InitiatorState) → 2 ≤ rank x → x ≡ Initiator.complete
unfolding rank
at_end Initiator.created h = absurd (omega (arith, h))
at_end Initiator.awaiting_reply h = absurd (omega (arith, h))
at_end Initiator.complete h = refl

responder_past_created :
    (x : ResponderState) → 1 ≤ responder_rank x → Responder.is_state x Responder.created ≡ false
unfolding responder_rank Responder.is_state
responder_past_created Responder.created h = absurd (omega (arith, h))
responder_past_created Responder.reply_sent h = refl
responder_past_created Responder.complete h = refl

responder_at_end : (x : ResponderState) → 2 ≤ responder_rank x → x ≡ Responder.complete
unfolding responder_rank
responder_at_end Responder.created h = absurd (omega (arith, h))
responder_at_end Responder.reply_sent h = absurd (omega (arith, h))
responder_at_end Responder.complete h = refl

module _ ⦃c : Crypto⦄ ⦃w : WireCodec⦄ where
  -- A successful call, plain or signed, of each of the four steps.
  pub data MakesOffer : InitiatorSession → InitiatorSession → Type 0 where
    makes :
        (s s' : InitiatorSession) (o : MaskedSetOffer)
        → generate_offer s ≡ (ok o, s')
        → MakesOffer s s'
    makes_signed :
        (party : PartyIdentity) (s s' : InitiatorSession) (o : SignedWireMessage)
        → generate_offer_signed party s ≡ (ok o, s')
        → MakesOffer s s'

  pub data AcceptsReply : InitiatorSession → InitiatorSession → Type 0 where
    accepts :
        (now : ℕ) (m : MaskedSetReply) (s s' : InitiatorSession) (q : PsiResult)
        → process_reply now m s ≡ (ok q, s')
        → AcceptsReply s s'
    accepts_signed :
        (now : ℕ) (m : SignedWireMessage) (s s' : InitiatorSession) (q : PsiResult)
        → process_reply_signed now m s ≡ (ok q, s')
        → AcceptsReply s s'

  pub data AnswersOffer : ResponderSession → ResponderSession → Type 0 where
    answers :
        (now later : ℕ) (fresh : SessionNonce) (m : MaskedSetOffer) (s s' : ResponderSession)
        (p : MaskedSetReply)
        → process_offer_and_reply now later fresh m s ≡ (ok p, s')
        → AnswersOffer s s'
    answers_signed :
        (now later : ℕ) (fresh : SessionNonce) (m : SignedWireMessage) (party : PartyIdentity)
        (s s' : ResponderSession) (p : SignedWireMessage)
        → process_offer_and_reply_signed now later fresh m party s ≡ (ok p, s')
        → AnswersOffer s s'

  pub data AcceptsReveal : ResponderSession → ResponderSession → Type 0 where
    learns :
        (now : ℕ) (m : IntersectionReveal) (s s' : ResponderSession) (q : PsiResult)
        → process_reveal now m s ≡ (ok q, s')
        → AcceptsReveal s s'
    learns_signed :
        (now : ℕ) (m : SignedWireMessage) (s s' : ResponderSession) (q : PsiResult)
        → process_reveal_signed now m s ≡ (ok q, s')
        → AcceptsReveal s s'

  offer_ranks :
      (s s' : InitiatorSession) → MakesOffer s s' → (rank s.state ≡ 0) × (1 ≤ rank s'.state)
  unfolding rank generate_offer_signed generate_offer
  offer_ranks _ _ (makes s s' o e) =
      let law = generate_offer_ok s s' o e in (ground (arith, law.0), ground (arith, law.1))
  offer_ranks _ _ (makes_signed party s s' o e) = (ground (arith, e), ground (arith, e))

  reply_ranks :
      (s s' : InitiatorSession) → AcceptsReply s s' → (rank s.state ≡ 1) × (2 ≤ rank s'.state)
  unfolding rank note_nonce
  reply_ranks _ _ (accepts now m s s' q e) =
      let law = process_reply_ok now m s s' q e in (ground (arith, law.0), ground (arith, law.4))
  reply_ranks _ _ (accepts_signed now m s s' q e) =
      let law = accepted_reply now m s s' q e in (ground (arith, law.2), ground (arith, law.3))

  answer_ranks :
      (s s' : ResponderSession)
      → AnswersOffer s s'
      → (responder_rank s.state ≡ 0) × (1 ≤ responder_rank s'.state)
  unfolding responder_rank answer_offer
  answer_ranks _ _ (answers now later fresh m s s' p e) =
      let law = process_offer_ok now later fresh m s s' p e in
      (ground (arith, law.0), ground (arith, law.3))
  answer_ranks _ _ (answers_signed now later fresh m party s s' p e) =
      let law = accepted_offer now later fresh m party s s' p e in
      (ground (arith, law.2), ground (arith, law.3))

  reveal_ranks :
      (s s' : ResponderSession)
      → AcceptsReveal s s'
      → (responder_rank s.state ≡ 1) × (2 ≤ responder_rank s'.state)
  unfolding responder_rank
  reveal_ranks _ _ (learns now m s s' q e) =
      let law = process_reveal_ok now m s s' q e in (ground (arith, law.0), ground (arith, law.4))
  reveal_ranks _ _ (learns_signed now m s s' q e) =
      let law = accepted_reveal now m s s' q e in (ground (arith, law.2), ground (arith, law.3))

  initiator_stays :
      (n : ℕ) (s t : InitiatorSession)
      → Many InitiatorStep s t
      → n ≤ rank s.state
      → n ≤ rank t.state
  initiator_stays n s t steps h =
      many-keeps (λ x. n ≤ rank x.state)
        (λ x y step below. omega (arith, below, initiator_rises x y step)) s t steps h

  responder_stays :
      (n : ℕ) (s t : ResponderSession)
      → Many ResponderStep s t
      → n ≤ responder_rank s.state
      → n ≤ responder_rank t.state
  responder_stays n s t steps h =
      many-keeps (λ x. n ≤ responder_rank x.state)
        (λ x y step below. omega (arith, below, responder_rises x y step)) s t steps h

  -- Each step is taken once. After an offer, a reply that was accepted, an offer that was answered or
  -- a reveal that was accepted, by a plain or a signed call, and after any further sequence of calls
  -- on the session, failed ones included: the plain call of the same step fails, whatever it is
  -- given, with the error that names the session's state, and leaves the session as it was; and
  -- neither the plain nor the signed call succeeds again.
  pub steps_are_taken_once :
      (i i' i'' : InitiatorSession) (r r' r'' : ResponderSession)
      → (MakesOffer i i'
          → Many InitiatorStep i' i''
          → (generate_offer i''
              ≡ (err (invalid_state (ascii "Created") (state_name i''.state)), i''))
            × ((x : InitiatorSession) → MakesOffer i'' x → ⊥))
        × (AcceptsReply i i'
            → Many InitiatorStep i' i''
            → ((now : ℕ) (p : MaskedSetReply)
                → process_reply now p i''
                  ≡ (err (invalid_state (ascii "AwaitingReply") (ascii "Complete")), i''))
              × ((x : InitiatorSession) → AcceptsReply i'' x → ⊥))
        × (AnswersOffer r r'
            → Many ResponderStep r' r''
            → ((now later : ℕ) (fresh : SessionNonce) (o : MaskedSetOffer)
                → process_offer_and_reply now later fresh o r''
                  ≡ (err (invalid_state (ascii "Created") (responder_state_name r''.state)), r''))
              × ((x : ResponderSession) → AnswersOffer r'' x → ⊥))
        × (AcceptsReveal r r'
            → Many ResponderStep r' r''
            → ((now : ℕ) (v : IntersectionReveal)
                → process_reveal now v r''
                  ≡ (err (invalid_state (ascii "ReplySent") (ascii "Complete")), r''))
              × ((x : ResponderSession) → AcceptsReveal r'' x → ⊥))
  unfolding generate_offer process_reply process_offer_and_reply process_reveal state_name
      responder_state_name
  steps_are_taken_once i i' i'' r r' r'' = (
    λ h steps.
        let past = initiator_stays 1 i' i'' steps (offer_ranks i i' h).1 in
        (
          ground (arith, past_created i''.state past),
          λ x again. omega (arith, past, (offer_ranks i'' x again).0),
        ),
    λ h steps.
        let past = initiator_stays 2 i' i'' steps (reply_ranks i i' h).1 in
        (
          λ now p. ground (arith, at_end i''.state past),
          λ x again. omega (arith, past, (reply_ranks i'' x again).0),
        ),
    λ h steps.
        let past = responder_stays 1 r' r'' steps (answer_ranks r r' h).1 in
        (
          λ now later fresh o. ground (arith, responder_past_created r''.state past),
          λ x again. omega (arith, past, (answer_ranks r'' x again).0),
        ),
    λ h steps.
        let past = responder_stays 2 r' r'' steps (reveal_ranks r r' h).1 in
        (
          λ now v. ground (arith, responder_at_end r''.state past),
          λ x again. omega (arith, past, (reveal_ranks r'' x again).0),
        ),
  )
