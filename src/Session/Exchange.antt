-- ===== src/Session/Exchange.antt =====
-- An honest run of the online protocol of crates/blindoverlap/src/session.rs, over two sessions.
pub mod Answer
pub mod Completion
pub mod Refinement
use blind_overlap.Prelude.{
  ℕ, ◌≤◌, ◌≡◌, refl, ap, sym, ◌∙◌, subst, Bool, true, false, not, ◌&&◌, Option, none, some, List,
  map, arith, length, length-map, ltb, if◌then◌else◌, Result, ok, err, ◌>>=◌, Bool-cases, inl, inr,
  ◌==◌,
}
use blind_overlap.Bytes.{Bytes, Text, eqb, eqb_refl, eqb_iff}
use blind_overlap.Crypto.{Crypto, Commutes}
use blind_overlap.OrdSet.{IsAscending}
use blind_overlap.Freshness.{SessionNonce, SessionDeadline, new_deadline, validate}
use blind_overlap.FactSet.{FactId, FactSet}
use blind_overlap.FactSet.Laws.{IsValid}
use blind_overlap.Protocol.{
  MaskedElement, PsiResult, max_set_size, mask, apply_mask, compute_intersection, intersect,
}
use blind_overlap.Protocol.Exactness.{overlap, result_of, TellsApart, compute_intersection-overlap}
use blind_overlap.Wire.Common.{deadline}
use blind_overlap.Wire.Offer
use blind_overlap.Wire.Offer.{MaskedSetOffer}
use blind_overlap.Wire.Reply
use blind_overlap.Wire.Reply.{MaskedSetReply}
use blind_overlap.Wire.Reveal
use blind_overlap.Wire.Reveal.{IntersectionReveal}
use blind_overlap.Session.Common.{SessionError, check_nonce, check_deadline, count_or_zero}
use blind_overlap.Session.Initiator
use blind_overlap.Session.Initiator.{
  InitiatorSession, offer_of, generate_offer, check_freshness, note_nonce, finish_reply,
  process_reply, generate_reveal, reveal_of, or_generated,
}
use blind_overlap.Session.Responder
use blind_overlap.Session.Responder.{
  ResponderSession, reply_of, answer_offer, process_offer_and_reply, check_offer_freshness,
  check_reveal_freshness, finish_reveal, process_reveal,
}

-- The clock at each step that reads it, and the nonces that would be drawn.
pub record Moments : Type 0 where
  pub offer_checked : ℕ
  pub reply_made : ℕ
  pub reply_checked : ℕ
  pub reveal_made : ℕ
  pub reveal_checked : ℕ
  pub drawn : SessionNonce
  pub drawn' : SessionNonce

module _ ⦃c : Crypto⦄ where
  -- The messages pass unchanged from each party to the other; the results of both parties.
  pub honest_run :
      Moments → InitiatorSession → ResponderSession → Result SessionError (PsiResult × PsiResult)
  honest_run at i r = do
    let (offered, i') = generate_offer i
    offer ← offered
    let (replied, r') = process_offer_and_reply at.offer_checked at.reply_made at.drawn offer r
    reply ← replied
    let (computed, i'') = process_reply at.reply_checked reply i'
    result ← computed
    reveal ← generate_reveal at.reveal_made at.drawn' i''
    let (computed', r'') = process_reveal at.reveal_checked reveal r'
    result' ← computed'
    ok (result, result')

  -- Two new sessions with one identifier.
  pub record IsReady (i : InitiatorSession) (r : ResponderSession) : Type 0 where
    pub initiator_created : i.state ≡ Initiator.created
    pub responder_created : r.state ≡ Responder.created
    pub same_session : i.session_id ≡ r.session_id

  -- Where both sessions use freshness, each message is checked before it expires.
  pub record IsTimely (at : Moments) (i : InitiatorSession) (r : ResponderSession) : Type 0 where
    pub offer : validate at.offer_checked i.session_deadline ≡ ok tt
    pub reply : validate at.reply_checked (new_deadline at.reply_made r.config.ttl_secs) ≡ ok tt
    pub reveal : validate at.reveal_checked (new_deadline at.reveal_made i.config.ttl_secs) ≡ ok tt
