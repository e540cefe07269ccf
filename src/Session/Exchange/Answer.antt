-- ===== src/Session/Exchange/Answer.antt =====
-- The first two messages of an honest run: `generate_offer`, `process_offer_and_reply`.
use blind_overlap.Prelude.{◌≡◌, true, ◌&&◌, some, List, map, arith, ok}
use blind_overlap.Bytes.{eqb_refl}
use blind_overlap.Crypto.{Crypto}
use blind_overlap.Freshness.{new_deadline}
use blind_overlap.Protocol.{MaskedElement, mask, apply_mask}
use blind_overlap.Wire.Common.{deadline}
use blind_overlap.Wire.Offer
use blind_overlap.Wire.Offer.{MaskedSetOffer}
use blind_overlap.Wire.Reply
use blind_overlap.Wire.Reply.{MaskedSetReply}
use blind_overlap.Session.Common.{check_deadline}
use blind_overlap.Session.Initiator
use blind_overlap.Session.Initiator.{
  InitiatorSession, offer_of, generate_offer, check_freshness, note_nonce, finish_reply,
  process_reply, generate_reveal, reveal_of, or_generated,
}
use blind_overlap.Session.Responder
use blind_overlap.Session.Responder.{
  ResponderSession, reply_of, answer_offer, process_offer_and_reply, check_offer_freshness,
  check_reveal_freshness, finish_reveal, process_reveal,
}
use blind_overlap.Session.Exchange.{Moments, IsReady, IsTimely}

module _ ⦃c : Crypto⦄ where
  pub offer_fields :
      (i : InitiatorSession) (m : List MaskedElement)
      → let o = offer_of i m in
        (o.session_id ≡ i.session_id)
        × (o.masked_elements ≡ m)
        × (Offer.has_freshness o ≡ i.config.use_freshness)
        × (i.config.use_freshness ≡ true → o.nonce ≡ some i.nonce)
        × (i.config.use_freshness ≡ true
            → deadline o.issued_at o.expires_at ≡ some i.session_deadline)
  unfolding offer_of Offer.new Offer.new_v2 Offer.has_freshness deadline
  offer_fields i m =
      (ground arith, ground arith, ground arith, λ h. ground arith, λ h. ground arith)

  unfoldable pub offered : (i : InitiatorSession) → List MaskedElement
  offered i = map (mask i.secret) i.original_ids

  unfoldable pub after_offer : InitiatorSession → InitiatorSession
  after_offer i = record i { masked_elements = some (offered i); state = Initiator.awaiting_reply }

  pub generate_offer_created :
      (i : InitiatorSession)
      → i.state ≡ Initiator.created
      → generate_offer i ≡ (ok (offer_of i (offered i)), after_offer i)
  unfolding generate_offer offered after_offer
  generate_offer_created i h = ground arith

  pub process_offer_honest :
      (at : Moments) (i : InitiatorSession) (r : ResponderSession)
      → IsReady i r
      → (i.config.use_freshness ≡ true → r.config.use_freshness ≡ true → IsTimely at i r)
      → process_offer_and_reply at.offer_checked at.reply_made at.drawn (offer_of i (offered i)) r
        ≡ answer_offer at.reply_made at.drawn r (offer_of i (offered i))
  unfolding process_offer_and_reply Responder.uses_v2 check_deadline
  process_offer_honest at i r ready timely =
      let f = offer_fields i (offered i) in
      ground (
        arith,
        ready.responder_created,
        f.0,
        f.2,
        ready.same_session,
        eqb_refl r.session_id,
        f.4,
        λ (p : i.config.use_freshness ≡ true) (q : r.config.use_freshness ≡ true).
            (timely p q).offer,
      )

  unfoldable pub answered : (i : InitiatorSession) → ResponderSession → List MaskedElement
  answered i r = apply_mask r.secret (offered i)

  unfoldable pub masked_by : ResponderSession → List MaskedElement
  masked_by r = map (mask r.secret) r.original_ids

  abbrev pub the_reply : Moments → InitiatorSession → ResponderSession → MaskedSetReply
  the_reply at i r =
      reply_of at.reply_made at.drawn r (offer_of i (offered i)) (masked_by r) (answered i r)

  pub reply_fields :
      (at : Moments) (i : InitiatorSession) (r : ResponderSession)
      → (p q : List MaskedElement)
      → let o = reply_of at.reply_made at.drawn r (offer_of i (offered i)) p q in
        (o.session_id ≡ r.session_id)
        × (o.responder_masked ≡ p)
        × (o.initiator_doubly_masked ≡ q)
        × (Reply.has_freshness o ≡ (r.config.use_freshness && i.config.use_freshness))
        × (r.config.use_freshness ≡ true
            → i.config.use_freshness ≡ true
            → (o.initiator_nonce ≡ some i.nonce)
              × (o.responder_nonce ≡ some r.nonce)
              × (deadline o.issued_at o.expires_at
                  ≡ some (new_deadline at.reply_made r.config.ttl_secs)))
  unfolding reply_of Responder.uses_v2 Reply.new Reply.new_v2 Reply.has_freshness deadline
  reply_fields at i r p q =
      let f = offer_fields i (offered i) in
      (
        ground (arith, f.2),
        ground (arith, f.2),
        ground (arith, f.2),
        ground (arith, f.2),
        λ h k. (ground (arith, f.2, f.3), ground (arith, f.2), ground (arith, f.2)),
      )
