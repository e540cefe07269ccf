-- ===== src/Session/Exchange/Completion.antt =====
-- The last three steps of an honest run: `process_reply`, `generate_reveal`, `process_reveal`.
use blind_overlap.Prelude.{◌≡◌, true, some, List, map, arith, length, length-map, ok}
use blind_overlap.Bytes.{eqb_refl}
use blind_overlap.Crypto.{Crypto}
use blind_overlap.Freshness.{new_deadline}
use blind_overlap.Protocol.{MaskedElement, PsiResult, mask, apply_mask, compute_intersection}
use blind_overlap.Wire.Common.{deadline}
use blind_overlap.Wire.Reveal
use blind_overlap.Wire.Reveal.{IntersectionReveal}
use blind_overlap.Session.Common.{check_nonce, check_deadline, count_or_zero}
use blind_overlap.Session.Initiator
use blind_overlap.Session.Initiator.{
  InitiatorSession, offer_of, generate_offer, check_freshness, note_nonce, finish_reply,
  process_reply, generate_reveal, reveal_of, or_generated,
}
use blind_overlap.Session.Responder.{ResponderSession, answer_offer, finish_reveal, process_reveal}
use blind_overlap.Session.Exchange.{Moments, IsReady, IsTimely}
use blind_overlap.Session.Exchange.Answer.{
  offer_fields, offered, after_offer, answered, masked_by, the_reply, reply_fields,
}

module _ ⦃c : Crypto⦄ where
  -- The initiator after an honest reply: only the nonce depends on freshness.
  pub noted : Moments → InitiatorSession → ResponderSession → InitiatorSession
  noted at i r = note_nonce (after_offer i) (the_reply at i r)

  pub process_reply_honest :
      (at : Moments) (i : InitiatorSession) (r : ResponderSession)
      → IsReady i r
      → (i.config.use_freshness ≡ true → r.config.use_freshness ≡ true → IsTimely at i r)
      → process_reply at.reply_checked (the_reply at i r) (after_offer i)
        ≡ finish_reply (noted at i r) (the_reply at i r)
  unfolding process_reply Initiator.uses_v2 check_deadline check_nonce noted after_offer
  process_reply_honest at i r ready timely =
      let f = reply_fields at i r (masked_by r) (answered i r) in
      ground (
        arith,
        f.0,
        f.3,
        ready.same_session,
        eqb_refl r.session_id,
        eqb_refl i.nonce,
        f.4,
        λ (p : i.config.use_freshness ≡ true) (q : r.config.use_freshness ≡ true).
            (timely p q).reply,
      )

  noted_fields :
      (at : Moments) (i : InitiatorSession) (r : ResponderSession)
      → let s = noted at i r in
        (s.session_id ≡ i.session_id)
        × (s.secret ≡ i.secret)
        × (s.original_ids ≡ i.original_ids)
        × (s.mode ≡ i.mode)
        × (s.masked_elements ≡ some (offered i))
        × (s.config ≡ i.config)
        × (s.nonce ≡ i.nonce)
        × (r.config.use_freshness ≡ true
            → i.config.use_freshness ≡ true
            → s.responder_nonce ≡ some r.nonce)
  unfolding noted note_nonce after_offer Initiator.uses_v2
  noted_fields at i r =
      let f = reply_fields at i r (masked_by r) (answered i r) in
      (
        ground arith,
        ground arith,
        ground arith,
        ground arith,
        ground arith,
        ground arith,
        ground arith,
        λ p q. ground (arith, f.3, f.4 p q),
      )

  -- What the initiator computes.
  unfoldable pub initiator_result : InitiatorSession → ResponderSession → PsiResult
  initiator_result i r =
      compute_intersection (answered i r) (apply_mask i.secret (masked_by r)) i.original_ids i.mode

  -- The initiator when it is complete.
  pub completed : Moments → InitiatorSession → ResponderSession → InitiatorSession
  completed at i r = record (noted at i r) {
    our_doubly_masked = some (answered i r);
    responder_masked = some (masked_by r);
    state = Initiator.complete;
  }

  pub finish_reply_honest :
      (at : Moments) (i : InitiatorSession) (r : ResponderSession)
      → finish_reply (noted at i r) (the_reply at i r)
        ≡ (ok (initiator_result i r), completed at i r)
  unfolding finish_reply count_or_zero initiator_result completed
  finish_reply_honest at i r =
      let f = reply_fields at i r (masked_by r) (answered i r) in
      let n = noted_fields at i r in ground (arith, f.1, f.2, n.1, n.2, n.3, n.4, length-answered)
    where
      length-answered : length (answered i r) ≡ length (offered i)
      length-answered =
          unfold answered apply_mask in length-map (c.diffie_hellman r.secret) (offered i)

  unfoldable pub revealed : InitiatorSession → ResponderSession → List MaskedElement
  revealed i r = apply_mask i.secret (masked_by r)

  abbrev pub the_reveal : Moments → InitiatorSession → ResponderSession → IntersectionReveal
  the_reveal at i r = reveal_of at.reveal_made at.drawn' (completed at i r) (revealed i r)

  pub generate_reveal_honest :
      (at : Moments) (i : InitiatorSession) (r : ResponderSession)
      → generate_reveal at.reveal_made at.drawn' (completed at i r) ≡ ok (the_reveal at i r)
  unfolding generate_reveal completed revealed
  generate_reveal_honest at i r = let n = noted_fields at i r in ground (arith, n.1)

  reveal_fields :
      (at : Moments) (i : InitiatorSession) (r : ResponderSession)
      → let o = the_reveal at i r in
        (o.session_id ≡ i.session_id)
        × (o.responder_doubly_masked ≡ revealed i r)
        × (Reveal.has_freshness o ≡ i.config.use_freshness)
        × (r.config.use_freshness ≡ true
            → i.config.use_freshness ≡ true
            → (o.responder_nonce ≡ some r.nonce)
              × (deadline o.issued_at o.expires_at
                  ≡ some (new_deadline at.reveal_made i.config.ttl_secs)))
  unfolding reveal_of completed Reveal.new Reveal.new_v2 Reveal.has_freshness deadline
  reveal_fields at i r =
      let n = noted_fields at i r in
      (
        ground (arith, n.0, n.5),
        ground (arith, n.5),
        ground (arith, n.5),
        λ p q. (ground (arith, n.5, n.7 p q), ground (arith, n.5)),
      )

  -- The responder after its reply.
  unfoldable pub replied : Moments → InitiatorSession → ResponderSession → ResponderSession
  replied at i r = (answer_offer at.reply_made at.drawn r (offer_of i (offered i))).1

  -- What the responder computes.
  unfoldable pub responder_result : InitiatorSession → ResponderSession → PsiResult
  responder_result i r = compute_intersection (revealed i r) (answered i r) r.original_ids r.mode

  pub process_reveal_honest :
      (at : Moments) (i : InitiatorSession) (r : ResponderSession)
      → IsReady i r
      → (i.config.use_freshness ≡ true → r.config.use_freshness ≡ true → IsTimely at i r)
      → (process_reveal at.reveal_checked (the_reveal at i r) (replied at i r)).0
        ≡ ok (responder_result i r)
  unfolding answered process_reveal replied answer_offer finish_reveal check_deadline check_nonce
      count_or_zero responder_result
  process_reveal_honest at i r ready timely =
      let f = reveal_fields at i r in
      let o = offer_fields i (offered i) in
      ground (
        arith,
        f.0,
        f.1,
        f.2,
        o.1,
        ready.same_session,
        eqb_refl r.session_id,
        eqb_refl r.nonce,
        f.3,
        length-revealed,
        λ (p : i.config.use_freshness ≡ true) (q : r.config.use_freshness ≡ true).
            (timely p q).reveal,
      )
    where
      length-revealed : length (revealed i r) ≡ length (map (mask r.secret) r.original_ids)
      length-revealed =
          unfold revealed masked_by apply_mask in
          length-map (c.diffie_hellman i.secret) (map (mask r.secret) r.original_ids)
