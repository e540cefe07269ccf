-- ===== src/Session/Exchange/Refinement.antt =====
-- An honest run of the online protocol computes what the protocol in one process computes.
use blind_overlap.Prelude.{◌≤◌, ◌≡◌, ◌∙◌, true, arith, length, ok}
use blind_overlap.Crypto.{Crypto, Commutes}
use blind_overlap.FactSet.{FactSet}
use blind_overlap.FactSet.Laws.{IsValid}
use blind_overlap.Protocol.{PsiResult, max_set_size, intersect}
use blind_overlap.Protocol.Exactness.{overlap, result_of, TellsApart, compute_intersection-overlap}
use blind_overlap.Session.Initiator.{InitiatorSession, offer_of}
use blind_overlap.Session.Responder.{ResponderSession, answer_offer}
use blind_overlap.Session.Exchange.{Moments, IsReady, IsTimely, honest_run}
use blind_overlap.Session.Exchange.Answer.{
  offer_fields, offered, answered, masked_by, the_reply, generate_offer_created,
  process_offer_honest,
}
use blind_overlap.Session.Exchange.Completion.{
  initiator_result, responder_result, revealed, replied, process_reply_honest, finish_reply_honest,
  generate_reveal_honest, process_reveal_honest,
}

module _ ⦃c : Crypto⦄ where
  answer_eq :
      (at : Moments) (i : InitiatorSession) (r : ResponderSession)
      → answer_offer at.reply_made at.drawn r (offer_of i (offered i))
        ≡ (ok (the_reply at i r), replied at i r)
  unfolding answer_offer replied masked_by answered
  answer_eq at i r = ground (arith, (offer_fields i (offered i)).1)

  honest_run_eq :
      (at : Moments) (i : InitiatorSession) (r : ResponderSession)
      → IsReady i r
      → (i.config.use_freshness ≡ true → r.config.use_freshness ≡ true → IsTimely at i r)
      → honest_run at i r ≡ ok (initiator_result i r, responder_result i r)
  unfolding honest_run
  honest_run_eq at i r ready timely = ground (
    arith,
    generate_offer_created i ready.initiator_created,
    process_offer_honest at i r ready timely,
    answer_eq at i r,
    process_reply_honest at i r ready timely,
    finish_reply_honest at i r,
    generate_reveal_honest at i r,
    process_reveal_honest at i r ready timely,
  )

  -- Two new sessions with one identifier and sets within the size limit, whose messages pass
  -- unchanged, and each in time where both use freshness: both parties end, and each with exactly
  -- what the protocol in one process, `intersect`, returns for the secrets, sets and mode of the
  -- party.
  pub honest_run-intersect :
      (at : Moments) (i : InitiatorSession) (r : ResponderSession) (a b : FactSet)
      → IsReady i r
      → (i.config.use_freshness ≡ true → r.config.use_freshness ≡ true → IsTimely at i r)
      → i.original_ids ≡ a.ids
      → r.original_ids ≡ b.ids
      → length a.ids ≤ max_set_size
      → length b.ids ≤ max_set_size
      → (p q : PsiResult) × (honest_run at i r ≡ ok (p, q))
        × (intersect i.secret r.secret a b i.mode ≡ ok p)
        × (intersect r.secret i.secret b a r.mode ≡ ok q)
  unfolding intersect initiator_result responder_result answered offered revealed masked_by
  honest_run-intersect at i r a b ready timely ha hb la lb = (
    initiator_result i r,
    responder_result i r,
    honest_run_eq at i r ready timely,
    ground (arith, ha, hb),
    ground (arith, ha, hb),
  )

  -- Two new sessions with one identifier, whose messages pass unchanged, and each in time where both
  -- use freshness; for valid sets whose identifiers the masks tell apart, and where Diffie-Hellman
  -- commutes: the initiator learns exactly the overlap of its set with the responder's, and the
  -- responder that of its set with the initiator's, each in its own mode.
  pub honest_run-overlap :
      (at : Moments) (i : InitiatorSession) (r : ResponderSession) (a b : FactSet)
      → Commutes c
      → IsReady i r
      → (i.config.use_freshness ≡ true → r.config.use_freshness ≡ true → IsTimely at i r)
      → i.original_ids ≡ a.ids
      → r.original_ids ≡ b.ids
      → IsValid a
      → IsValid b
      → TellsApart r.secret i.secret a.ids b.ids
      → TellsApart i.secret r.secret b.ids a.ids
      → honest_run at i r
        ≡ ok (result_of (overlap a.ids b.ids) i.mode, result_of (overlap b.ids a.ids) r.mode)
  unfolding initiator_result responder_result answered offered revealed masked_by
  honest_run-overlap at i r a b comm ready timely ha hb va vb apart apart' =
      honest_run_eq at i r ready timely
      ∙ ground (
        arith,
        ha,
        hb,
        compute_intersection-overlap comm r.secret i.secret a.ids b.ids i.mode va.ascending apart,
        compute_intersection-overlap comm i.secret r.secret b.ids a.ids r.mode vb.ascending apart',
      )
