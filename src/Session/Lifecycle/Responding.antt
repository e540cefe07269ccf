-- ===== src/Session/Lifecycle/Responding.antt =====
-- What holds of a responder's session after any sequence of calls.
use blind_overlap.Prelude.{ℕ, ◌≤◌, ◌≡◌, refl, ap, ◌∙◌, length-map, sym, arith, length, ok}
use blind_overlap.Bytes.{eqb_refl}
use blind_overlap.Crypto.{Crypto}
use blind_overlap.FactSet.{FactSet}
use blind_overlap.Protocol.{PsiResult, mask, compute_intersection}
use blind_overlap.Wire.Message.{WireMessage, SignedWireMessage, WireCodec}
use blind_overlap.Wire.Reveal.{IntersectionReveal}
use blind_overlap.Session.Common.{count_or_zero}
use blind_overlap.Session.Responder
use blind_overlap.Session.Responder.{
  ResponderState, ResponderSession, initial, answer_offer, process_offer_and_reply, process_reveal,
  finish_reveal, check_reveal_freshness,
}
use blind_overlap.Session.Signed.{process_reveal_signed, process_reveal_message}
use blind_overlap.Session.Signed.Authentication.{Admits, check_binding_iff}
use blind_overlap.Session.Lifecycle.Starts.{ResponderStart, responder_start}
use blind_overlap.Session.Lifecycle.{ResponderStep, Many, many-keeps}
use blind_overlap.Session.Lifecycle.ResponderSteps.{responder_rank, IsConsistent, step-keeps}

module _ ⦃c : Crypto⦄ ⦃w : WireCodec⦄ where
  -- From a session that a constructor made any sequence of calls, failed ones included, keeps its
  -- identifier, secret, set and mode, and once it is past the offer its own masks are made from them
  -- and the initiator's are there.
  calls_keep_responder :
      (a : FactSet) (start s : ResponderSession)
      → ResponderStart a start
      → Many ResponderStep start s
      → IsConsistent start s
  unfolding responder_rank
  calls_keep_responder a start s made steps =
      let new = (responder_start a start made).0 in
      many-keeps (IsConsistent start) (λ x y step. step-keeps start x y step) start s steps
        (record {
          same_id = refl;
          same_secret = refl;
          same_ids = refl;
          same_mode = refl;
          masked = λ h. absurd (ground (arith, h, new));
          answered = λ h. absurd (ground (arith, h, new));
        })

  -- A responder's session that any of the constructors made, bound to a peer or not, after any
  -- sequence of calls: where it has sent its reply, it accepts a reveal of its session that passes the
  -- freshness checks and has as many elements as the responder's set, and is complete then: the error
  -- for missing masks is never returned. A signed envelope of the reveal that the session's binding
  -- admits is accepted as well, with the same result.
  pub reveal_completes :
      (now : ℕ) (m : IntersectionReveal) (a : FactSet) (start s : ResponderSession)
      → ResponderStart a start
      → Many ResponderStep start s
      → s.state ≡ Responder.reply_sent
      → m.session_id ≡ s.session_id
      → check_reveal_freshness now s m ≡ ok tt
      → length m.responder_doubly_masked ≡ length a.ids
      → (r : PsiResult) × (process_reveal now m s ≡ (ok r, record s { state = Responder.complete }))
        × ((signed : SignedWireMessage)
            → signed.message ≡ WireMessage.reveal m
            → Admits s.channel_binding s.config signed
            → process_reveal_signed now signed s ≡ (ok r, record s { state = Responder.complete }))
  unfolding process_reveal finish_reveal responder_rank count_or_zero process_reveal_signed
      process_reveal_message
  reveal_completes now m a start s made steps sent same fresh count =
      let inv = calls_keep_responder a start s made steps in
      let past : 1 ≤ responder_rank s.state = ground (arith, sent) in
      let (theirs, has) = inv.answered past in
      let counted : count_or_zero s.masked_elements ≡ length m.responder_doubly_masked =
        ap count_or_zero (inv.masked past)
        ∙ length-map (mask start.secret) start.original_ids
        ∙ ap length (responder_start a start made).1
        ∙ sym count in
      let r = compute_intersection m.responder_doubly_masked theirs s.original_ids s.mode in
      let accepted : process_reveal now m s ≡ (ok r, record s { state = Responder.complete }) =
        ground (arith, sent, same, fresh, has, counted, eqb_refl s.session_id) in
      (
        r,
        accepted,
        λ signed is_reveal admitted. ground (
          arith,
          is_reveal,
          (check_binding_iff s.channel_binding s.config signed).1 admitted,
          accepted,
        ),
      )
