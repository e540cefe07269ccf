-- ===== src/Session/Lifecycle/Initiating.antt =====
-- What holds of an initiator's session after any sequence of calls.
use blind_overlap.Prelude.{ℕ, ◌≤◌, ◌≡◌, refl, ap, ◌∙◌, length-map, sym, some, arith, length, ok}
use blind_overlap.Crypto.{Crypto}
use blind_overlap.FactSet.{FactSet}
use blind_overlap.Freshness.{SessionNonce}
use blind_overlap.Protocol.{PsiResult, mask, apply_mask, compute_intersection}
use blind_overlap.Wire.Message.{WireMessage, SignedWireMessage, WireCodec}
use blind_overlap.Wire.Reply.{MaskedSetReply}
use blind_overlap.Wire.Reveal.{IntersectionReveal}
use blind_overlap.Bytes.{eqb_refl}
use blind_overlap.Session.Common.{count_or_zero}
use blind_overlap.Session.Initiator
use blind_overlap.Session.Initiator.{
  InitiatorState, InitiatorSession, Drawn, initial, generate_offer, note_nonce, process_reply,
  check_freshness, uses_v2, finish_reply, generate_reveal, reveal_of,
}
use blind_overlap.Session.Lifecycle.{InitiatorStep, Many, many-keeps}
use blind_overlap.Session.Lifecycle.InitiatorSteps.{rank, IsConsistent, step-keeps, note_peer-keeps}
use blind_overlap.Session.Lifecycle.Starts.{InitiatorStart, initiator_start}
use blind_overlap.Session.Signed.{process_reply_signed, process_reply_message, note_initiator_peer}
use blind_overlap.Session.Signed.Authentication.{Admits, check_binding_iff}

module _ ⦃c : Crypto⦄ ⦃w : WireCodec⦄ where
  -- From a session that a constructor made any sequence of calls, failed ones included, keeps its
  -- identifier, secret, set and mode, and has made its masks from them once it is past its offer.
  calls_keep_initiator :
      (a : FactSet) (start s : InitiatorSession)
      → InitiatorStart a start
      → Many InitiatorStep start s
      → IsConsistent start s
  unfolding rank
  calls_keep_initiator a start s made steps =
      let new = (initiator_start a start made).0 in
      many-keeps (IsConsistent start) (λ x y step. step-keeps start x y step) start s steps
        (record {
          same_id = refl;
          same_secret = refl;
          same_ids = refl;
          same_mode = refl;
          masked = λ h. absurd (ground (arith, h, new));
          answered = λ h. absurd (ground (arith, h, new));
        })

  -- After any sequence of calls a complete session can make its reveal: the error for a missing
  -- reply is never returned.
  complete_reveals :
      (later : ℕ) (fresh : SessionNonce) (a : FactSet) (start s : InitiatorSession)
      → InitiatorStart a start
      → Many InitiatorStep start s
      → s.state ≡ Initiator.complete
      → (m : IntersectionReveal) × (generate_reveal later fresh s ≡ ok m)
  unfolding generate_reveal rank
  complete_reveals later fresh a start s made steps h =
      let inv = calls_keep_initiator a start s made steps in
      let got = inv.answered (ground (arith, h)) in
      (reveal_of later fresh s (apply_mask s.secret got.0), ground (arith, h, got.1))

  -- The session after an accepted reply.
  abbrev completed : InitiatorSession → MaskedSetReply → InitiatorSession
  completed s m = record (note_nonce s m) {
    our_doubly_masked = some m.initiator_doubly_masked;
    responder_masked = some m.responder_masked;
    state = Initiator.complete;
  }

  consistent_accepts :
      (now : ℕ) (m : MaskedSetReply) (start s : InitiatorSession)
      → IsConsistent start s
      → s.state ≡ Initiator.awaiting_reply
      → m.session_id ≡ s.session_id
      → check_freshness now s m ≡ ok tt
      → length m.initiator_doubly_masked ≡ length start.original_ids
      → process_reply now m s ≡ (
        ok (
            compute_intersection m.initiator_doubly_masked
              (apply_mask s.secret m.responder_masked)
              s.original_ids
              s.mode),
        completed s m,
      )
  unfolding process_reply finish_reply note_nonce rank count_or_zero
  consistent_accepts now m start s inv awaiting same fresh count =
      let past : 1 ≤ rank s.state = ground (arith, awaiting) in
      let counted : count_or_zero s.masked_elements ≡ length m.initiator_doubly_masked =
        ap count_or_zero (inv.masked past)
        ∙ length-map (mask start.secret) start.original_ids
        ∙ sym count in
      ground (arith, awaiting, same, fresh, counted, eqb_refl s.session_id)

  -- An initiator's session that any of the constructors made, bound to a peer or not, after any
  -- sequence of calls: where it awaits a reply, it accepts one of its session that passes the freshness
  -- checks and has as many elements as the initiator's set, and is complete then. A signed envelope of
  -- the reply that the session's binding admits is accepted as well, with the same result.
  pub reply_completes :
      (now : ℕ) (m : MaskedSetReply) (a : FactSet) (start s : InitiatorSession)
      → InitiatorStart a start
      → Many InitiatorStep start s
      → s.state ≡ Initiator.awaiting_reply
      → m.session_id ≡ s.session_id
      → check_freshness now s m ≡ ok tt
      → length m.initiator_doubly_masked ≡ length a.ids
      → (r : PsiResult) × ((s' : InitiatorSession) × (process_reply now m s ≡ (ok r, s'))
          × (s'.state ≡ Initiator.complete))
        × ((signed : SignedWireMessage)
            → signed.message ≡ WireMessage.reply m
            → Admits s.channel_binding s.config signed
            → (t : InitiatorSession) × (process_reply_signed now signed s ≡ (ok r, t))
              × (t.state ≡ Initiator.complete))
  unfolding process_reply_signed process_reply_message note_initiator_peer check_freshness uses_v2
  reply_completes now m a start s made steps awaiting same fresh count =
      let inv = calls_keep_initiator a start s made steps in
      let counted = count ∙ sym (ap length (initiator_start a start made).1) in
      (
        compute_intersection m.initiator_doubly_masked (apply_mask s.secret m.responder_masked)
            s.original_ids s.mode,
        (completed s m, consistent_accepts now m start s inv awaiting same fresh counted, refl),
        λ signed is_reply admitted.
            let t = note_initiator_peer signed s in
            let law =
              consistent_accepts now m start t (note_peer-keeps start s signed inv)
                (ground (arith, awaiting)) (ground (arith, same)) (ground (arith, fresh)) counted in
            (
              completed t m,
              ground (
                arith,
                is_reply,
                (check_binding_iff s.channel_binding s.config signed).1 admitted,
                law,
              ),
              refl,
            ),
      )
