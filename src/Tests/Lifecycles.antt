-- ===== src/Tests/Lifecycles.antt =====
-- Sessions that are bound to a peer, after several calls.
use blind_overlap.Prelude.{◌≡◌, refl, some, [], ◌∷◌, ok, err}
use blind_overlap.Bytes.{ascii}
use blind_overlap.Freshness.{default_ttl_secs}
use blind_overlap.Identity
use blind_overlap.Protocol.{IntersectionMode, PsiResult}
use blind_overlap.Wire.Offer
use blind_overlap.Wire.Offer.{MaskedSetOffer}
use blind_overlap.Wire.Reply
use blind_overlap.Wire.Reply.{MaskedSetReply}
use blind_overlap.Wire.Reveal
use blind_overlap.Wire.Reveal.{IntersectionReveal}
use blind_overlap.Wire.Message.{WireMessage, SignedWireMessage, sign}
use blind_overlap.Session.Common.{invalid_state, with_identity_binding}
use blind_overlap.Session.Initiator
use blind_overlap.Session.Initiator.{InitiatorSession, generate_offer, process_reply}
use blind_overlap.Session.Responder
use blind_overlap.Session.Responder.{ResponderSession, process_offer_and_reply, process_reveal}
use blind_overlap.Session.Signed.{
  process_reply_signed, process_offer_and_reply_signed, process_reveal_signed,
}
use blind_overlap.Session.Signed.Authentication.{Admits}
use blind_overlap.Session.Lifecycle.{
  InitiatorStep, ResponderStep, offers, is_replied, is_replied_signed, is_offered_signed, Many,
  none_more, one_more,
}
use blind_overlap.Session.Lifecycle.Starts.{
  InitiatorStart, ResponderStart, by_binding, answers_binding,
}
use blind_overlap.Session.Lifecycle.Initiating.{reply_completes}
use blind_overlap.Session.Lifecycle.Responding.{reveal_completes}
use blind_overlap.Session.Lifecycle.Once.{MakesOffer, makes, steps_are_taken_once}
use blind_overlap.Tests.Common.{id_of, toy_crypto, toy_codec}
use blind_overlap.Tests.Parties.{alpha, beta}
use blind_overlap.Tests.Signatures.{alice, bob}

abbrev drawn : Initiator.Drawn
drawn = record { secret = id_of 10; nonce = id_of 5 }

-- The initiator of alice is bound to bob, and the responder of bob to alice.
abbrev initiator : InitiatorSession
initiator =
    record (Initiator.initial 100 drawn (ascii "s1") alpha IntersectionMode.intersection
      (with_identity_binding default_ttl_secs)) {
        channel_binding =
            some
              (record { local_pubkey = Identity.public alice; peer_pubkey = Identity.public bob });
      }

abbrev responder : ResponderSession
responder =
    record (Responder.initial drawn (ascii "s1") beta IntersectionMode.intersection
      (with_identity_binding default_ttl_secs)) {
        channel_binding =
            some
              (record { local_pubkey = Identity.public bob; peer_pubkey = Identity.public alice });
      }

initiator_is_made : InitiatorStart alpha initiator
unfolding Initiator.with_channel_binding Initiator.with_config blind_overlap.FactSet.len
initiator_is_made =
    by_binding 100 drawn (ascii "s1") alpha IntersectionMode.intersection alice
      (Identity.public bob) initiator refl

responder_is_made : ResponderStart beta responder
unfolding Responder.with_channel_binding Responder.with_config blind_overlap.FactSet.len
responder_is_made =
    answers_binding drawn (ascii "s1") beta IntersectionMode.intersection bob
      (Identity.public alice) responder refl

abbrev the_reply : MaskedSetReply
the_reply = Reply.new (ascii "s1") (id_of 12 ∷ id_of 13 ∷ []) (id_of 21 ∷ id_of 22 ∷ [])

-- A reply of bob with an element missing, which is refused after bob is noted.
abbrev short_reply : SignedWireMessage
short_reply =
    sign (WireMessage.reply (Reply.new (ascii "s1") (id_of 12 ∷ id_of 13 ∷ []) (id_of 21 ∷ []))) bob

abbrev offered : InitiatorSession
offered = (generate_offer initiator).1

abbrev retried : InitiatorSession
retried = (process_reply_signed 102 short_reply offered).1

to_offered : Many InitiatorStep initiator offered
to_offered = one_more initiator initiator offered (none_more initiator) (offers initiator)

to_retried : Many InitiatorStep initiator retried
to_retried =
    one_more initiator offered retried to_offered (is_replied_signed 102 short_reply offered)

reply_completes_example :
    (r : PsiResult) × ((s' : InitiatorSession) × (process_reply 103 the_reply retried ≡ (ok r, s'))
      × (s'.state ≡ Initiator.complete))
    × ((signed : SignedWireMessage)
        → signed.message ≡ WireMessage.reply the_reply
        → Admits retried.channel_binding retried.config signed
        → (t : InitiatorSession) × (process_reply_signed 103 signed retried ≡ (ok r, t))
          × (t.state ≡ Initiator.complete))
unfolding generate_offer Initiator.initial process_reply_signed Reply.new process_reply
    Initiator.uses_v2 Reply.has_freshness Initiator.check_freshness Initiator.finish_reply
    Initiator.is_state Initiator.note_nonce blind_overlap.Session.Signed.note_initiator_peer
    blind_overlap.Session.Signed.process_reply_message Identity.public Identity.verify Identity.sign
    ascii sign with_identity_binding blind_overlap.Wire.Message.verify_peer blind_overlap.Bytes.eqb
    blind_overlap.Wire.Message.signing_payload blind_overlap.Wire.Message.tag
    blind_overlap.Wire.Message.verify_signature blind_overlap.Wire.Common.deadline
    blind_overlap.Freshness.new_deadline blind_overlap.Freshness.validate
    blind_overlap.Protocol.apply_mask blind_overlap.Protocol.mask
    blind_overlap.Session.Common.check_deadline blind_overlap.Session.Common.check_nonce
    blind_overlap.Session.Common.count_or_zero blind_overlap.Session.Common.peer_error
    blind_overlap.Session.Signed.check_binding blind_overlap.Bytes.Encoding.to_le_bytes
    blind_overlap.Wire.Message.session_id
reply_completes_example =
    reply_completes 103 the_reply alpha initiator retried initiator_is_made to_retried refl refl
      refl refl

abbrev the_offer : SignedWireMessage
the_offer = sign (WireMessage.offer (Offer.new (ascii "s1") (id_of 11 ∷ id_of 12 ∷ []))) alice

abbrev the_reveal : IntersectionReveal
the_reveal = Reveal.new (ascii "s1") (id_of 22 ∷ id_of 23 ∷ [])

abbrev answered : ResponderSession
answered = (process_offer_and_reply_signed 101 102 (id_of 7) the_offer bob responder).1

to_answered : Many ResponderStep responder answered
to_answered =
    one_more responder responder answered (none_more responder)
      (is_offered_signed 101 102 (id_of 7) the_offer bob responder)

reveal_completes_example :
    (r : PsiResult) × (process_reveal 104 the_reveal answered
      ≡ (ok r, record answered { state = Responder.complete }))
    × ((signed : SignedWireMessage)
        → signed.message ≡ WireMessage.reveal the_reveal
        → Admits answered.channel_binding answered.config signed
        → process_reveal_signed 104 signed answered
          ≡ (ok r, record answered { state = Responder.complete }))
unfolding Responder.initial process_offer_and_reply_signed Offer.new process_offer_and_reply
    Responder.uses_v2 Offer.has_freshness Reveal.new Responder.answer_offer
    Responder.check_offer_freshness Responder.check_reveal_freshness Reveal.has_freshness
    Responder.is_state Responder.reply_of blind_overlap.Session.Signed.note_responder_peer
    blind_overlap.Session.Signed.process_offer_message blind_overlap.Session.Signed.sign_reply
    Reply.new Identity.public Identity.verify Identity.sign ascii sign with_identity_binding
    blind_overlap.Wire.Message.verify_peer blind_overlap.Bytes.eqb
    blind_overlap.Wire.Message.signing_payload blind_overlap.Wire.Message.tag
    blind_overlap.Wire.Message.verify_signature blind_overlap.Wire.Common.deadline
    blind_overlap.Freshness.new_deadline blind_overlap.Freshness.validate
    blind_overlap.Protocol.apply_mask blind_overlap.Protocol.mask
    blind_overlap.Session.Common.check_deadline blind_overlap.Session.Common.check_nonce
    blind_overlap.Session.Common.count_or_zero blind_overlap.Session.Common.peer_error
    blind_overlap.Session.Signed.check_binding blind_overlap.Bytes.Encoding.to_le_bytes
    blind_overlap.Wire.Message.session_id
reveal_completes_example =
    reveal_completes 104 the_reveal beta responder answered responder_is_made to_answered refl refl
      refl refl

abbrev ended : InitiatorSession
ended = (process_reply 103 the_reply offered).1

-- A complete initiator makes no second offer.
steps_are_taken_once_example :
    (generate_offer ended ≡ (err (invalid_state (ascii "Created") (ascii "Complete")), ended))
    × ((x : InitiatorSession) → MakesOffer ended x → ⊥)
unfolding generate_offer Initiator.initial Initiator.state_name Offer.new_v2 Initiator.offer_of
    with_identity_binding blind_overlap.Protocol.mask ascii process_reply blind_overlap.Bytes.eqb
    Reply.new Initiator.uses_v2 Reply.has_freshness blind_overlap.Session.Common.count_or_zero
steps_are_taken_once_example =
    (steps_are_taken_once initiator offered ended responder responder responder).0
      (makes initiator offered
        (Offer.new_v2 (ascii "s1") (id_of 11 ∷ id_of 12 ∷ []) (id_of 5)
          (Initiator.initial 100 drawn (ascii "s1") alpha IntersectionMode.intersection
            (with_identity_binding default_ttl_secs)).session_deadline)
        refl)
      (one_more offered offered ended (none_more offered) (is_replied 103 the_reply offered))
