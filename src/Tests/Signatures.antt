-- ===== src/Tests/Signatures.antt =====
-- Signed messages, and sessions that invites and leases start.
use blind_overlap.Prelude.{◌≡◌, refl, some, none, [], ◌∷◌, Result, ok, err, ◌>>=◌}
use blind_overlap.Bytes.{Bytes, Text, ascii, eqb}
use blind_overlap.Bytes.Encoding.{NoNul}
use blind_overlap.Freshness.{default_ttl_secs}
use blind_overlap.FactSet
use blind_overlap.Protocol.{IntersectionMode, PsiResult}
use blind_overlap.Identity
use blind_overlap.Identity.{PartyIdentity}
use blind_overlap.Wire.Offer
use blind_overlap.Wire.Offer.{MaskedSetOffer}
use blind_overlap.Wire.Reply
use blind_overlap.Wire.Reply.{MaskedSetReply}
use blind_overlap.Wire.Reveal
use blind_overlap.Wire.Reveal.{IntersectionReveal}
use blind_overlap.Wire.Message
use blind_overlap.Wire.Message.{
  WireMessage, SignedWireMessage, WireCodec, session_id, validate, sign, signing_payload,
  verify_peer, encode_signed, decode_signed_from_peer,
}
use blind_overlap.Wire.Envelope.{verify_peer_iff, decode-encode_signed}
use blind_overlap.Session.Common.{
  SessionError, ChannelBinding, identity_mismatch, with_identity_binding,
}
use blind_overlap.Session.Initiator
use blind_overlap.Session.Initiator.{InitiatorSession, generate_offer, process_reply}
use blind_overlap.Session.Responder
use blind_overlap.Session.Responder.{ResponderSession, process_offer_and_reply, process_reveal}
use blind_overlap.Session.Signed.{
  process_reply_signed, process_offer_and_reply_signed, process_reveal_signed, note_initiator_peer,
  note_responder_peer,
}
use blind_overlap.Session.Signed.Authentication.{
  Admits, accepted_reply, accepted_offer, accepted_reveal, unauthenticated_is_refused,
}
use blind_overlap.Tests.Common.{id_of, toy_crypto, toy_codec, toy-SignsSoundly}
use blind_overlap.Tests.Parties.{alpha, beta}

abbrev pub alice : PartyIdentity
alice = record { seed = id_of 1 }

abbrev pub bob : PartyIdentity
bob = record { seed = id_of 2 }

abbrev drawn : Initiator.Drawn
drawn = record { secret = id_of 10; nonce = id_of 5 }

abbrev initiator : InitiatorSession
initiator =
    record (Initiator.initial 100 drawn (ascii "s1") alpha IntersectionMode.intersection
      (with_identity_binding 30)) {
        channel_binding = some (record { local_pubkey = id_of 1; peer_pubkey = id_of 2 });
      }

abbrev responder : ResponderSession
responder =
    record (Responder.initial drawn (ascii "s1") beta IntersectionMode.intersection
      (with_identity_binding 30)) {
        channel_binding = some (record { local_pubkey = id_of 2; peer_pubkey = id_of 1 });
      }

abbrev the_offer : SignedWireMessage
the_offer = sign (WireMessage.offer (Offer.new (ascii "s1") (id_of 11 ∷ id_of 12 ∷ []))) alice

abbrev the_reply : SignedWireMessage
the_reply =
    sign
      (WireMessage.reply
        (Reply.new (ascii "s1") (id_of 12 ∷ id_of 13 ∷ []) (id_of 21 ∷ id_of 22 ∷ [])))
      bob

abbrev the_reveal : SignedWireMessage
the_reveal = sign (WireMessage.reveal (Reveal.new (ascii "s1") (id_of 22 ∷ id_of 23 ∷ []))) alice

abbrev offered : InitiatorSession
offered = (generate_offer initiator).1

abbrev result : PsiResult
result = PsiResult.intersection (id_of 2 ∷ []) (FactSet.from_ids (id_of 2 ∷ [])).root

abbrev answered : Result SessionError SignedWireMessage × ResponderSession
answered = process_offer_and_reply_signed 101 102 (id_of 7) the_offer bob responder

abbrev answer : SignedWireMessage
answer =
    sign
      (WireMessage.reply
        (Reply.new (ascii "s1") (id_of 12 ∷ id_of 13 ∷ []) (id_of 21 ∷ id_of 22 ∷ [])))
      bob

accepted_reply_example :
    Admits offered.channel_binding offered.config the_reply
    × ((reply : MaskedSetReply) × (the_reply.message ≡ WireMessage.reply reply)
        × (reply.session_id ≡ offered.session_id)
        × (process_reply 103 reply (note_initiator_peer the_reply offered)
            ≡ (ok result, (process_reply_signed 103 the_reply offered).1)))
    × (offered.state ≡ Initiator.awaiting_reply)
    × ((process_reply_signed 103 the_reply offered).1.state ≡ Initiator.complete)
    × ((b : ChannelBinding)
        → offered.channel_binding ≡ some b
        → (process_reply_signed 103 the_reply offered).1.verified_peer ≡ some b.peer_pubkey)
unfolding process_reply_signed generate_offer Initiator.initial verify_peer eqb sign Identity.public
    Identity.verify Identity.sign ascii signing_payload session_id Reply.new Message.tag
    Initiator.process_reply Initiator.uses_v2 with_identity_binding
    blind_overlap.Bytes.Encoding.to_le_bytes blind_overlap.Bytes.lex FactSet.compute_set_root
    FactSet.concat FactSet.from_ids FactSet.set_root_input blind_overlap.Freshness.new_deadline
    blind_overlap.Freshness.validate blind_overlap.OrdSet.collect blind_overlap.OrdSet.contains
    blind_overlap.OrdSet.insert blind_overlap.Protocol.apply_mask
    blind_overlap.Protocol.compute_intersection blind_overlap.Protocol.mask
    blind_overlap.Protocol.matching_ids blind_overlap.Protocol.sort
    blind_overlap.Session.Common.check_deadline blind_overlap.Session.Common.check_nonce
    blind_overlap.Session.Common.count_or_zero blind_overlap.Session.Common.peer_error
    Initiator.check_freshness Initiator.finish_reply Initiator.is_state Initiator.note_nonce
    Initiator.offer_of Initiator.state_name blind_overlap.Session.Signed.check_binding
    blind_overlap.Session.Signed.note_initiator_peer
    blind_overlap.Session.Signed.process_reply_message blind_overlap.Wire.Common.deadline
    Message.verify_signature Offer.new Offer.new_v2 Reply.has_freshness
accepted_reply_example =
    accepted_reply 103 the_reply offered (process_reply_signed 103 the_reply offered).1 result refl

accepted_offer_example :
    Admits responder.channel_binding responder.config the_offer
    × ((offer : MaskedSetOffer) × (r : MaskedSetReply) × (the_offer.message
          ≡ WireMessage.offer offer)
        × (offer.session_id ≡ responder.session_id)
        × (process_offer_and_reply 101 102 (id_of 7) offer (note_responder_peer the_offer responder)
            ≡ (ok r, answered.1))
        × (answer ≡ sign (WireMessage.reply r) bob))
    × (responder.state ≡ Responder.created)
    × (answered.1.state ≡ Responder.reply_sent)
    × ((b : ChannelBinding)
        → responder.channel_binding ≡ some b
        → answered.1.verified_peer ≡ some b.peer_pubkey)
unfolding process_offer_and_reply_signed verify_peer eqb sign Identity.public Identity.verify
    Identity.sign ascii signing_payload session_id Offer.new Message.tag
    blind_overlap.Session.Signed.sign_reply Responder.process_offer_and_reply Responder.initial
    Responder.uses_v2 with_identity_binding blind_overlap.Freshness.new_deadline
    blind_overlap.Freshness.validate blind_overlap.Protocol.apply_mask blind_overlap.Protocol.mask
    blind_overlap.Session.Common.check_deadline blind_overlap.Session.Common.peer_error
    Responder.answer_offer Responder.check_offer_freshness Responder.is_state Responder.reply_of
    Responder.responder_state_name blind_overlap.Session.Signed.check_binding
    blind_overlap.Session.Signed.note_responder_peer
    blind_overlap.Session.Signed.process_offer_message blind_overlap.Wire.Common.deadline
    Message.verify_signature Offer.has_freshness Reply.new Reply.new_v2
accepted_offer_example =
    accepted_offer 101 102 (id_of 7) the_offer bob responder answered.1 answer refl

accepted_reveal_example :
    Admits answered.1.channel_binding answered.1.config the_reveal
    × ((reveal : IntersectionReveal) × (the_reveal.message ≡ WireMessage.reveal reveal)
        × (reveal.session_id ≡ answered.1.session_id)
        × (process_reveal 104 reveal answered.1
            ≡ (ok result, (process_reveal_signed 104 the_reveal answered.1).1)))
    × (answered.1.state ≡ Responder.reply_sent)
    × ((process_reveal_signed 104 the_reveal answered.1).1
        ≡ record answered.1 { state = Responder.complete })
unfolding FactSet.compute_set_root FactSet.concat FactSet.from_ids FactSet.set_root_input
    Identity.public Identity.sign Identity.verify Message.tag Message.verify_signature
    Offer.has_freshness Offer.new Offer.new_v2 Reply.has_freshness Reply.new Reply.new_v2
    Responder.answer_offer Responder.check_offer_freshness Responder.check_reveal_freshness
    Responder.finish_reveal Responder.initial Responder.is_state Responder.process_offer_and_reply
    Responder.process_reveal Responder.reply_of Responder.responder_state_name Responder.uses_v2
    Reveal.has_freshness Reveal.new ascii blind_overlap.Bytes.Encoding.to_le_bytes
    blind_overlap.Bytes.lex blind_overlap.Freshness.new_deadline blind_overlap.Freshness.validate
    blind_overlap.OrdSet.collect blind_overlap.OrdSet.contains blind_overlap.OrdSet.insert
    blind_overlap.Protocol.apply_mask blind_overlap.Protocol.compute_intersection
    blind_overlap.Protocol.mask blind_overlap.Protocol.matching_ids blind_overlap.Protocol.sort
    blind_overlap.Session.Common.check_deadline blind_overlap.Session.Common.check_nonce
    blind_overlap.Session.Common.count_or_zero blind_overlap.Session.Common.peer_error
    blind_overlap.Session.Signed.check_binding blind_overlap.Session.Signed.note_initiator_peer
    blind_overlap.Session.Signed.note_responder_peer
    blind_overlap.Session.Signed.process_offer_message
    blind_overlap.Session.Signed.process_reply_message
    blind_overlap.Session.Signed.process_reveal_message blind_overlap.Session.Signed.sign_reply
    blind_overlap.Wire.Common.deadline eqb process_offer_and_reply_signed process_reveal_signed
    session_id sign signing_payload verify_peer with_identity_binding
accepted_reveal_example =
    accepted_reveal 104 the_reveal answered.1 (process_reveal_signed 104 the_reveal answered.1).1
      result refl

-- The offer comes back to its sender.
unauthenticated_is_refused_example :
    process_reply_signed 101 the_offer offered
    ≡ (err (identity_mismatch (id_of 2) (id_of 1)), offered)
unfolding sign Identity.public generate_offer Initiator.initial
unauthenticated_is_refused_example =
    ((unauthenticated_is_refused 101 102 (id_of 7) bob the_offer offered responder).2
        (record { local_pubkey = id_of 1; peer_pubkey = id_of 2 }) (λ h. cc)).0
      refl

verify_peer_iff_example :
    (the_offer.signer_pubkey ≡ id_of 1)
    × (Identity.verify (id_of 1) (signing_payload the_offer.message) the_offer.signature ≡ ok tt)
unfolding verify_peer eqb sign Identity.public Identity.verify Identity.sign ascii signing_payload
    session_id Offer.new Message.tag
verify_peer_iff_example = (verify_peer_iff the_offer (id_of 1)).0 refl

-- A codec that reads every text as Alice's offer.
abbrev one_message : WireCodec
one_message = record {
  to_string = session_id;
  from_str = λ t. none;
  signed_to_string = λ s. session_id s.message;
  signed_from_str = λ t. some the_offer;
}

decode-encode_signed_example :
    (encode_signed ⦃w = one_message⦄ the_offer >>= λ text.
    decode_signed_from_peer ⦃w = one_message⦄ text (Identity.public alice))
    ≡ ok the_offer
unfolding sign signing_payload validate Offer.validate eqb Offer.new ascii
decode-encode_signed_example =
    decode-encode_signed ⦃w = one_message⦄ toy-SignsSoundly the_offer.message alice refl refl
