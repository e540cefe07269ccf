-- ===== src/Tests/Sessions.antt =====
-- The handlers of the sessions, step by step.
use blind_overlap.Prelude.{◌≡◌, ◌⊎◌, refl, [], ◌∷◌, length}
use blind_overlap.Bytes.{ascii, eqb}
use blind_overlap.Protocol.{IntersectionMode, mask}
use blind_overlap.Wire.Offer
use blind_overlap.Wire.Offer.{MaskedSetOffer}
use blind_overlap.Wire.Reply
use blind_overlap.Wire.Reply.{MaskedSetReply}
use blind_overlap.Wire.Reveal
use blind_overlap.Wire.Reveal.{IntersectionReveal}
use blind_overlap.Session.Common.{element_count_mismatch, v1_compatible, count_or_zero}
use blind_overlap.Session.Initiator
use blind_overlap.Session.Initiator.{
  InitiatorSession, generate_offer, process_reply, generate_reveal, note_nonce,
}
use blind_overlap.Session.Responder
use blind_overlap.Session.Responder.{
  ResponderSession, process_offer_and_reply, process_reveal, check_reveal_freshness,
}
use blind_overlap.Session.Guards.{failure_keeps_initiator}
use blind_overlap.Tests.Common.{id_of, toy_crypto, toy_codec}
use blind_overlap.Tests.Parties.{alpha, beta}

abbrev drawn : Initiator.Drawn
drawn = record { secret = id_of 10; nonce = id_of 5 }

abbrev drawn' : Initiator.Drawn
drawn' = record { secret = id_of 20; nonce = id_of 6 }

abbrev initiator : InitiatorSession
initiator =
    Initiator.initial 100 drawn (ascii "s1") alpha IntersectionMode.intersection v1_compatible

abbrev responder : ResponderSession
responder = Responder.initial drawn' (ascii "s1") beta IntersectionMode.intersection v1_compatible

abbrev the_offer : MaskedSetOffer
the_offer = Offer.new (ascii "s1") (id_of 11 ∷ id_of 12 ∷ [])

abbrev the_reply : MaskedSetReply
the_reply = Reply.new (ascii "s1") (id_of 22 ∷ id_of 23 ∷ []) (id_of 31 ∷ id_of 32 ∷ [])

-- A reply with an element missing.
abbrev short_reply : MaskedSetReply
short_reply = Reply.new (ascii "s1") (id_of 22 ∷ id_of 23 ∷ []) (id_of 31 ∷ [])

abbrev the_reveal : IntersectionReveal
the_reveal = Reveal.new (ascii "s1") (id_of 32 ∷ id_of 33 ∷ [])

abbrev offered : InitiatorSession
offered = (generate_offer initiator).1

abbrev answered : ResponderSession
answered = (process_offer_and_reply 101 102 (id_of 7) the_offer responder).1

failure_keeps_initiator_example :
    ((process_reply 101 short_reply offered).1 ≡ offered)
    ⊎ (((process_reply 101 short_reply offered).1 ≡ note_nonce offered short_reply)
        × (element_count_mismatch 2 1
            ≡ element_count_mismatch
                (count_or_zero offered.masked_elements)
                (length short_reply.initiator_doubly_masked)))
unfolding process_reply generate_offer Initiator.initial v1_compatible mask eqb Reply.new ascii
    Initiator.uses_v2 count_or_zero
failure_keeps_initiator_example =
    failure_keeps_initiator 101 short_reply offered (process_reply 101 short_reply offered).1
      (element_count_mismatch 2 1) refl
