-- ===== src/Wire/Validation.antt =====
-- Which messages are valid, and when they carry freshness fields.
use blind_overlap.Prelude.{◌≡◌, ◌≤◌, refl, true, false, some, List, arith, ◌==◌, ok}
use blind_overlap.Bytes.{Text, ascii, eqb}
use blind_overlap.Freshness.{SessionNonce, SessionDeadline}
use blind_overlap.Protocol.{MaskedElement}
use blind_overlap.Wire.Common.{deadline}
use blind_overlap.Wire.Offer
use blind_overlap.Wire.Offer.{MaskedSetOffer}
use blind_overlap.Wire.Reply
use blind_overlap.Wire.Reply.{MaskedSetReply}
use blind_overlap.Wire.Reveal
use blind_overlap.Wire.Reveal.{IntersectionReveal}

-- Of a valid message, of any of the three kinds, the version is 1 or 2, and it has freshness fields
-- exactly if it is 2.
validate-has_freshness :
    ((m : MaskedSetOffer)
      → Offer.validate m ≡ ok tt
      → (Offer.has_freshness m ≡ (m.version == 2)) × (1 ≤ m.version) × (m.version ≤ 2))
    × ((m : MaskedSetReply)
        → Reply.validate m ≡ ok tt
        → (Reply.has_freshness m ≡ (m.version == 2)) × (1 ≤ m.version) × (m.version ≤ 2))
    × ((m : IntersectionReveal)
        → Reveal.validate m ≡ ok tt
        → (Reveal.has_freshness m ≡ (m.version == 2)) × (1 ≤ m.version) × (m.version ≤ 2))
unfolding Offer.validate Offer.has_freshness Reply.validate Reply.has_freshness Reveal.validate
    Reveal.has_freshness
validate-has_freshness = (λ m h. ground arith, λ m h. ground arith, λ m h. ground arith)

-- Every message that the constructors make is valid. Those of version 2 carry the deadline that they
-- were given and count as fresh; those of version 1 do not count as fresh.
new_messages_are_valid :
    (session_id : Text) (xs ys : List MaskedElement) (n m : SessionNonce) (d : SessionDeadline)
    → (Offer.validate (Offer.new_v2 session_id xs n d) ≡ ok tt)
      × (Offer.validate (Offer.new session_id xs) ≡ ok tt)
      × (Offer.has_freshness (Offer.new_v2 session_id xs n d) ≡ true)
      × (Offer.has_freshness (Offer.new session_id xs) ≡ false)
      × (Reply.validate (Reply.new_v2 session_id xs ys n m d) ≡ ok tt)
      × (Reply.validate (Reply.new session_id xs ys) ≡ ok tt)
      × (Reply.has_freshness (Reply.new_v2 session_id xs ys n m d) ≡ true)
      × (Reply.has_freshness (Reply.new session_id xs ys) ≡ false)
      × (Reveal.validate (Reveal.new_v2 session_id xs n m d) ≡ ok tt)
      × (Reveal.validate (Reveal.new session_id xs) ≡ ok tt)
      × (Reveal.has_freshness (Reveal.new_v2 session_id xs n m d) ≡ true)
      × (Reveal.has_freshness (Reveal.new session_id xs) ≡ false)
      × (deadline
            (Offer.new_v2 session_id xs n d).issued_at
            (Offer.new_v2 session_id xs n d).expires_at
          ≡ some d)
      × (deadline
            (Reply.new_v2 session_id xs ys n m d).issued_at
            (Reply.new_v2 session_id xs ys n m d).expires_at
          ≡ some d)
      × (deadline
            (Reveal.new_v2 session_id xs n m d).issued_at
            (Reveal.new_v2 session_id xs n m d).expires_at
          ≡ some d)
unfolding Offer.validate Offer.has_freshness Offer.new Offer.new_v2 Reply.validate
    Reply.has_freshness Reply.new Reply.new_v2 Reveal.validate Reveal.has_freshness Reveal.new
    Reveal.new_v2 deadline eqb ascii
new_messages_are_valid session_id xs ys n m d =
    (refl, refl, refl, refl, refl, refl, refl, refl, refl, refl, refl, refl, refl, refl, refl)
