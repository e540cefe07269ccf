-- ===== src/Session/Lifecycle.antt =====
-- The states of the two sessions of crates/blindoverlap/src/session.rs, as step relations.
pub mod InitiatorSteps
pub mod Initiating
pub mod ResponderSteps
pub mod Responding
pub mod Ranks
pub mod Starts
pub mod Once
use blind_overlap.Prelude.{ℕ, ◌≡◌}
use blind_overlap.Crypto.{Crypto}
use blind_overlap.Freshness.{SessionNonce}
use blind_overlap.Identity.{PartyIdentity}
use blind_overlap.Wire.Message.{SignedWireMessage, WireCodec}
use blind_overlap.Wire.Offer.{MaskedSetOffer}
use blind_overlap.Wire.Reply.{MaskedSetReply}
use blind_overlap.Wire.Reveal.{IntersectionReveal}
use blind_overlap.Session.Initiator.{InitiatorSession, generate_offer, process_reply}
use blind_overlap.Session.Responder.{ResponderSession, process_offer_and_reply, process_reveal}
use blind_overlap.Session.Signed.{
  process_reply_signed, generate_offer_signed, process_offer_and_reply_signed,
  process_reveal_signed,
}

module _ ⦃c : Crypto⦄ ⦃w : WireCodec⦄ where
  -- One call that may change an initiator's session, successful or not.
  pub data InitiatorStep : InitiatorSession → InitiatorSession → Type 0 where
    offers : (s : InitiatorSession) → InitiatorStep s (generate_offer s).1
    offers_signed :
        (party : PartyIdentity) (s : InitiatorSession)
        → InitiatorStep s (generate_offer_signed party s).1
    is_replied :
        (now : ℕ) (m : MaskedSetReply) (s : InitiatorSession)
        → InitiatorStep s (process_reply now m s).1
    is_replied_signed :
        (now : ℕ) (m : SignedWireMessage) (s : InitiatorSession)
        → InitiatorStep s (process_reply_signed now m s).1

  -- One call that may change a responder's session.
  pub data ResponderStep : ResponderSession → ResponderSession → Type 0 where
    is_offered :
        (now later : ℕ) (fresh : SessionNonce) (m : MaskedSetOffer) (s : ResponderSession)
        → ResponderStep s (process_offer_and_reply now later fresh m s).1
    is_offered_signed :
        (now later : ℕ) (fresh : SessionNonce) (m : SignedWireMessage) (party : PartyIdentity)
        (s : ResponderSession)
        → ResponderStep s (process_offer_and_reply_signed now later fresh m party s).1
    is_revealed :
        (now : ℕ) (m : IntersectionReveal) (s : ResponderSession)
        → ResponderStep s (process_reveal now m s).1
    is_revealed_signed :
        (now : ℕ) (m : SignedWireMessage) (s : ResponderSession)
        → ResponderStep s (process_reveal_signed now m s).1

-- Any number of steps of a relation.
pub data Many {A : Type 0} (R : A → A → Type 0) : A → A → Type 0 where
  none_more : (a : A) → Many R a a
  one_more : (a b d : A) → Many R a b → R b d → Many R a d

-- What holds at the start and is kept by every step holds after any number of steps.
pub many-keeps :
    {A : Type 0} {R : A → A → Type 0}
    → (P : A → Type 0) → ((a b : A) → R a b → P a → P b)
    → (a b : A) → Many R a b
    → P a
    → P b
many-keeps P step a b (none_more _) p = p
many-keeps P step a d (one_more _ b _ before last) p =
    step b d last (many-keeps P step a b before p)
