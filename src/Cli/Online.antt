-- ===== src/Cli/Online.antt =====
-- The online commands of crates/blindoverlap-cli/src/main.rs: what they share.
pub mod Offering
pub mod Replying
pub mod Completing
pub mod Revealing
pub mod Run
use blind_overlap.Prelude.{
  ℕ, zero, suc, Option, none, some, List, [], ◌∷◌, map, length, ◌==◌, if◌then◌else◌, Result, ok,
  err, ◌>>=◌, map_err, ok_or,
}
use blind_overlap.Bytes.{Bytes, Text, ascii}
use blind_overlap.Crypto.{Crypto}
use blind_overlap.FactSet.{FactId}
use blind_overlap.Identity.{PublicIdentity, PartyIdentity}
use blind_overlap.Padding.{PaddingConfig, pad_masked_elements}
use blind_overlap.Protocol.{MaskedElement}
use blind_overlap.Wire.Common.{WireError}
use blind_overlap.Wire.Offer.{MaskedSetOffer}
use blind_overlap.Wire.Reply.{MaskedSetReply}
use blind_overlap.Wire.Reveal.{IntersectionReveal}
use blind_overlap.Wire.Message
use blind_overlap.Wire.Message.{WireMessage, SignedWireMessage, WireCodec}
use blind_overlap.Cli.Common.{CliError, message, padding, wire_error, decode_hex}

-- The JSON that `online-offer` saves for `online-complete`.
pub record InitiatorState : Type 0 where
  pub session_id : Text
  pub mode : Text
  pub original_count : ℕ
  pub fact_ids_hex : List Text
  pub secret_hex : Text
  pub masked_elements_hex : List Text
  pub nonce_hex : Option Text
  pub ttl_secs : Option ℕ

-- The JSON that `online-reply` saves for `online-reveal`.
pub record ResponderState : Type 0 where
  pub session_id : Text
  pub mode : Text
  pub original_count : ℕ
  pub fact_ids_hex : List Text
  pub secret_hex : Text
  pub masked_elements_hex : List Text
  pub initiator_doubly_masked_hex : List Text
  pub nonce_hex : Option Text
  pub initiator_nonce_hex : Option Text
  pub ttl_secs : Option ℕ

-- `[0u8; n]`
unfoldable pub zeros : ℕ → Bytes
zeros zero = []
zeros (suc n) = 0 ∷ zeros n

-- `vec![element; n]`
unfoldable pub repeat : ℕ → Bytes → List Bytes
repeat zero element = []
repeat (suc n) element = element ∷ repeat n element

-- serde_json's pretty form of the two message types, which is always made.
pub record PrettyWire : Type 0 where
  pub pretty : WireMessage → Text
  pub signed_pretty : SignedWireMessage → Text

unfoldable pub as_offer : WireMessage → Option MaskedSetOffer
as_offer (WireMessage.offer m) = some m
as_offer _ = none

unfoldable pub as_reply : WireMessage → Option MaskedSetReply
as_reply (WireMessage.reply m) = some m
as_reply _ = none

unfoldable pub as_reveal : WireMessage → Option IntersectionReveal
as_reveal (WireMessage.reveal m) = some m
as_reveal _ = none

module _ ⦃c : Crypto⦄ where
  -- `.map(|s| hex::decode(s).map_err(..).and_then(..)).collect::<Result<Vec<_>, _>>()?`
  unfoldable pub decode_ids : List Text → Result CliError (List FactId)
  decode_ids [] = ok []
  decode_ids (s ∷ rest) = do
    id ← ok_or (c.hex_decode s) (message (ascii "hex decode error"))
    checked ← if length id == 32 then ok id else err (message (ascii "expected 32 bytes"))
    ids ← decode_ids rest
    ok (checked ∷ ids)

  -- `if let Some(target) = pad_to { .. } else { elements.clone() }`; `random` is the padding secret
  -- that `with_random_secret` draws.
  unfoldable pub pad_if_asked :
      (random : Bytes)
      → (pad_to : Option ℕ) → (pad_secret : Option Text) → (context : Bytes) → List MaskedElement
      → Result CliError (List MaskedElement)
  pad_if_asked random none pad_secret context elements = ok elements
  pad_if_asked random (some target) none context elements = map_err padding (
      pad_masked_elements elements (record { target_size = target; padding_secret = random })
        context)
  pad_if_asked random (some target) (some s) context elements = do
    secret ← decode_hex s
    map_err padding (
        pad_masked_elements elements (record { target_size = target; padding_secret = secret })
          context)

  module _ ⦃w : WireCodec⦄ where
    -- The unsigned message of a file, or the signed one, from the expected peer if there is one.
    unfoldable pub decode_expected :
        {M : Type 0}
        → (pick : WireMessage → Option M) → (wrong_kind : Text)
        → (expect_peer : Option PublicIdentity) → (text : Text)
        → Result CliError (M × Option PublicIdentity)
    decode_expected pick wrong_kind (some peer) text = do
      signed ← map_err wire_error (Message.decode_signed_from_peer text peer)
      m ← ok_or (pick signed.message) (message wrong_kind)
      ok (m, some signed.signer_pubkey)
    decode_expected pick wrong_kind none text = elim (Message.decode_signed text) [
      | ok signed ↦ do
        m ← ok_or (pick signed.message) (message wrong_kind)
        ok (m, some signed.signer_pubkey)
      | err e ↦ do
        unsigned ← map_err wire_error (Message.decode text)
        m ← ok_or (pick unsigned) (message wrong_kind)
        ok (m, none)
    ]

    -- `if let Some(ref id) = identity { sign and encode } else { encode }`
    unfoldable pub message_text : ⦃p : PrettyWire⦄ → Option PartyIdentity → WireMessage → Text
    message_text ⦃p = p⦄ none m = p.pretty m
    message_text ⦃p = p⦄ (some party) m = p.signed_pretty (Message.sign m party)
