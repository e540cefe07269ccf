-- ===== src/Wire/Message.antt =====
-- `WireMessage` and `SignedWireMessage` of crates/blindoverlap/src/wire.rs.
use blind_overlap.Prelude.{
  ℕ, Bool, true, false, not, Option, ◌∷◌, ◌++◌, if◌then◌else◌, Result, ok, err, ◌>>=◌, ◌>>◌,
  map_err, ok_or,
}
use blind_overlap.Bytes.{Bytes, Text, ascii, eqb}
use blind_overlap.Crypto.{Crypto}
use blind_overlap.Identity
use blind_overlap.Identity.{PublicIdentity, PartyIdentity, Signature}
use blind_overlap.Wire.Common.{WireError, json, identity, peer_mismatch}
use blind_overlap.Wire.Offer
use blind_overlap.Wire.Offer.{MaskedSetOffer}
use blind_overlap.Wire.Reply
use blind_overlap.Wire.Reply.{MaskedSetReply}
use blind_overlap.Wire.Reveal
use blind_overlap.Wire.Reveal.{IntersectionReveal}
use blind_overlap.Wire.Abort
use blind_overlap.Wire.Abort.{AbortMessage}

pub data WireMessage : Type 0 where
  offer : MaskedSetOffer → WireMessage
  reply : MaskedSetReply → WireMessage
  reveal : IntersectionReveal → WireMessage
  abort : AbortMessage → WireMessage

unfoldable pub session_id : WireMessage → Text
session_id (offer m) = m.session_id
session_id (reply m) = m.session_id
session_id (reveal m) = m.session_id
session_id (abort m) = m.session_id

unfoldable pub tag : WireMessage → Text
tag (offer m) = m.tag
tag (reply m) = m.tag
tag (reveal m) = m.tag
tag (abort m) = m.tag

unfoldable pub validate : WireMessage → Result WireError Unit
validate (offer m) = Offer.validate m
validate (reply m) = Reply.validate m
validate (reveal m) = Reveal.validate m
validate (abort m) = Abort.validate m

unfoldable pub is_abort : WireMessage → Bool
is_abort (abort m) = true
is_abort _ = false

pub record SignedWireMessage : Type 0 where
  pub envelope_version : ℕ
  pub message : WireMessage
  pub signer_pubkey : PublicIdentity
  pub signature : Signature

-- serde_json on the two message types; serialization of either does not fail.
pub record WireCodec : Type 0 where
  pub to_string : WireMessage → Text
  pub from_str : Text → Option WireMessage
  pub signed_to_string : SignedWireMessage → Text
  pub signed_from_str : Text → Option SignedWireMessage

module _ ⦃c : Crypto⦄ ⦃w : WireCodec⦄ where
  unfoldable pub signing_payload : WireMessage → Bytes
  signing_payload m =
      ascii "BlindOverlap:SignedWireMessage:v1"
      ++ (0 ∷ (session_id m ++ (0 ∷ (tag m ++ (0 ∷ c.sha256 (w.to_string m))))))

  unfoldable pub sign : WireMessage → PartyIdentity → SignedWireMessage
  sign message party = record {
    envelope_version = 1;
    message = message;
    signer_pubkey = Identity.public party;
    signature = Identity.sign party (signing_payload message);
  }

  unfoldable pub verify_signature : SignedWireMessage → Result WireError Unit
  verify_signature s =
      map_err identity (Identity.verify s.signer_pubkey (signing_payload s.message) s.signature)

  unfoldable pub verify_peer : SignedWireMessage → PublicIdentity → Result WireError Unit
  unfolding verify_signature
  verify_peer s expected_peer =
      if not (eqb s.signer_pubkey expected_peer)
      then err (peer_mismatch (c.hex_encode expected_peer) (c.hex_encode s.signer_pubkey))
      else verify_signature s

  unfoldable pub encode : WireMessage → Result WireError Text
  encode message = ok (w.to_string message)

  unfoldable pub decode : Text → Result WireError WireMessage
  decode text = do message ← ok_or (w.from_str text) json; validate message; ok message

  unfoldable pub encode_signed : SignedWireMessage → Result WireError Text
  encode_signed signed = ok (w.signed_to_string signed)

  unfoldable pub decode_signed : Text → Result WireError SignedWireMessage
  decode_signed text = do
    signed ← ok_or (w.signed_from_str text) json
    validate signed.message
    verify_signature signed
    ok signed

  unfoldable pub decode_signed_from_peer :
      Text → PublicIdentity → Result WireError SignedWireMessage
  decode_signed_from_peer text expected_peer = do
    signed ← decode_signed text
    verify_peer signed expected_peer
    ok signed
