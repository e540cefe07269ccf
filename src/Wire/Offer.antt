-- ===== src/Wire/Offer.antt =====
-- `MaskedSetOffer` of crates/blindoverlap/src/wire.rs.
use blind_overlap.Prelude.{
  ℕ, Bool, not, ◌&&◌, ◌||◌, Option, none, some, List, leb, ◌==◌, is_some, if◌then◌else◌, Result, ok,
  ◌>>◌, refuse,
}
use blind_overlap.Bytes.{Text, ascii, eqb}
use blind_overlap.Freshness.{SessionNonce, SessionDeadline}
use blind_overlap.Protocol.{MaskedElement}
use blind_overlap.Wire.Common.{
  WireError, invalid_tag, versions_1_2, required, masked_set_offer_v1, masked_set_offer_v2,
}

pub record MaskedSetOffer : Type 0 where
  pub version : ℕ
  pub tag : Text
  pub session_id : Text
  pub masked_elements : List MaskedElement
  pub nonce : Option SessionNonce
  pub issued_at : Option ℕ
  pub expires_at : Option ℕ

unfoldable pub new : Text → List MaskedElement → MaskedSetOffer
new session_id masked_elements = record {
  version = 1;
  tag = masked_set_offer_v1;
  session_id = session_id;
  masked_elements = masked_elements;
  nonce = none;
  issued_at = none;
  expires_at = none;
}

unfoldable pub new_v2 : Text → List MaskedElement → SessionNonce → SessionDeadline → MaskedSetOffer
new_v2 session_id masked_elements nonce d = record {
  version = 2;
  tag = masked_set_offer_v2;
  session_id = session_id;
  masked_elements = masked_elements;
  nonce = some nonce;
  issued_at = some d.issued_at;
  expires_at = some d.expires_at;
}

unfoldable pub has_freshness : MaskedSetOffer → Bool
has_freshness m = leb 2 m.version && is_some m.nonce && is_some m.issued_at && is_some m.expires_at

unfoldable pub validate : MaskedSetOffer → Result WireError Unit
validate m = do
  refuse (not (eqb m.tag masked_set_offer_v1 || eqb m.tag masked_set_offer_v2))
      (invalid_tag masked_set_offer_v2 m.tag)
  versions_1_2 m.version
  if m.version == 2
      then (do
        required m.nonce (ascii "nonce")
        required m.issued_at (ascii "issued_at")
        required m.expires_at (ascii "expires_at"))
      else ok tt
