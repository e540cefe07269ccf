-- ===== src/Wire/Reply.antt =====
-- `MaskedSetReply` of crates/blindoverlap/src/wire.rs.
use blind_overlap.Prelude.{
  ℕ, Bool, not, ◌&&◌, ◌||◌, Option, none, some, List, leb, ◌==◌, is_some, if◌then◌else◌, Result, ok,
  ◌>>◌, refuse,
}
use blind_overlap.Bytes.{Text, ascii, eqb}
use blind_overlap.Freshness.{SessionNonce, SessionDeadline}
use blind_overlap.Protocol.{MaskedElement}
use blind_overlap.Wire.Common.{
  WireError, invalid_tag, versions_1_2, required, masked_set_reply_v1, masked_set_reply_v2,
}

pub record MaskedSetReply : Type 0 where
  pub version : ℕ
  pub tag : Text
  pub session_id : Text
  pub responder_masked : List MaskedElement
  pub initiator_doubly_masked : List MaskedElement
  pub initiator_nonce : Option SessionNonce
  pub responder_nonce : Option SessionNonce
  pub issued_at : Option ℕ
  pub expires_at : Option ℕ

unfoldable pub new : Text → List MaskedElement → List MaskedElement → MaskedSetReply
new session_id responder_masked initiator_doubly_masked = record {
  version = 1;
  tag = masked_set_reply_v1;
  session_id = session_id;
  responder_masked = responder_masked;
  initiator_doubly_masked = initiator_doubly_masked;
  initiator_nonce = none;
  responder_nonce = none;
  issued_at = none;
  expires_at = none;
}

unfoldable pub new_v2 :
    Text
    → List MaskedElement
    → List MaskedElement
    → SessionNonce
    → SessionNonce
    → SessionDeadline
    → MaskedSetReply
new_v2 session_id responder_masked initiator_doubly_masked initiator_nonce responder_nonce d =
    record {
      version = 2;
      tag = masked_set_reply_v2;
      session_id = session_id;
      responder_masked = responder_masked;
      initiator_doubly_masked = initiator_doubly_masked;
      initiator_nonce = some initiator_nonce;
      responder_nonce = some responder_nonce;
      issued_at = some d.issued_at;
      expires_at = some d.expires_at;
    }

unfoldable pub has_freshness : MaskedSetReply → Bool
has_freshness m =
    leb 2 m.version
    && is_some m.initiator_nonce
    && is_some m.responder_nonce
    && is_some m.issued_at
    && is_some m.expires_at

unfoldable pub validate : MaskedSetReply → Result WireError Unit
validate m = do
  refuse (not (eqb m.tag masked_set_reply_v1 || eqb m.tag masked_set_reply_v2))
      (invalid_tag masked_set_reply_v2 m.tag)
  versions_1_2 m.version
  if m.version == 2
      then (do
        required m.initiator_nonce (ascii "initiator_nonce")
        required m.responder_nonce (ascii "responder_nonce")
        required m.issued_at (ascii "issued_at")
        required m.expires_at (ascii "expires_at"))
      else ok tt
