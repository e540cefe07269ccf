-- ===== src/Wire/Abort.antt =====
-- `AbortMessage` of crates/blindoverlap/src/wire.rs.
use blind_overlap.Prelude.{ℕ, not, Option, none, some, ◌==◌, Result, ◌>>◌, refuse}
use blind_overlap.Bytes.{Text, eqb}
use blind_overlap.Wire.Common.{WireError, invalid_tag, unsupported_version, abort_message_v1}

pub record AbortMessage : Type 0 where
  pub version : ℕ
  pub tag : Text
  pub session_id : Text
  pub reason_code : Text
  pub reason_text : Option Text
  pub issued_at : ℕ

unfoldable pub new : ℕ → Text → Text → AbortMessage
new now session_id reason_code = record {
  version = 1;
  tag = abort_message_v1;
  session_id = session_id;
  reason_code = reason_code;
  reason_text = none;
  issued_at = now;
}

unfoldable pub with_reason : ℕ → Text → Text → Text → AbortMessage
with_reason now session_id reason_code reason_text = record {
  version = 1;
  tag = abort_message_v1;
  session_id = session_id;
  reason_code = reason_code;
  reason_text = some reason_text;
  issued_at = now;
}

unfoldable pub validate : AbortMessage → Result WireError Unit
validate m = do
  refuse (not (eqb m.tag abort_message_v1)) (invalid_tag abort_message_v1 m.tag)
  refuse (not (m.version == 1)) (unsupported_version m.version)
