-- ===== src/AbortReceipt.antt =====
-- crates/blindoverlap/src/abort.rs: signed receipts of an aborted session.
pub mod Payload
pub mod Checks
use blind_overlap.Prelude.{
  ℕ, not, Option, none, some, List, [], ◌∷◌, ◌++◌, Result, ok, err, ◌>>=◌, ◌>>◌, refuse, map_err,
}
use blind_overlap.Bytes.{Bytes, Text, ascii, eqb}
use blind_overlap.Bytes.Encoding.{to_le_bytes}
use blind_overlap.Crypto.{Crypto}
use blind_overlap.Freshness.{TranscriptDigest}
use blind_overlap.Identity
use blind_overlap.Identity.{PublicIdentity, PartyIdentity, Signature}

pub data AbortReason : Type 0 where
  user_cancelled timeout protocol_error network_error resource_exhaustion policy_violation unknown
        custom :
      AbortReason

unfoldable pub code : AbortReason → Text
code user_cancelled = ascii "user_cancelled"
code timeout = ascii "timeout"
code protocol_error = ascii "protocol_error"
code network_error = ascii "network_error"
code resource_exhaustion = ascii "resource_exhaustion"
code policy_violation = ascii "policy_violation"
code unknown = ascii "unknown"
code custom = ascii "custom"

-- The errors of the checks; JSON and file errors belong to parts that are not modelled.
pub data AbortError : Type 0 where
  invalid_signature transcript_mismatch : AbortError
  issuer_mismatch session_mismatch : (expected got : Text) → AbortError

pub record AbortReceipt : Type 0 where
  pub version : ℕ
  pub session_id : Text
  pub issuer_pubkey : PublicIdentity
  pub reason : AbortReason
  pub reason_text : Option Text
  pub issued_at : ℕ
  pub transcript_digest : Option TranscriptDigest
  pub signature : Signature

-- An optional field: 1 and the bytes, or 0.
pub optional_part : Option Bytes → Bytes
optional_part (some b) = 1 ∷ b
optional_part none = 0 ∷ []

abbrev pub abort_receipt_domain : Bytes
abort_receipt_domain = ascii "BlindOverlap:AbortReceipt:v1"

unfoldable pub compute_payload :
    Text → PublicIdentity → AbortReason → Option Text → ℕ → Option TranscriptDigest → Bytes
unfolding optional_part
compute_payload session_id issuer reason reason_text issued_at transcript_digest =
    abort_receipt_domain
    ++ (0
        ∷ (session_id
            ++ (0
                ∷ (issuer
                    ++ (code reason
                        ++ (0
                            ∷ (optional_part reason_text
                                ++ (to_le_bytes 8 issued_at
                                    ++ optional_part transcript_digest))))))))

unfoldable pub payload_of : AbortReceipt → Bytes
unfolding compute_payload
payload_of r =
    compute_payload r.session_id r.issuer_pubkey r.reason r.reason_text r.issued_at
      r.transcript_digest

-- `if let Some(digest) = &self.transcript_digest { if digest != expected { .. } }`
unfoldable pub check_digest : Option TranscriptDigest → TranscriptDigest → Result AbortError Unit
check_digest none expected = ok tt
check_digest (some digest) expected = refuse (not (eqb digest expected)) transcript_mismatch

module _ ⦃c : Crypto⦄ where
  -- `AbortReceipt::new`
  unfoldable pub new :
      ℕ → PartyIdentity → Text → AbortReason → Option Text → Option TranscriptDigest → AbortReceipt
  new now issuer session_id reason reason_text transcript_digest = record {
    version = 1;
    session_id = session_id;
    issuer_pubkey = Identity.public issuer;
    reason = reason;
    reason_text = reason_text;
    issued_at = now;
    transcript_digest = transcript_digest;
    signature = Identity.sign issuer (
        compute_payload session_id (Identity.public issuer) reason reason_text now
          transcript_digest);
  }

  unfoldable pub simple : ℕ → PartyIdentity → Text → AbortReason → AbortReceipt
  unfolding new
  simple now issuer session_id reason = new now issuer session_id reason none none

  unfoldable pub with_reason : ℕ → PartyIdentity → Text → Text → AbortReceipt
  unfolding new
  with_reason now issuer session_id reason_text =
      new now issuer session_id custom (some reason_text) none

  unfoldable pub with_transcript :
      ℕ → PartyIdentity → Text → AbortReason → TranscriptDigest → AbortReceipt
  unfolding new
  with_transcript now issuer session_id reason transcript_digest =
      new now issuer session_id reason none (some transcript_digest)

  unfoldable pub verify : AbortReceipt → Result AbortError Unit
  unfolding payload_of
  verify r =
      map_err (λ e. invalid_signature) (Identity.verify r.issuer_pubkey (payload_of r) r.signature)

  unfoldable pub verify_issuer : AbortReceipt → PublicIdentity → Result AbortError Unit
  unfolding verify
  verify_issuer r expected_issuer = do
    verify r
    refuse (not (eqb r.issuer_pubkey expected_issuer))
        (issuer_mismatch (c.hex_encode expected_issuer) (c.hex_encode r.issuer_pubkey))

  unfoldable pub verify_for_session : AbortReceipt → Text → Result AbortError Unit
  unfolding verify
  verify_for_session r session_id = do
    verify r
    refuse (not (eqb r.session_id session_id)) (session_mismatch r.session_id session_id)

  unfoldable pub verify_transcript : AbortReceipt → TranscriptDigest → Result AbortError Unit
  unfolding verify check_digest
  verify_transcript r expected = do verify r; check_digest r.transcript_digest expected

  unfoldable pub receipt_id : AbortReceipt → Bytes
  receipt_id r = c.sha256 r.signature
