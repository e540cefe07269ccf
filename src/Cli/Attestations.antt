-- ===== src/Cli/Attestations.antt =====
-- The commands on attestations of crates/blindoverlap-cli/src/main.rs. The report that a verification
-- prints of an accepted attestation is left out: the command returns the attestation.
pub mod Accepted
use blind_overlap.Prelude.{
  ℕ, Bool, true, false, Option, none, some, List, [], ◌∷◌, if◌then◌else◌, is_some, Result, ok, err,
  ◌>>=◌, ◌>>◌, refuse, map_err, ok_or,
}
use blind_overlap.Bytes.{Bytes, Text, ascii, eqb}
use blind_overlap.Crypto.{Crypto}
use blind_overlap.AbortReceipt
use blind_overlap.AbortReceipt.{AbortReason, AbortReceipt}
use blind_overlap.Attestation
use blind_overlap.Attestation.{OverlapAttestation, is_dual_signed}
use blind_overlap.Freshness.{SessionNonce, TranscriptDigest, from_hex}
use blind_overlap.Identity
use blind_overlap.Json
use blind_overlap.Json.{Json, Fields, JsonLibrary}
use blind_overlap.Seal
use blind_overlap.Seal.{SealedSessionRecord, SessionStatus, MessageDirection}
use blind_overlap.Seal.Record
use blind_overlap.Seal.Record.{SealedSessionBuilder, new_builder, add_message_hash}
use blind_overlap.Cli.Common.{
  CliError, json, message, unknown_mode, abort_error, seal_error, attestation_error, Files, Effect,
  emit, Serde, StoredIdentity, decode_arg, load_identity, read_json, read_to_string, check_key,
  check_text,
}
use blind_overlap.Cli.Records.{parse_transcript}

module _ ⦃c : Crypto⦄ where
  -- The signed outcome of a mode.
  unfoldable pub signed_outcome :
      (now : ℕ)
      → Identity.PartyIdentity
      → (root_a root_b : Bytes) → (mode : Text) → (intersection_root_hex : Option Text)
      → (cardinality : Option ℕ) → (session : Option Text) → Option TranscriptDigest
      → (ttl_secs : ℕ) → Result CliError OverlapAttestation
  signed_outcome now identity root_a root_b mode intersection_root_hex cardinality session
        transcript ttl_secs =
      if eqb mode (ascii "intersection")
      then (do
        root_hex ←
            ok_or intersection_root_hex
              (message (ascii "intersection mode requires --intersection-root"))
        root ← decode_arg (ascii "intersection_root must be 32 bytes") root_hex
        ok (
            Attestation.sign_intersection now identity root_a root_b root session transcript
              ttl_secs))
      else if eqb mode (ascii "cardinality")
      then (do
        count ← ok_or cardinality (message (ascii "cardinality mode requires --cardinality"))
        ok (
            Attestation.sign_cardinality now identity root_a root_b count session transcript
              ttl_secs))
      else err (unknown_mode mode)

  unfoldable pub cmd_attest_sign :
      ⦃i : Serde StoredIdentity⦄
      → ⦃j : Serde OverlapAttestation⦄ → (now : ℕ) → Files
      → (root_a_hex root_b_hex mode : Text) → (intersection_root_hex : Option Text)
      → (cardinality : Option ℕ) → (session transcript_hex : Option Text) → (identity_path : Text)
      → (ttl_secs : ℕ) → (output : Option Text) → Result CliError (List Effect)
  unfolding signed_outcome
  cmd_attest_sign ⦃j = j⦄ now files root_a_hex root_b_hex mode intersection_root_hex cardinality
        session transcript_hex identity_path ttl_secs output =
      do
        root_a ← decode_arg (ascii "root_a must be 32 bytes") root_a_hex
        root_b ← decode_arg (ascii "root_b must be 32 bytes") root_b_hex
        identity ← load_identity files identity_path
        transcript ← parse_transcript transcript_hex
        attest ←
            signed_outcome now identity root_a root_b mode intersection_root_hex cardinality session
              transcript ttl_secs
        ok (emit output (j.to_string_pretty attest) ∷ [])

  -- `if verify_co_signature { if attest.is_dual_signed() { .. } else { warning } }`
  unfoldable pub check_co_signature : Bool → OverlapAttestation → Result CliError Unit
  check_co_signature false attest = ok tt
  check_co_signature true attest =
      if is_dual_signed attest
      then map_err attestation_error (Attestation.verify_co_signature attest)
      else ok tt

  unfoldable pub cmd_attest_verify :
      ⦃j : Serde OverlapAttestation⦄
      → (now : ℕ) → Files
      → (attestation_path : Text) → (expect_issuer_hex expect_session : Option Text)
      → (verify_co_signature : Bool) → Result CliError OverlapAttestation
  unfolding check_co_signature
  cmd_attest_verify now files attestation_path expect_issuer_hex expect_session
        verify_co_signature =
      do
        attest ← read_json {A = OverlapAttestation} files attestation_path
        map_err attestation_error (Attestation.verify now attest)
        check_key expect_issuer_hex
            λ expected. map_err attestation_error (Attestation.verify_issuer attest expected)
        check_text expect_session
            λ session. map_err attestation_error (Attestation.verify_session attest session)
        check_co_signature verify_co_signature attest
        ok attest
