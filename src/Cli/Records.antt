-- ===== src/Cli/Records.antt =====
-- The commands on abort receipts and session records of crates/blindoverlap-cli/src/main.rs. The
-- report that a verification prints of an accepted value is left out: the command returns the value.
pub mod Accepted
pub mod Nonces
use blind_overlap.Prelude.{
  ℕ, Bool, true, false, Option, none, some, List, [], ◌∷◌, ◌++◌, if◌then◌else◌, is_some, Result, ok,
  err, ◌>>=◌, ◌>>◌, refuse, map_err, ok_or,
}
use blind_overlap.Bytes.{Bytes, Text, ascii, eqb}
use blind_overlap.Crypto.{Crypto}
use blind_overlap.AbortReceipt
use blind_overlap.AbortReceipt.{AbortReason, AbortReceipt}
use blind_overlap.Attestation
use blind_overlap.Attestation.{OverlapAttestation, is_dual_signed}
use blind_overlap.Freshness.{SessionNonce, TranscriptDigest, from_hex}
use blind_overlap.Identity
use blind_overlap.Json
use blind_overlap.Json.{Json, Fields, JsonLibrary}
use blind_overlap.Seal
use blind_overlap.Seal.{SealedSessionRecord, SessionStatus, MessageDirection}
use blind_overlap.Seal.Record
use blind_overlap.Seal.Record.{SealedSessionBuilder, new_builder, add_message_hash}
use blind_overlap.Cli.Common.{
  CliError, json, message, unknown_mode, abort_error, seal_error, attestation_error, Files, Effect,
  emit, Serde, StoredIdentity, decode_arg, load_identity, read_json, read_to_string, check_key,
  check_text,
}

unfoldable pub parse_reason : Text → Result CliError AbortReason
parse_reason code =
    if eqb code (ascii "user_cancelled")
    then ok AbortReceipt.user_cancelled
    else if eqb code (ascii "timeout")
    then ok AbortReceipt.timeout
    else if eqb code (ascii "protocol_error")
    then ok AbortReceipt.protocol_error
    else if eqb code (ascii "network_error")
    then ok AbortReceipt.network_error
    else if eqb code (ascii "resource_exhaustion")
    then ok AbortReceipt.resource_exhaustion
    else if eqb code (ascii "policy_violation")
    then ok AbortReceipt.policy_violation
    else if eqb code (ascii "unknown")
    then ok AbortReceipt.unknown
    else if eqb code (ascii "custom")
    then ok AbortReceipt.custom
    else err (message (ascii "unknown reason code: " ++ code))

-- `value.get(key).and_then(|v| v.as_str())`
unfoldable pub get_str : Text → Json → Option Text
get_str key (Json.object fields) = elim (Json.get key fields) [
  | some (Json.string s) ↦ some s
  | _ ↦ none
]
get_str key _ = none

module _ ⦃c : Crypto⦄ where
  unfoldable pub parse_transcript : Option Text → Result CliError (Option TranscriptDigest)
  parse_transcript none = ok none
  parse_transcript (some s) = do
    bytes ← decode_arg (ascii "transcript must be 32 bytes") s
    ok (some bytes)

  unfoldable pub cmd_session_abort :
      ⦃i : Serde StoredIdentity⦄
      → ⦃j : Serde AbortReceipt⦄ → (now : ℕ) → Files
      → (session identity_path reason_code : Text)
      → (reason_text transcript_hex output : Option Text) → Result CliError (List Effect)
  cmd_session_abort ⦃j = j⦄ now files session identity_path reason_code reason_text transcript_hex
        output =
      do
        identity ← load_identity files identity_path
        reason ← parse_reason reason_code
        transcript ← parse_transcript transcript_hex
        ok (
            emit output (
              j.to_string_pretty
                (AbortReceipt.new now identity session reason reason_text transcript))
            ∷ [])

  unfoldable pub cmd_abort_verify :
      ⦃j : Serde AbortReceipt⦄
      → Files
      → (receipt_path : Text) → (expect_issuer_hex for_session : Option Text)
      → Result CliError AbortReceipt
  cmd_abort_verify files receipt_path expect_issuer_hex for_session = do
    receipt ← read_json {A = AbortReceipt} files receipt_path
    map_err abort_error (AbortReceipt.verify receipt)
    check_key expect_issuer_hex
        λ expected. map_err abort_error (AbortReceipt.verify_issuer receipt expected)
    check_text for_session
        λ session. map_err abort_error (AbortReceipt.verify_for_session receipt session)
    ok receipt

  -- `if let Some(nonce_hex) = .. { if let Ok(nonce) = SessionNonce::from_hex(nonce_hex) { .. } }`
  unfoldable pub nonce_of : Option Text → Option SessionNonce
  nonce_of none = none
  nonce_of (some s) = elim (from_hex s) [ ok nonce ↦ some nonce | err e ↦ none ]

  -- The hash of the message of a file, if there is one.
  unfoldable pub add_file :
      (now : ℕ)
      → Files
      → MessageDirection
      → Text
      → Option Text
      → SealedSessionBuilder
      → Result CliError SealedSessionBuilder
  add_file now files direction kind none b = ok b
  add_file now files direction kind (some path) b = do
    text ← read_to_string files path
    ok (add_message_hash now direction kind text b)

  -- `.session_id(..).protocol_version(2).status(..)` and the nonces of the state.
  unfoldable pub exported_builder : Text → (completed : Bool) → Json → SealedSessionBuilder
  exported_builder session_id completed state = record new_builder {
    session_id = some session_id;
    protocol_version = 2;
    status = if completed then Seal.completed else Seal.in_progress;
    initiator_nonce = nonce_of (get_str (ascii "nonce_hex") state);
    responder_nonce = nonce_of (get_str (ascii "initiator_nonce_hex") state);
  }

  -- Each `now` is the clock at one step; `built` and `sealed` are those of the export and the seal.
  unfoldable pub cmd_session_export :
      ⦃l : JsonLibrary⦄
      → ⦃i : Serde StoredIdentity⦄ → ⦃j : Serde SealedSessionRecord⦄
      → (now now' now'' started built sealed : ℕ) → Files
      → (session_id state_path : Text) → (offer_path reply_path reveal_path : Option Text)
      → (completed : Bool) → (identity_path output : Option Text) → Result CliError (List Effect)
  cmd_session_export ⦃l = l⦄ ⦃j = j⦄ now now' now'' started built sealed files session_id state_path
        offer_path reply_path reveal_path completed identity_path output =
      do
        state_json ← read_to_string files state_path
        state ← ok_or (l.parse state_json) json
        with_offer ←
            add_file now files Seal.sent (ascii "offer") offer_path
              (exported_builder session_id completed state)
        with_reply ← add_file now' files Seal.received (ascii "reply") reply_path with_offer
        builder ← add_file now'' files Seal.sent (ascii "reveal") reveal_path with_reply
        r ← elim identity_path [
          | none ↦ map_err seal_error (Record.build started built builder)
          | some path ↦ do
            identity ← load_identity files path
            map_err seal_error (
                Record.build_sealed started built sealed identity
                  (record builder { local_pubkey = some (Identity.public identity) }))
        ]
        ok (emit output (j.to_string_pretty r) ∷ [])

  -- The seal is checked where there is one.
  unfoldable pub check_seal : SealedSessionRecord → Option Text → Result CliError Unit
  check_seal r expect_sealer_hex =
      if is_some r.seal
      then elim expect_sealer_hex [
        | none ↦ map_err seal_error (Record.verify_seal r)
        | some s ↦
            check_key (some s) λ expected. map_err seal_error (Record.verify_seal_from r expected)
      ]
      else refuse (is_some expect_sealer_hex)
          (message (ascii "record is not sealed but expected sealer was specified"))

  unfoldable pub cmd_session_verify :
      ⦃j : Serde SealedSessionRecord⦄
      → Files
      → (record_path : Text) → (expect_sealer_hex : Option Text)
      → Result CliError SealedSessionRecord
  unfolding check_seal
  cmd_session_verify files record_path expect_sealer_hex = do
    r ← read_json {A = SealedSessionRecord} files record_path
    map_err seal_error (Record.verify_integrity r)
    check_seal r expect_sealer_hex
    ok r
