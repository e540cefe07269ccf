-- ===== src/Cli/Records/Accepted.antt =====
-- What is written by `session-abort` is accepted, and the nonces of an exported session.
use blind_overlap.Prelude.{ℕ, ◌≡◌, Bool, Option, some, List, [], ◌∷◌, arith, length, ok}
use blind_overlap.Bytes.{Text, ascii, eqb_refl}
use blind_overlap.Crypto.{Crypto, SignsSoundly, HexRoundTrips}
use blind_overlap.AbortReceipt
use blind_overlap.AbortReceipt.{AbortReason, AbortReceipt}
use blind_overlap.Freshness.{SessionNonce, TranscriptDigest, from_hex}
use blind_overlap.Identity
use blind_overlap.Identity.{PartyIdentity, verify-sign}
use blind_overlap.Json
use blind_overlap.Json.{Json, Fields}
use blind_overlap.Cli.Common.{
  Files, Effect, emit, perform, write_file, Serde, ReadsBack, StoredIdentity, load_identity,
  read_json, read_to_string, check_key, read-write,
}
use blind_overlap.Cli.Records.{
  parse_reason, get_str, parse_transcript, cmd_session_abort, cmd_abort_verify, nonce_of,
  exported_builder,
}

module _ ⦃c : Crypto⦄ where
  -- An identity, a reason and a transcript that can be read: `session-abort` writes a receipt that
  -- `abort-verify` accepts for the same session and for the hex key of the identity, provided that
  -- Ed25519 accepts its own signatures, that the key is read from its hex text and that the JSON of the
  -- receipt is read back.
  cmd_session_abort-verify :
      ⦃i : Serde StoredIdentity⦄
      → ⦃j : Serde AbortReceipt⦄ → SignsSoundly c
      → (now : ℕ) (files : Files) (session identity_path code out key_hex : Text)
        (reason_text transcript_hex : Option Text) (identity : PartyIdentity) (reason : AbortReason)
        (transcript : Option TranscriptDigest)
      → load_identity files identity_path ≡ ok identity
      → parse_reason code ≡ ok reason
      → parse_transcript transcript_hex ≡ ok transcript
      → Identity.public_from_hex key_hex ≡ ok (Identity.public identity)
      → ReadsBack j (AbortReceipt.new now identity session reason reason_text transcript)
      → (effects : List Effect) × (cmd_session_abort now files session identity_path code
            reason_text transcript_hex
            (some out)
          ≡ ok effects)
        × (cmd_abort_verify (perform effects files) out (some key_hex) (some session)
            ≡ ok (AbortReceipt.new now identity session reason reason_text transcript))
  unfolding cmd_session_abort cmd_abort_verify emit read_json read_to_string check_key
      AbortReceipt.verify_issuer AbortReceipt.verify_for_session AbortReceipt.verify
      AbortReceipt.new AbortReceipt.payload_of
  cmd_session_abort-verify ⦃j = j⦄ sound now files session identity_path code out key_hex
        reason_text transcript_hex identity reason transcript identity_is reason_is transcript_is
        key_is back =
      let receipt = AbortReceipt.new now identity session reason reason_text transcript in
      let content = j.to_string_pretty receipt in
      (
        write_file out content ∷ [],
        ground (arith, identity_is, reason_is, transcript_is),
        ground (
          arith,
          read-write out content files,
          back,
          key_is,
          verify-sign sound identity (AbortReceipt.payload_of receipt),
          eqb_refl session,
          eqb_refl (Identity.public identity),
        ),
      )

  -- A state that holds the two nonces as `online-reply` writes them, the responder's own under
  -- `nonce_hex`, with 32 bytes each: the exported session has the two nonces in each other's place,
  -- provided that hex text is decoded as what it encodes.
  pub exported_builder_swaps :
      HexRoundTrips c
      → (session : Text) (completed : Bool) (entries : Fields) (responder initiator : SessionNonce)
      → length responder ≡ 32
      → length initiator ≡ 32
      → Json.get (ascii "nonce_hex") entries ≡ some (Json.string (c.hex_encode responder))
      → Json.get (ascii "initiator_nonce_hex") entries ≡ some (Json.string (c.hex_encode initiator))
      → ((exported_builder session completed (Json.object entries)).initiator_nonce
          ≡ some responder)
        × ((exported_builder session completed (Json.object entries)).responder_nonce
            ≡ some initiator)
  unfolding exported_builder get_str nonce_of from_hex
  exported_builder_swaps reads session completed entries responder initiator size_r size_i at_r
        at_i =
      (ground (arith, reads responder, size_r, at_r), ground (arith, reads initiator, size_i, at_i))
