-- ===== src/Cli/Receipts.antt =====
-- The commands on receipts of crates/blindoverlap-cli/src/main.rs. The report that a verification
-- prints of an accepted receipt is left out: the command returns the receipt.
pub mod Accepting
pub mod Pipeline
use blind_overlap.Prelude.{
  ℕ, Bool, true, false, not, Option, none, some, List, [], ◌∷◌, is_none, if◌then◌else◌, Result, ok,
  err, ◌>>=◌, ◌>>◌, refuse, map_err, ok_or,
}
use blind_overlap.Bytes.{Bytes, Text, ascii, eqb}
use blind_overlap.Crypto.{Crypto}
use blind_overlap.FactSet
use blind_overlap.FactSet.{FactId}
use blind_overlap.Freshness.{SessionNonce, TranscriptDigest, compute_digest}
use blind_overlap.Protocol.{IntersectionMode, PsiResult}
use blind_overlap.Receipt.{ReceiptSigner}
use blind_overlap.Receipt.Basic
use blind_overlap.Receipt.Basic.{IntersectionReceipt}
use blind_overlap.Receipt.WireBound
use blind_overlap.Receipt.WireBound.{WireBoundReceipt}
use blind_overlap.Session.Initiator.{or_generated}
use blind_overlap.Wire.Offer.{MaskedSetOffer}
use blind_overlap.Wire.Reply.{MaskedSetReply}
use blind_overlap.Wire.Message
use blind_overlap.Wire.Message.{WireMessage, WireCodec}
use blind_overlap.Cli.Common.{
  CliError, message, parse_int, receipt_error, wire_error, Files, Effect, emit, Serde, parse_mode,
  decode_arg, read_json, read_to_string, check_text,
}
use blind_overlap.Cli.Lines.{parse_usize}
use blind_overlap.Cli.FactFile.{load_fact_ids}
use blind_overlap.Cli.Online.{as_offer, as_reply}

module _ ⦃c : Crypto⦄ where
  -- `if Path::new(result).exists() { load_fact_ids(..)? } else { vec![] }`
  unfoldable pub ids_if_exists :
      (exists : Text → Bool) → Files → Text → Result CliError (List FactId)
  ids_if_exists exists files path = if exists path then load_fact_ids files path else ok []

  -- The result that a receipt is to commit to: a count, or the identifiers of a file.
  unfoldable pub parse_result :
      (exists : Text → Bool) → Files → IntersectionMode → Text → Result CliError PsiResult
  unfolding ids_if_exists
  parse_result exists files IntersectionMode.cardinality result = do
    count ← ok_or (parse_usize result) parse_int
    ok (PsiResult.cardinality count)
  parse_result exists files IntersectionMode.intersection result = do
    ids ← ids_if_exists exists files result
    ok (PsiResult.intersection ids (FactSet.from_ids ids).root)

  -- `random` is the seed that `ReceiptSigner::new` draws.
  unfoldable pub signer_of : (random : Bytes) → Option Text → Result CliError ReceiptSigner
  signer_of random none = ok (record { seed = random })
  signer_of random (some seed_hex) = do
    seed ← decode_arg (ascii "key_seed must be 32 bytes") seed_hex
    ok (record { seed = seed })

  -- `exists` tells whether a path exists, and `files` what it reads as.
  unfoldable pub cmd_receipt_sign :
      ⦃j : Serde IntersectionReceipt⦄
      → (random : Bytes) → (exists : Text → Bool) → Files
      → (root_a root_b result mode : Text) → (key_seed output : Option Text)
      → Result CliError (List Effect)
  cmd_receipt_sign ⦃j = j⦄ random exists files root_a_hex root_b_hex result mode key_seed output =
      do
        root_a ← decode_arg (ascii "root_a must be 32 bytes") root_a_hex
        root_b ← decode_arg (ascii "root_b must be 32 bytes") root_b_hex
        intersection_mode ← parse_mode mode
        psi_result ← parse_result exists files intersection_mode result
        signer ← signer_of random key_seed
        ok (
            emit output
              (j.to_string_pretty (Basic.sign signer root_a root_b psi_result intersection_mode))
            ∷ [])

  -- The roots are checked only if both are given.
  unfoldable pub check_receipt :
      IntersectionReceipt → (expect_root_a expect_root_b : Option Text) → Result CliError Unit
  check_receipt receipt (some a) (some b) = do
    root_a ← decode_arg (ascii "expect_root_a must be 32 bytes") a
    root_b ← decode_arg (ascii "expect_root_b must be 32 bytes") b
    map_err receipt_error (Basic.verify_with_roots receipt root_a root_b)
  check_receipt receipt (some a) none = map_err receipt_error (Basic.verify receipt)
  check_receipt receipt none b = map_err receipt_error (Basic.verify receipt)

  unfoldable pub cmd_receipt_verify :
      ⦃j : Serde IntersectionReceipt⦄
      → Files
      → (receipt_path : Text) → (expect_root_a expect_root_b : Option Text)
      → Result CliError IntersectionReceipt
  cmd_receipt_verify files receipt_path expect_root_a expect_root_b = do
    receipt ← read_json {A = IntersectionReceipt} files receipt_path
    check_receipt receipt expect_root_a expect_root_b
    ok receipt

  module _ ⦃w : WireCodec⦄ where
    -- The unsigned message of a file, of the kind that `pick` finds.
    unfoldable pub read_message :
        {M : Type 0} → (WireMessage → Option M) → Text → Files → Text → Result CliError M
    read_message pick wrong_kind files path = do
      text ← read_to_string files path
      decoded ← map_err wire_error (Message.decode text)
      ok_or (pick decoded) (message wrong_kind)

    unfoldable pub read_offer : Files → Text → Result CliError MaskedSetOffer
    read_offer files path = read_message as_offer (ascii "expected offer message") files path

    unfoldable pub read_reply : Files → Text → Result CliError MaskedSetReply
    read_reply files path = read_message as_reply (ascii "expected reply message") files path

    -- `TranscriptDigest::compute` of the two messages.
    unfoldable pub transcript_of :
        Text → SessionNonce → SessionNonce → MaskedSetOffer → MaskedSetReply → TranscriptDigest
    transcript_of session initiator_nonce responder_nonce offer reply = compute_digest (record {
      session_id = session;
      initiator_nonce = initiator_nonce;
      responder_nonce = some responder_nonce;
      offer_elements = offer.masked_elements;
      reply_responder_masked = some reply.responder_masked;
      reply_initiator_doubly_masked = some reply.initiator_doubly_masked;
    })

    -- `fresh_a` and `fresh_b` are drawn for messages without nonces.
    unfoldable pub cmd_wire_bound_sign :
        ⦃j : Serde WireBoundReceipt⦄
        → (random : Bytes) → (fresh_a fresh_b : SessionNonce) → (exists : Text → Bool) → Files
        → (session offer_path reply_path root_a root_b result mode : Text)
        → (key_seed output : Option Text) → Result CliError (List Effect)
    cmd_wire_bound_sign ⦃j = j⦄ random fresh_a fresh_b exists files session offer_path reply_path
          root_a_hex root_b_hex result mode key_seed output =
        do
          offer ← read_offer files offer_path
          reply ← read_reply files reply_path
          let initiator_nonce = or_generated offer.nonce fresh_a
          let responder_nonce = or_generated reply.responder_nonce fresh_b
          let transcript = transcript_of session initiator_nonce responder_nonce offer reply
          root_a ← decode_arg (ascii "root_a must be 32 bytes") root_a_hex
          root_b ← decode_arg (ascii "root_b must be 32 bytes") root_b_hex
          intersection_mode ← parse_mode mode
          psi_result ← parse_result exists files intersection_mode result
          signer ← signer_of random key_seed
          ok (
              emit output (
                j.to_string_pretty (
                  WireBound.sign_wire_bound signer session transcript initiator_nonce
                    responder_nonce root_a root_b psi_result intersection_mode))
              ∷ [])

    -- The transcript is checked only if both messages are given.
    unfoldable pub check_transcript :
        Files → WireBoundReceipt → (offer_path reply_path : Option Text) → Result CliError Unit
    check_transcript files receipt (some offer_path) (some reply_path) = do
      offer ← read_offer files offer_path
      reply ← read_reply files reply_path
      refuse
          (not (
            eqb receipt.transcript_digest (
              transcript_of receipt.session_id receipt.initiator_nonce receipt.responder_nonce offer
                reply)))
          (message (ascii "transcript digest mismatch"))
    check_transcript files receipt (some offer_path) none = ok tt
    check_transcript files receipt none reply_path = ok tt

  -- The roots are checked only if both are given; the texts of the errors leave the values out.
  unfoldable pub check_roots :
      WireBoundReceipt → (expect_root_a expect_root_b : Option Text) → Result CliError Unit
  check_roots receipt (some a) (some b) = do
    root_a ← decode_arg (ascii "expect_root_a must be 32 bytes") a
    root_b ← decode_arg (ascii "expect_root_b must be 32 bytes") b
    refuse (not (eqb receipt.set_root_a root_a)) (message (ascii "root_a mismatch"))
    refuse (not (eqb receipt.set_root_b root_b)) (message (ascii "root_b mismatch"))
  check_roots receipt (some a) none = ok tt
  check_roots receipt none b = ok tt

  unfoldable pub cmd_wire_bound_verify :
      ⦃w : WireCodec⦄
      → ⦃j : Serde WireBoundReceipt⦄ → Files
      → (receipt_path : Text)
      → (expect_session offer_path reply_path expect_root_a expect_root_b : Option Text)
      → Result CliError WireBoundReceipt
  cmd_wire_bound_verify files receipt_path expect_session offer_path reply_path expect_root_a
        expect_root_b =
      do
        receipt ← read_json {A = WireBoundReceipt} files receipt_path
        map_err receipt_error (WireBound.verify receipt)
        check_text expect_session λ expected.
            refuse (not (eqb receipt.session_id expected)) (message (ascii "session ID mismatch"))
        check_transcript files receipt offer_path reply_path
        check_roots receipt expect_root_a expect_root_b
        ok receipt
