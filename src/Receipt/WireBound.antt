-- ===== src/Receipt/WireBound.antt =====
-- `WireBoundReceipt` of crates/blindoverlap/src/receipt.rs.
use blind_overlap.Prelude.{ℕ, not, [], ◌∷◌, ◌++◌, Result, ◌>>◌, refuse}
use blind_overlap.Bytes.{Bytes, Text, ascii, eqb}
use blind_overlap.Crypto.{Crypto}
use blind_overlap.Freshness.{SessionNonce, TranscriptDigest}
use blind_overlap.Protocol.{IntersectionMode, PsiResult, commitment}
use blind_overlap.Receipt.{
  ReceiptError, commitment_mismatch, session_mismatch, transcript_mismatch, ReceiptMode,
  receipt_mode, receipt_mode_byte, ReceiptSigner, public_key, verify_bytes,
}

pub record WireBoundReceipt : Type 0 where
  pub version : ℕ
  pub session_id : Text
  pub transcript_digest : TranscriptDigest
  pub initiator_nonce : SessionNonce
  pub responder_nonce : SessionNonce
  pub set_root_a : Bytes
  pub set_root_b : Bytes
  pub result_commitment : Bytes
  pub mode : ReceiptMode
  pub signature : Bytes
  pub signer_public_key : Bytes

abbrev pub wire_bound_domain : Bytes
wire_bound_domain = ascii "BlindOverlap:WireBoundReceipt:v1"

unfoldable pub message_bytes : WireBoundReceipt → Bytes
message_bytes r =
    wire_bound_domain
    ++ (r.version
        ∷ (r.session_id
            ++ (0
                ∷ (r.transcript_digest
                    ++ (r.initiator_nonce
                        ++ (r.responder_nonce
                            ++ (r.set_root_a
                                ++ (r.set_root_b
                                    ++ (r.result_commitment
                                        ++ (receipt_mode_byte r.mode ∷ []))))))))))

module _ ⦃c : Crypto⦄ where
  unfoldable pub verify : WireBoundReceipt → Result ReceiptError Unit
  verify r = verify_bytes r.signer_public_key (message_bytes r) r.signature

  unfoldable pub verify_with_bindings :
      WireBoundReceipt → Text → TranscriptDigest → Bytes → Bytes → Result ReceiptError Unit
  unfolding verify
  verify_with_bindings r session_id transcript root_a root_b = do
    verify r
    refuse (not (eqb r.session_id session_id)) (session_mismatch session_id r.session_id)
    refuse (not (eqb r.transcript_digest transcript)) transcript_mismatch
    refuse (not (eqb r.set_root_a root_a))
        (commitment_mismatch (c.hex_encode root_a) (c.hex_encode r.set_root_a))
    refuse (not (eqb r.set_root_b root_b))
        (commitment_mismatch (c.hex_encode root_b) (c.hex_encode r.set_root_b))

  unfoldable pub receipt_id : WireBoundReceipt → Bytes
  receipt_id r =
      c.sha256 (ascii "BlindOverlap:WireBoundReceiptId:v1" ++ (message_bytes r ++ r.signature))

  unfoldable pub sign_wire_bound :
      ReceiptSigner
      → Text
      → TranscriptDigest
      → SessionNonce
      → SessionNonce
      → Bytes
      → Bytes
      → PsiResult
      → IntersectionMode
      → WireBoundReceipt
  unfolding message_bytes
  sign_wire_bound signer session_id transcript initiator_nonce responder_nonce root_a root_b result
        mode =
      let receipt : WireBoundReceipt = record {
        version = 1;
        session_id = session_id;
        transcript_digest = transcript;
        initiator_nonce = initiator_nonce;
        responder_nonce = responder_nonce;
        set_root_a = root_a;
        set_root_b = root_b;
        result_commitment = commitment result;
        mode = receipt_mode mode;
        signature = [];
        signer_public_key = public_key signer;
      } in
      record receipt { signature = c.ed25519_sign signer.seed (message_bytes receipt) }
