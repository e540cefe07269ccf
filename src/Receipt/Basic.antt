-- ===== src/Receipt/Basic.antt =====
-- `IntersectionReceipt` of crates/blindoverlap/src/receipt.rs.
use blind_overlap.Prelude.{ℕ, not, [], ◌∷◌, ◌++◌, Result, ◌>>◌, refuse}
use blind_overlap.Bytes.{Bytes, ascii, eqb}
use blind_overlap.Crypto.{Crypto}
use blind_overlap.Protocol.{IntersectionMode, PsiResult, commitment}
use blind_overlap.Receipt.{
  ReceiptError, commitment_mismatch, ReceiptMode, receipt_mode, receipt_mode_byte, ReceiptSigner,
  public_key, verify_bytes,
}

pub record IntersectionReceipt : Type 0 where
  pub version : ℕ
  pub set_root_a : Bytes
  pub set_root_b : Bytes
  pub result_commitment : Bytes
  pub mode : ReceiptMode
  pub signature : Bytes
  pub signer_public_key : Bytes

unfoldable pub message_bytes : IntersectionReceipt → Bytes
message_bytes r =
    r.version
    ∷ (r.set_root_a ++ (r.set_root_b ++ (r.result_commitment ++ (receipt_mode_byte r.mode ∷ []))))

module _ ⦃c : Crypto⦄ where
  unfoldable pub verify : IntersectionReceipt → Result ReceiptError Unit
  verify r = verify_bytes r.signer_public_key (message_bytes r) r.signature

  unfoldable pub verify_with_roots : IntersectionReceipt → Bytes → Bytes → Result ReceiptError Unit
  unfolding verify
  verify_with_roots r root_a root_b = do
    verify r
    refuse (not (eqb r.set_root_a root_a))
        (commitment_mismatch (c.hex_encode root_a) (c.hex_encode r.set_root_a))
    refuse (not (eqb r.set_root_b root_b))
        (commitment_mismatch (c.hex_encode root_b) (c.hex_encode r.set_root_b))

  unfoldable pub receipt_id : IntersectionReceipt → Bytes
  receipt_id r = c.sha256 (ascii "BlindOverlap:ReceiptId:v1" ++ (message_bytes r ++ r.signature))

  -- `ReceiptSigner::sign`
  unfoldable pub sign :
      ReceiptSigner → Bytes → Bytes → PsiResult → IntersectionMode → IntersectionReceipt
  unfolding message_bytes
  sign signer root_a root_b result mode =
      let receipt : IntersectionReceipt = record {
        version = 1;
        set_root_a = root_a;
        set_root_b = root_b;
        result_commitment = commitment result;
        mode = receipt_mode mode;
        signature = [];
        signer_public_key = public_key signer;
      } in
      record receipt { signature = c.ed25519_sign signer.seed (message_bytes receipt) }
