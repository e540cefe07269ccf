-- ===== src/Receipt.antt =====
-- crates/blindoverlap/src/receipt.rs: signed receipts of an intersection.
pub mod Basic
pub mod WireBound
pub mod Binding
use blind_overlap.Prelude.{ℕ, Bool, true, false, if◌then◌else◌, Result, ok, err}
use blind_overlap.Bytes.{Bytes, Text}
use blind_overlap.Crypto.{Crypto}
use blind_overlap.Protocol.{IntersectionMode}

-- The text that ed25519-dalek gives with an error is left out.
pub data ReceiptError : Type 0 where
  invalid_signature verification_failed invalid_public_key transcript_mismatch : ReceiptError
  commitment_mismatch : (expected actual : Text) → ReceiptError
  session_mismatch : (expected got : Text) → ReceiptError

pub data ReceiptMode : Type 0 where
  intersection cardinality : ReceiptMode

-- `From<IntersectionMode> for ReceiptMode`
unfoldable pub receipt_mode : IntersectionMode → ReceiptMode
receipt_mode IntersectionMode.intersection = ReceiptMode.intersection
receipt_mode IntersectionMode.cardinality = ReceiptMode.cardinality

pub receipt_mode_byte : ReceiptMode → ℕ
receipt_mode_byte ReceiptMode.intersection = 0
receipt_mode_byte ReceiptMode.cardinality = 1

-- The signing key is the seed that it is made from.
pub record ReceiptSigner : Type 0 where
  pub seed : Bytes

module _ ⦃c : Crypto⦄ where
  unfoldable pub public_key : ReceiptSigner → Bytes
  public_key s = c.ed25519_public s.seed

  -- The body that the two `verify` share: a key, what it signs, and the signature.
  unfoldable pub verify_bytes : Bytes → Bytes → Bytes → Result ReceiptError Unit
  verify_bytes key message signature =
      if c.ed25519_valid key
      then (if c.ed25519_verify key message signature then ok tt else err verification_failed)
      else err invalid_public_key
