-- ===== src/Tests/Receipts.antt =====
-- Receipts of intersections and of aborted sessions.
use blind_overlap.Prelude.{ℕ, ◌≡◌, some, none, [], ◌∷◌, ◌++◌}
use blind_overlap.Bytes.{Bytes, ascii}
use blind_overlap.Bytes.Encoding.{to_le_bytes}
use blind_overlap.Receipt.{ReceiptSigner, ReceiptMode}
use blind_overlap.Receipt.WireBound.{WireBoundReceipt}
use blind_overlap.AbortReceipt
use blind_overlap.AbortReceipt.{AbortReason, AbortReceipt, compute_payload}
use blind_overlap.AbortReceipt.Payload.{payload_ambiguous}
use blind_overlap.Tests.Common.{id_of, toy_crypto}

abbrev signer : ReceiptSigner
signer = record { seed = id_of 1 }

-- 32 bytes.
abbrev wide : ℕ → Bytes
wide n =
    n ∷ 0 ∷ 0 ∷ 0 ∷ 0 ∷ 0 ∷ 0 ∷ 0 ∷ 0 ∷ 0 ∷ 0 ∷ 0 ∷ 0 ∷ 0 ∷ 0 ∷ 0 ∷ 0 ∷ 0 ∷ 0 ∷ 0 ∷ 0 ∷ 0 ∷ 0 ∷ 0
    ∷ 0 ∷ 0 ∷ 0 ∷ 0 ∷ 0 ∷ 0 ∷ 0 ∷ 0 ∷ []

abbrev receipt : WireBoundReceipt
receipt = record {
  version = 1;
  session_id = ascii "s1";
  transcript_digest = wide 3;
  initiator_nonce = wide 4;
  responder_nonce = wide 5;
  set_root_a = wide 6;
  set_root_b = wide 7;
  result_commitment = wide 8;
  mode = ReceiptMode.cardinality;
  signature = [];
  signer_public_key = id_of 1;
}

abbrev aborted : AbortReceipt
aborted =
    AbortReceipt.with_transcript 100 (record { seed = id_of 1 }) (ascii "s1") AbortReason.timeout
      (id_of 3)

-- A digest of 32 bytes: 23 letters, the time 100 and a zero byte.
abbrev start : Bytes
start = ascii "twenty-three characters"

payload_ambiguous_example :
    compute_payload
      (ascii "s1")
      (id_of 1)
      AbortReason.custom
      (some (ascii "stop"))
      90
      (some (start ++ (to_le_bytes 8 100 ++ (0 ∷ []))))
    ≡ compute_payload
        (ascii "s1")
        (id_of 1)
        AbortReason.custom
        (some (ascii "stop" ++ (to_le_bytes 8 90 ++ (1 ∷ start))))
        100
        none
payload_ambiguous_example =
    payload_ambiguous (ascii "s1") (id_of 1) AbortReason.custom (ascii "stop") 90 100 start
