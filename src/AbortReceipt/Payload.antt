-- ===== src/AbortReceipt/Payload.antt =====
-- What the signature of an abort receipt of crates/blindoverlap/src/abort.rs covers.
use blind_overlap.Prelude.{ℕ, ◌≡◌, refl, ap, sym, ◌∙◌, none, some, [], ◌∷◌, ◌++◌}
use blind_overlap.Bytes.{Bytes, Text}
use blind_overlap.Bytes.Encoding.{to_le_bytes}
use blind_overlap.Identity.{PublicIdentity}
use blind_overlap.AbortReceipt.{
  AbortReason, code, optional_part, abort_receipt_domain, compute_payload,
}

append_assoc : (xs ys zs : Bytes) → (xs ++ ys) ++ zs ≡ xs ++ (ys ++ zs)
append_assoc [] ys zs = refl
append_assoc (x ∷ xs) ys zs = ap (◌∷◌ x) (append_assoc xs ys zs)

-- The reason text is not delimited: where a transcript digest ends in a time and a zero byte, the
-- receipt that names it has the same signed bytes as one that names no transcript, with another time
-- and a longer text.
pub payload_ambiguous :
    (session_id : Text) (issuer : PublicIdentity) (reason : AbortReason) (text : Text)
    (issued_at issued_at' : ℕ) (start : Bytes)
    → compute_payload session_id issuer reason
        (some text)
        issued_at
        (some (start ++ (to_le_bytes 8 issued_at' ++ (0 ∷ []))))
      ≡ compute_payload session_id issuer reason
          (some (text ++ (to_le_bytes 8 issued_at ++ (1 ∷ start))))
          issued_at'
          none
unfolding compute_payload optional_part
payload_ambiguous session_id issuer reason text issued_at issued_at' start =
    ap
      (λ tail.
        abort_receipt_domain
        ++ (0 ∷ (session_id ++ (0 ∷ (issuer ++ (code reason ++ (0 ∷ (1 ∷ tail))))))))
      (sym (
        append_assoc text (to_le_bytes 8 issued_at ++ (1 ∷ start))
          (to_le_bytes 8 issued_at' ++ (0 ∷ []))
        ∙ ap (◌++◌ text) (
            append_assoc (to_le_bytes 8 issued_at) (1 ∷ start)
              (to_le_bytes 8 issued_at' ++ (0 ∷ [])))))
