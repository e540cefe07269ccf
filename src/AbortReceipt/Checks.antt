-- ===== src/AbortReceipt/Checks.antt =====
-- Which abort receipts of crates/blindoverlap/src/abort.rs are accepted.
use blind_overlap.Prelude.{ℕ, ◌≡◌, ◌↔◌, refl, Option, none, some, arith, ok}
use blind_overlap.Bytes.{Text, eqb_iff}
use blind_overlap.Crypto.{Crypto, SignsSoundly}
use blind_overlap.Freshness.{TranscriptDigest}
use blind_overlap.Identity
use blind_overlap.Identity.{PublicIdentity, PartyIdentity, verify-sign}
use blind_overlap.AbortReceipt.{
  AbortReason, AbortReceipt, payload_of, check_digest, new, verify, verify_issuer,
  verify_for_session, verify_transcript,
}

-- The receipt names no transcript, or this one.
abbrev FitsTranscript : Option TranscriptDigest → TranscriptDigest → Type 0
FitsTranscript none d = Unit
FitsTranscript (some e) d = e ≡ d

module _ ⦃c : Crypto⦄ where
  -- The issuer's key verifies the signature over the fields of the receipt.
  pub IsAuthentic : AbortReceipt → Type 0
  IsAuthentic r = Identity.verify r.issuer_pubkey (payload_of r) r.signature ≡ ok tt

  check_digest_iff :
      (o : Option TranscriptDigest) (d : TranscriptDigest)
      → (check_digest o d ≡ ok tt) ↔ FitsTranscript o d
  unfolding check_digest
  check_digest_iff none d = (λ h. tt, λ h. refl)
  check_digest_iff (some e) d =
      (λ h. ground (arith, eqb_iff e d), λ h. ground (arith, eqb_iff e d, h))

  -- Each of the four checks accepts exactly the authentic receipts with what it asks for: nothing
  -- more, the expected issuer, the expected session, or a transcript that is the expected one if
  -- the receipt names any.
  checks_iff :
      (r : AbortReceipt) (issuer : PublicIdentity) (session_id : Text) (d : TranscriptDigest)
      → ((verify r ≡ ok tt) ↔ IsAuthentic r)
        × ((verify_issuer r issuer ≡ ok tt) ↔ (IsAuthentic r × (r.issuer_pubkey ≡ issuer)))
        × ((verify_for_session r session_id ≡ ok tt)
            ↔ (IsAuthentic r × (r.session_id ≡ session_id)))
        × ((verify_transcript r d ≡ ok tt) ↔ (IsAuthentic r × FitsTranscript r.transcript_digest d))
  unfolding IsAuthentic verify_issuer verify_for_session verify_transcript
  checks_iff r issuer session_id d =
      let i = eqb_iff r.issuer_pubkey issuer in
      let j = eqb_iff r.session_id session_id in
      let k = check_digest_iff r.transcript_digest d in
      (
        (λ h. ground (arith, h), λ h. ground (arith, h)),
        (λ h. (ground (arith, h), ground (arith, h, i)), λ h. ground (arith, h.0, i.1 h.1)),
        (λ h. (ground (arith, h), ground (arith, h, j)), λ h. ground (arith, h.0, j.1 h.1)),
        (
          λ h.
              let fits : check_digest r.transcript_digest d ≡ ok tt = ground (arith, h) in
              (ground (arith, h), k.0 fits),
          λ h. ground (arith, h.0, k.1 h.1),
        ),
      )

  new-IsAuthentic :
      SignsSoundly c
      → (now : ℕ) (issuer : PartyIdentity) (session_id : Text) (reason : AbortReason)
        (reason_text : Option Text) (d : Option TranscriptDigest)
      → IsAuthentic (new now issuer session_id reason reason_text d)
  unfolding IsAuthentic new payload_of
  new-IsAuthentic sound now issuer session_id reason reason_text d = verify-sign sound issuer _
