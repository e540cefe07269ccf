-- ===== src/Attestation/Signatures.antt =====
-- Which attestations of crates/blindoverlap/src/attest.rs are accepted, and when.
use blind_overlap.Prelude.{
  ℕ, ◌+◌, ◌<◌, ◌≡◌, ◌↔◌, refl, true, false, Option, none, ◌++◌, arith, ok, is_ok,
}
use blind_overlap.Bytes.{Bytes, Text, eqb_iff}
use blind_overlap.Crypto.{Crypto, SignsSoundly}
use blind_overlap.Freshness.{TranscriptDigest, u64_max, saturating_add}
use blind_overlap.Identity
use blind_overlap.Identity.{PublicIdentity, PartyIdentity, verify-sign}
use blind_overlap.Attestation.{
  OverlapAttestation, attestation_domain, body_input, signing_body, verify_with_domain,
  sign_with_domain, sign_intersection, sign_cardinality, verify_full, co_sign, verify_co_signature,
  is_dual_signed,
}

module _ ⦃c : Crypto⦄ where
  -- A full verification succeeds exactly before the expiry, if the key of the issuer verifies the
  -- signature over the hash of the attestation's fields, and is the expected one.
  verify_full_iff_attestation :
      (now : ℕ) (a : OverlapAttestation) (issuer : PublicIdentity)
      → (verify_full now a issuer ≡ ok tt) ↔ (
          (now < a.expires_at)
          × (Identity.verify a.issuer_pubkey
                (attestation_domain ++ c.sha256 (body_input a))
                a.signature
              ≡ ok tt)
          × (a.issuer_pubkey ≡ issuer))
  unfolding verify_full verify_with_domain signing_body
  verify_full_iff_attestation now a issuer =
      let i = eqb_iff a.issuer_pubkey issuer in
      (
        λ h. (ground (arith, h), ground (arith, h), ground (arith, h, i)),
        λ h. ground (arith, h.0, h.1, i.1 h.2),
      )

  -- What a party signs, of either mode, is accepted from that party exactly until the time to live
  -- has passed or the clock reaches the largest `u64`, where Ed25519 accepts its own signatures.
  verify_full-sign :
      SignsSoundly c
      → (now t ttl_secs count : ℕ) (party : PartyIdentity) (root_a root_b root : Bytes)
        (session_id : Option Text) (transcript : Option TranscriptDigest)
      → ((verify_full t
              (sign_intersection now party root_a root_b root session_id transcript ttl_secs)
              (Identity.public party)
            ≡ ok tt)
          ↔ ((t < now + ttl_secs) × (t < u64_max)))
        × ((verify_full t
                (sign_cardinality now party root_a root_b count session_id transcript ttl_secs)
                (Identity.public party)
              ≡ ok tt)
            ↔ ((t < now + ttl_secs) × (t < u64_max)))
  unfolding sign_intersection sign_cardinality signing_body sign_with_domain body_input
  verify_full-sign sound now t ttl_secs count party root_a root_b root session_id transcript =
      let a = sign_intersection now party root_a root_b root session_id transcript ttl_secs in
      let b = sign_cardinality now party root_a root_b count session_id transcript ttl_secs in
      let la = verify_full_iff_attestation t a (Identity.public party) in
      let lb = verify_full_iff_attestation t b (Identity.public party) in
      (
        (
          λ h.
              let before : t < saturating_add now ttl_secs = (la.0 h).0 in
              (ground arith, ground arith),
          λ h. la.1 (ground arith, verify-sign sound party _, refl),
        ),
        (
          λ h.
              let before : t < saturating_add now ttl_secs = (lb.0 h).0 in
              (ground arith, ground arith),
          λ h. lb.1 (ground arith, verify-sign sound party _, refl),
        ),
      )

  -- A co-signature is accepted where Ed25519 accepts its own signatures. It makes the attestation
  -- count as signed by both, and changes no verification of the issuer's own signature. Without a
  -- co-signer there is none to accept.
  verify_co_signature-co_sign :
      SignsSoundly c
      → (co_signer : PartyIdentity) (a : OverlapAttestation) (now : ℕ) (issuer : PublicIdentity)
      → (verify_co_signature (co_sign co_signer a) ≡ ok tt)
        × (is_dual_signed (co_sign co_signer a) ≡ true)
        × (verify_full now (co_sign co_signer a) issuer ≡ verify_full now a issuer)
        × (a.co_signer_pubkey ≡ none → is_ok (verify_co_signature a) ≡ false)
  unfolding verify_co_signature co_sign verify_with_domain sign_with_domain is_dual_signed
      verify_full signing_body body_input
  verify_co_signature-co_sign sound co_signer a now issuer = (
    ground (arith, verify-sign sound co_signer (attestation_domain ++ c.sha256 (body_input a))),
    refl,
    refl,
    λ h. ground (arith, h),
  )
