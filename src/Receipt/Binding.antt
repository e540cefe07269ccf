-- ===== src/Receipt/Binding.antt =====
-- What a receipt of crates/blindoverlap/src/receipt.rs binds its signer to.
use blind_overlap.Prelude.{◌≡◌, ◌↔◌, refl, sym, ◌∙◌, true, [], ◌∷◌, arith, ok}
use blind_overlap.Bytes.{Bytes, Text, eqb_iff}
use blind_overlap.Bytes.Encoding.{NoNul, nul_split, append-cancel}
use blind_overlap.Crypto.{Crypto, SignsSoundly}
use blind_overlap.Freshness.{SessionNonce, TranscriptDigest}
use blind_overlap.FactSet.Commitment.{Is32}
use blind_overlap.Protocol.{IntersectionMode, PsiResult}
use blind_overlap.Receipt.{ReceiptMode, receipt_mode_byte, ReceiptSigner, public_key, verify_bytes}
use blind_overlap.Receipt.WireBound
use blind_overlap.Receipt.WireBound.{
  WireBoundReceipt, verify_with_bindings, sign_wire_bound, wire_bound_domain,
}

-- The sizes that the Rust types give the fields, and a session identifier without a zero byte.
pub record IsSized (r : WireBoundReceipt) : Type 0 where
  pub session_id : NoNul r.session_id
  pub transcript_digest : Is32 r.transcript_digest
  pub initiator_nonce : Is32 r.initiator_nonce
  pub responder_nonce : Is32 r.responder_nonce
  pub set_root_a : Is32 r.set_root_a
  pub set_root_b : Is32 r.set_root_b
  pub result_commitment : Is32 r.result_commitment

mode_byte_injective : (m n : ReceiptMode) → receipt_mode_byte m ≡ receipt_mode_byte n → m ≡ n
unfolding receipt_mode_byte
mode_byte_injective ReceiptMode.intersection ReceiptMode.intersection e = refl
mode_byte_injective ReceiptMode.intersection ReceiptMode.cardinality e = absurd (omega arith)
mode_byte_injective ReceiptMode.cardinality ReceiptMode.intersection e = absurd (omega arith)
mode_byte_injective ReceiptMode.cardinality ReceiptMode.cardinality e = refl

-- Wire-bound receipts that are signed over the same bytes agree in every field that is signed, for
-- session identifiers without a zero byte.
message_bytes-injective :
    (r s : WireBoundReceipt)
    → IsSized r
    → IsSized s
    → WireBound.message_bytes r ≡ WireBound.message_bytes s
    → (r.version ≡ s.version)
      × (r.session_id ≡ s.session_id)
      × (r.transcript_digest ≡ s.transcript_digest)
      × (r.initiator_nonce ≡ s.initiator_nonce)
      × (r.responder_nonce ≡ s.responder_nonce)
      × (r.set_root_a ≡ s.set_root_a)
      × (r.set_root_b ≡ s.set_root_b)
      × (r.result_commitment ≡ s.result_commitment)
      × (r.mode ≡ s.mode)
unfolding WireBound.message_bytes
message_bytes-injective r s p q e =
    let e₁ = (append-cancel wire_bound_domain wire_bound_domain _ _ refl e).1 in
    let e₂ = append-cancel (r.version ∷ []) (s.version ∷ []) _ _ refl e₁ in
    let e₃ = nul_split r.session_id s.session_id _ _ p.session_id q.session_id e₂.1 in
    let e₄ =
      append-cancel r.transcript_digest s.transcript_digest _ _
        (p.transcript_digest ∙ sym q.transcript_digest) e₃.1 in
    let e₅ =
      append-cancel r.initiator_nonce s.initiator_nonce _ _
        (p.initiator_nonce ∙ sym q.initiator_nonce) e₄.1 in
    let e₆ =
      append-cancel r.responder_nonce s.responder_nonce _ _
        (p.responder_nonce ∙ sym q.responder_nonce) e₅.1 in
    let e₇ = append-cancel r.set_root_a s.set_root_a _ _ (p.set_root_a ∙ sym q.set_root_a) e₆.1 in
    let e₈ = append-cancel r.set_root_b s.set_root_b _ _ (p.set_root_b ∙ sym q.set_root_b) e₇.1 in
    let e₉ =
      append-cancel r.result_commitment s.result_commitment _ _
        (p.result_commitment ∙ sym q.result_commitment) e₈.1 in
    let version : r.version ≡ s.version = cc in
    let mode : receipt_mode_byte r.mode ≡ receipt_mode_byte s.mode = cc in
    (version, e₃.0, e₄.0, e₅.0, e₆.0, e₇.0, e₈.0, e₉.0, mode_byte_injective r.mode s.mode mode)

module _ ⦃c : Crypto⦄ where
  -- A wire-bound receipt passes the check of its bindings exactly if its key is valid and verifies
  -- the signature over its fields, and session, transcript and both roots are the expected ones.
  verify_with_bindings_iff :
      (r : WireBoundReceipt) (session_id : Text) (transcript : TranscriptDigest)
      (root_a root_b : Bytes)
      → (verify_with_bindings r session_id transcript root_a root_b ≡ ok tt) ↔ (
          (c.ed25519_valid r.signer_public_key ≡ true)
          × (c.ed25519_verify r.signer_public_key (WireBound.message_bytes r) r.signature ≡ true)
          × (r.session_id ≡ session_id)
          × (r.transcript_digest ≡ transcript)
          × (r.set_root_a ≡ root_a)
          × (r.set_root_b ≡ root_b))
  unfolding verify_with_bindings verify_bytes
  verify_with_bindings_iff r session_id transcript root_a root_b =
      let i₁ = eqb_iff r.session_id session_id in
      let i₂ = eqb_iff r.transcript_digest transcript in
      let i₃ = eqb_iff r.set_root_a root_a in
      let i₄ = eqb_iff r.set_root_b root_b in
      (
        λ h. (
          ground (arith, h),
          ground (arith, h),
          ground (arith, h, i₁),
          ground (arith, h, i₂),
          ground (arith, h, i₃),
          ground (arith, h, i₄),
        ),
        λ h. ground (arith, h.0, h.1, i₁.1 h.2, i₂.1 h.3, i₃.1 h.4, i₄.1 h.5),
      )

  -- What a signer signs passes the check of exactly the bindings that it was signed for, where
  -- Ed25519 accepts its own signatures.
  verify_with_bindings-sign_wire_bound :
      SignsSoundly c
      → (signer : ReceiptSigner) (session_id session_id' : Text)
        (transcript transcript' : TranscriptDigest) (n m : SessionNonce)
        (root_a root_b root_a' root_b' : Bytes) (result : PsiResult) (mode : IntersectionMode)
      → (verify_with_bindings
            (sign_wire_bound signer session_id transcript n m root_a root_b result mode)
            session_id'
            transcript'
            root_a'
            root_b'
          ≡ ok tt)
        ↔ ((session_id ≡ session_id')
            × (transcript ≡ transcript')
            × (root_a ≡ root_a')
            × (root_b ≡ root_b'))
  unfolding sign_wire_bound public_key WireBound.message_bytes
  verify_with_bindings-sign_wire_bound sound signer session_id session_id' transcript transcript' n
        m root_a root_b root_a' root_b' result mode =
      let r = sign_wire_bound signer session_id transcript n m root_a root_b result mode in
      let law = verify_with_bindings_iff r session_id' transcript' root_a' root_b' in
      (
        λ h. let l = law.0 h in (l.2, l.3, l.4, l.5),
        λ h.
            law.1
              (sound.valid_public signer.seed, sound.verifies signer.seed _, h.0, h.1, h.2, h.3),
      )
