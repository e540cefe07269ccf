-- ===== src/Seal/Verification.antt =====
-- What the seal of a record of crates/blindoverlap/src/seal.rs proves, and what it does not cover.
use blind_overlap.Prelude.{
  ℕ, ◌≡◌, ◌↔◌, refl, ap, map, length-map, [], Option, none, some, List, ◌∷◌, ◌++◌, arith, ok,
}
use blind_overlap.Bytes.{Text, eqb_iff}
use blind_overlap.Bytes.Encoding.{to_le_bytes}
use blind_overlap.Crypto.{Crypto, SignsSoundly}
use blind_overlap.Freshness.{SessionNonce}
use blind_overlap.Identity
use blind_overlap.Identity.{PublicIdentity, PartyIdentity, verify-sign}
use blind_overlap.Receipt.WireBound.{WireBoundReceipt}
use blind_overlap.Seal.{
  SealedSessionRecord, RecordSeal, WireMessageEntry, sealed_record_domain, compute_body_digest,
  message_parts, direction_byte, body_digest_input,
}
use blind_overlap.Seal.Record.{
  SealedSessionBuilder, assemble, started_or, build, add_seal, build_sealed, seal_payload,
  verify_seal_from,
}

-- Other values for what the digest of a message leaves out.
pub record Retouched : Type 0 where
  pub message_type : Text
  pub timestamp : ℕ
  pub size_bytes : ℕ
  pub content : Option Text

abbrev pub retouch : (WireMessageEntry → Retouched) → WireMessageEntry → WireMessageEntry
retouch f m = record m {
  message_type = (f m).message_type;
  timestamp = (f m).timestamp;
  size_bytes = (f m).size_bytes;
  content = (f m).content;
}

message_parts-retouch :
    (f : WireMessageEntry → Retouched) (l : List WireMessageEntry)
    → message_parts (map (retouch f) l) ≡ message_parts l
unfolding message_parts
message_parts-retouch f [] = refl
message_parts-retouch f (m ∷ l) =
    ap (λ rest. to_le_bytes 4 m.sequence ++ (direction_byte m.direction ∷ (m.message_hash ++ rest)))
      (message_parts-retouch f l)

module _ ⦃c : Crypto⦄ where
  -- A seal is accepted as that of a signer exactly if the record is sealed by this signer, its body
  -- digest is that of its fields, and the signer's key verifies the signature over the digest.
  verify_seal_from_iff :
      (r : SealedSessionRecord) (seal : RecordSeal) (signer : PublicIdentity)
      → r.seal ≡ some seal
      → (verify_seal_from r signer ≡ ok tt) ↔ (
          (seal.sealer_pubkey ≡ signer)
          × (compute_body_digest r.session_id r.protocol_version r.status r.started_at
                r.local_pubkey r.peer_pubkey r.messages r.transcript_digest
              ≡ r.body_digest)
          × (Identity.verify signer (sealed_record_domain ++ r.body_digest) seal.signature ≡ ok tt))
  unfolding verify_seal_from seal_payload
  verify_seal_from_iff r seal signer sealed =
      let digest =
        compute_body_digest r.session_id r.protocol_version r.status r.started_at r.local_pubkey
          r.peer_pubkey r.messages r.transcript_digest in
      let i = eqb_iff seal.sealer_pubkey signer in
      let j = eqb_iff digest r.body_digest in
      (
        λ h. (
          ground (arith, h, sealed, i),
          ground (arith, h, sealed, j),
          ground (arith, h, sealed, i),
        ),
        λ h. ground (arith, sealed, i.1 h.0, j.1 h.1, h.0, h.2),
      )

  -- The seal that `seal` adds.
  seal_of : ℕ → PartyIdentity → SealedSessionRecord → RecordSeal
  seal_of now party r = record {
    sealer_pubkey = Identity.public party;
    sealed_at = now;
    signature = Identity.sign party (seal_payload r);
  }

  -- Whatever a builder holds, if it has a session identifier, then building and sealing it gives a
  -- record of that session which is accepted as sealed by the sealing party, where Ed25519 accepts
  -- its own signatures; without a session identifier it gives no record.
  verify_seal_from-build_sealed :
      SignsSoundly c
      → (now now' now'' : ℕ) (party : PartyIdentity) (b : SealedSessionBuilder)
      → ((id : Text)
          → b.session_id ≡ some id
          → (r : SealedSessionRecord) × (build_sealed now now' now'' party b ≡ ok r)
            × (r.session_id ≡ id)
            × (r.messages ≡ b.messages)
            × (verify_seal_from r (Identity.public party) ≡ ok tt))
        × (b.session_id ≡ none
            → (r : SealedSessionRecord) → ¬ (build_sealed now now' now'' party b ≡ ok r))
  unfolding build_sealed build add_seal assemble seal_of seal_payload
  verify_seal_from-build_sealed sound now now' now'' party b = (
    λ id has.
        let made = assemble (started_or b.started_at now) now' id b in
        let r = (add_seal now'' party made).1 in
        let accepted =
          verify_seal_from_iff r (seal_of now'' party made) (Identity.public party) refl in
        (r, ground (arith, has), refl, refl, accepted.1 (refl, refl, verify-sign sound party _)),
    λ has r h. ground (arith, has, h),
  )

  -- The seal does not cover version, export time, receipt and nonces of a record, nor type, time,
  -- size and content of a message: with any others in their place it is accepted or refused alike.
  pub verify_seal_ignores :
      (r : SealedSessionRecord) (signer : PublicIdentity) (version exported_at : ℕ)
      (receipt : Option WireBoundReceipt) (n m : Option SessionNonce)
      (f : WireMessageEntry → Retouched)
      → verify_seal_from
          (record r {
            version = version;
            exported_at = exported_at;
            receipt = receipt;
            initiator_nonce = n;
            responder_nonce = m;
            messages = map (retouch f) r.messages;
          })
          signer
        ≡ verify_seal_from r signer
  unfolding verify_seal_from seal_payload body_digest_input
  verify_seal_ignores r signer version exported_at receipt n m f =
      ground (arith, message_parts-retouch f r.messages, length-map (retouch f) r.messages)
