-- ===== src/Wire/Envelope.antt =====
-- What a signed envelope proves, and that an honest one is accepted.
use blind_overlap.Prelude.{◌≡◌, ◌↔◌, refl, ◌∷◌, arith, ok, some, [], ◌>>=◌}
use blind_overlap.Bytes.{ascii, eqb_iff, eqb_refl}
use blind_overlap.Bytes.Encoding.{NoNul, nul_split, append-cancel}
use blind_overlap.Crypto.{Crypto, SignsSoundly}
use blind_overlap.Identity
use blind_overlap.Identity.{PublicIdentity, PartyIdentity, verify-sign}
use blind_overlap.Wire.Message.{
  WireMessage, SignedWireMessage, WireCodec, session_id, tag, validate, signing_payload, sign,
  verify_signature, verify_peer, encode_signed, decode_signed, decode_signed_from_peer,
}

module _ ⦃c : Crypto⦄ ⦃w : WireCodec⦄ where
  -- A message is accepted from a peer exactly if the peer's own key stands in it and verifies the
  -- signature over the payload of the message.
  pub verify_peer_iff :
      (s : SignedWireMessage) (peer : PublicIdentity)
      → (verify_peer s peer ≡ ok tt) ↔ (
          (s.signer_pubkey ≡ peer)
          × (Identity.verify peer (signing_payload s.message) s.signature ≡ ok tt))
  unfolding verify_peer
  verify_peer_iff s peer = (
    λ h. ground (arith, eqb_iff s.signer_pubkey peer),
    λ h. ground (arith, eqb_iff s.signer_pubkey peer, h.0, h.1),
  )

  -- An honest envelope, encoded and decoded by the peer that knows the sender, is what was sent, if
  -- JSON reads back what it wrote, the message is valid and Ed25519 accepts its own signatures.
  pub decode-encode_signed :
      SignsSoundly c
      → (m : WireMessage) (party : PartyIdentity)
      → w.signed_from_str (w.signed_to_string (sign m party)) ≡ some (sign m party)
      → validate m ≡ ok tt
      → (encode_signed (sign m party) >>= λ text.
          decode_signed_from_peer text (Identity.public party))
        ≡ ok (sign m party)
  unfolding decode_signed_from_peer decode_signed encode_signed verify_peer verify_signature sign
  decode-encode_signed sound m party reads valid = ground (
    arith,
    reads,
    valid,
    verify-sign sound party (signing_payload m),
    eqb_refl (Identity.public party),
  )

  -- The signed bytes determine the session identifier, the tag and the hash of the body, for
  -- identifiers and tags without a zero byte.
  signing_payload-binds :
      (m n : WireMessage)
      → NoNul (session_id m)
      → NoNul (session_id n)
      → NoNul (tag m)
      → NoNul (tag n)
      → signing_payload m ≡ signing_payload n
      → (session_id m ≡ session_id n)
        × (tag m ≡ tag n)
        × (c.sha256 (w.to_string m) ≡ c.sha256 (w.to_string n))
  unfolding signing_payload
  signing_payload-binds m n p q r s e =
      let domain = ascii "BlindOverlap:SignedWireMessage:v1" in
      let at_id =
        append-cancel (0 ∷ []) (0 ∷ []) _ _ refl (append-cancel domain domain _ _ refl e).1 in
      let ids = nul_split (session_id m) (session_id n) _ _ p q at_id.1 in
      let tags = nul_split (tag m) (tag n) _ _ r s ids.1 in (ids.0, tags.0, tags.1)
