-- ===== src/Invite/Payload.antt =====
-- The signed bytes of a ticket determine its fields.
use blind_overlap.Prelude.{
  ◌^◌, ◌<◌, ◌≡◌, refl, ap, sym, ◌∙◌, Option, none, some, [], ◌∷◌, ◌++◌, arith,
}
use blind_overlap.Bytes.{Bytes, ascii}
use blind_overlap.Bytes.Encoding.{
  to_le_bytes, length-to_le_bytes, to_le_bytes-injective, append-cancel, NoNul, nul_split,
}
use blind_overlap.FactSet.Commitment.{Is32}
use blind_overlap.Freshness.Transcripts.{NonceIs32}
use blind_overlap.Identity.{PublicIdentity}
use blind_overlap.Invite.{AllowedMode, InviteTicket, peer_part, mode_byte, payload_of}

-- The identifier holds no zero byte, keys have 32 bytes and times fit 64 bits.
pub record IsSized (t : InviteTicket) : Type 0 where
  pub session_id : NoNul t.session_id
  pub issuer_pubkey : Is32 t.issuer_pubkey
  pub peer_pubkey : NonceIs32 t.peer_pubkey
  pub issued_at : t.issued_at < 2 ^ 64
  pub expires_at : t.expires_at < 2 ^ 64

peer_part-injective :
    (a b : Option PublicIdentity) (us vs : Bytes)
    → NonceIs32 a
    → NonceIs32 b
    → peer_part a ++ us ≡ peer_part b ++ vs
    → (a ≡ b) × (us ≡ vs)
unfolding peer_part
peer_part-injective none none us vs p q e = ground arith
peer_part-injective none (some b) us vs p q e = ground arith
peer_part-injective (some a) none us vs p q e = ground arith
peer_part-injective (some a) (some b) us vs p q e =
    let keys = append-cancel a b us vs (p ∙ sym q) (append-cancel (1 ∷ []) (1 ∷ []) _ _ refl e).1 in
    (ap some keys.0, keys.1)

mode_byte-injective : (a b : AllowedMode) → mode_byte a ≡ mode_byte b → a ≡ b
unfolding mode_byte
mode_byte-injective a b e = ground arith

-- Tickets that are signed over the same bytes agree in every field that is signed.
payload-injective :
    (t u : InviteTicket)
    → IsSized t
    → IsSized u
    → payload_of t ≡ payload_of u
    → (t.session_id ≡ u.session_id)
      × (t.issuer_pubkey ≡ u.issuer_pubkey)
      × (t.peer_pubkey ≡ u.peer_pubkey)
      × (t.allowed_mode ≡ u.allowed_mode)
      × (t.issued_at ≡ u.issued_at)
      × (t.expires_at ≡ u.expires_at)
unfolding payload_of
payload-injective t u p q e =
    let domain = ascii "BlindOverlap:InviteTicket:v1" in
    let body =
      append-cancel (0 ∷ []) (0 ∷ []) _ _ refl (append-cancel domain domain _ _ refl e).1 in
    let ids = nul_split t.session_id u.session_id _ _ p.session_id q.session_id body.1 in
    let issuers =
      append-cancel t.issuer_pubkey u.issuer_pubkey _ _ (p.issuer_pubkey ∙ sym q.issuer_pubkey)
        ids.1 in
    let peers =
      peer_part-injective t.peer_pubkey u.peer_pubkey _ _ p.peer_pubkey q.peer_pubkey issuers.1 in
    let modes =
      append-cancel (mode_byte t.allowed_mode ∷ []) (mode_byte u.allowed_mode ∷ []) _ _ refl
        peers.1 in
    let starts =
      append-cancel (to_le_bytes 8 t.issued_at) (to_le_bytes 8 u.issued_at) _ _
        (length-to_le_bytes 8 t.issued_at ∙ sym (length-to_le_bytes 8 u.issued_at)) modes.1 in
    (
      ids.0,
      issuers.0,
      peers.0,
      mode_byte-injective t.allowed_mode u.allowed_mode (cc modes.0),
      to_le_bytes-injective 8 t.issued_at u.issued_at p.issued_at q.issued_at starts.0,
      to_le_bytes-injective 8 t.expires_at u.expires_at p.expires_at q.expires_at starts.1,
    )
