-- ===== src/Lease/Payload.antt =====
-- The signed bytes of a lease determine its fields.
use blind_overlap.Prelude.{
  ℕ, ◌^◌, ◌<◌, ◌≡◌, refl, sym, ◌∙◌, Option, none, some, [], ◌∷◌, ◌++◌, arith,
}
use blind_overlap.Bytes.{Bytes, ascii}
use blind_overlap.Bytes.Encoding.{
  to_le_bytes, length-to_le_bytes, to_le_bytes-injective, append-cancel, NoNul, nul_split,
}
use blind_overlap.FactSet.Commitment.{Is32}
use blind_overlap.Lease.{SessionLease, parent_part, payload_of}

-- The identifier holds no zero byte, keys have 32 bytes, and the numbers fit their fields.
pub record IsSized (l : SessionLease) : Type 0 where
  pub session_id : NoNul l.session_id
  pub issuer_pubkey : Is32 l.issuer_pubkey
  pub peer_pubkey : Is32 l.peer_pubkey
  pub issued_at : l.issued_at < 2 ^ 64
  pub expires_at : l.expires_at < 2 ^ 64
  pub renew_count : l.renew_count < 2 ^ 32

parent_part-injective : (a b : Option Bytes) → parent_part a ≡ parent_part b → a ≡ b
unfolding parent_part
parent_part-injective none none e = refl
parent_part-injective none (some b) e = ground arith
parent_part-injective (some a) none e = ground arith
parent_part-injective (some a) (some b) e = ground arith

number_split :
    (w m n : ℕ) (us vs : Bytes)
    → m < 256 ^ w
    → n < 256 ^ w
    → to_le_bytes w m ++ us ≡ to_le_bytes w n ++ vs
    → (m ≡ n) × (us ≡ vs)
number_split w m n us vs p q e =
    let parts =
      append-cancel (to_le_bytes w m) (to_le_bytes w n) us vs
        (length-to_le_bytes w m ∙ sym (length-to_le_bytes w n)) e in
    (to_le_bytes-injective w m n p q parts.0, parts.1)

-- Leases that are signed over the same bytes agree in every field that is signed, the parent of a
-- renewal included.
payload-injective_lease :
    (l k : SessionLease)
    → IsSized l
    → IsSized k
    → payload_of l ≡ payload_of k
    → (l.session_id ≡ k.session_id)
      × (l.issuer_pubkey ≡ k.issuer_pubkey)
      × (l.peer_pubkey ≡ k.peer_pubkey)
      × (l.issued_at ≡ k.issued_at)
      × (l.expires_at ≡ k.expires_at)
      × (l.renew_count ≡ k.renew_count)
      × (l.parent_lease_id ≡ k.parent_lease_id)
unfolding payload_of
payload-injective_lease l k p q e =
    let domain = ascii "BlindOverlap:SessionLease:v1" in
    let body =
      append-cancel (0 ∷ []) (0 ∷ []) _ _ refl (append-cancel domain domain _ _ refl e).1 in
    let ids = nul_split l.session_id k.session_id _ _ p.session_id q.session_id body.1 in
    let issuers =
      append-cancel l.issuer_pubkey k.issuer_pubkey _ _ (p.issuer_pubkey ∙ sym q.issuer_pubkey)
        ids.1 in
    let peers =
      append-cancel l.peer_pubkey k.peer_pubkey _ _ (p.peer_pubkey ∙ sym q.peer_pubkey) issuers.1 in
    let starts = number_split 8 l.issued_at k.issued_at _ _ p.issued_at q.issued_at peers.1 in
    let ends = number_split 8 l.expires_at k.expires_at _ _ p.expires_at q.expires_at starts.1 in
    let counts =
      number_split 4 l.renew_count k.renew_count _ _ p.renew_count q.renew_count ends.1 in
    (
      ids.0,
      issuers.0,
      peers.0,
      starts.0,
      ends.0,
      counts.0,
      parent_part-injective l.parent_lease_id k.parent_lease_id counts.1,
    )
