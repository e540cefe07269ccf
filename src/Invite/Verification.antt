-- ===== src/Invite/Verification.antt =====
-- Exactly which tickets pass the full verification, and that issued ones do.
use blind_overlap.Prelude.{
  ℕ, ◌+◌, ◌^◌, ◌≤◌, ◌<◌, ◌≡◌, ◌≢◌, ◌↔◌, refl, true, Option, none, some, arith, ok,
}
use blind_overlap.Bytes.{Bytes, Text, eqb_iff}
use blind_overlap.Crypto.{Crypto, SignsSoundly}
use blind_overlap.Freshness.{wrapping_add}
use blind_overlap.Protocol.{IntersectionMode}
use blind_overlap.Identity
use blind_overlap.Identity.{PublicIdentity, PartyIdentity, verify-sign}
use blind_overlap.Invite.{
  AllowedMode, InviteTicket, permits, payload_of, check_peer, issue, verify, verify_full,
}

-- The ticket is open to everyone, or names this peer.
abbrev pub AdmitsPeer : Option PublicIdentity → PublicIdentity → Type 0
AdmitsPeer none peer = Unit
AdmitsPeer (some p) peer = p ≡ peer

pub check_peer_iff :
    (hex : Bytes → Text) (o : Option PublicIdentity) (peer : PublicIdentity)
    → (check_peer hex o peer ≡ ok tt) ↔ AdmitsPeer o peer
unfolding check_peer
check_peer_iff hex none peer = (λ h. tt, λ h. refl)
check_peer_iff hex (some p) peer =
    (λ h. ground (arith, eqb_iff p peer), λ h. ground (arith, eqb_iff p peer, h))

module _ ⦃c : Crypto⦄ where
  -- Full verification at three clock readings succeeds exactly if the issuer's key verifies the
  -- signature over the ticket's fields, every reading lies in the validity window, its ends
  -- included, and issuer, peer, session and mode are those that the ticket grants.
  pub verify_full_iff :
      (t t' t'' : ℕ) (k : InviteTicket) (issuer peer : PublicIdentity) (session_id : Text)
      (mode : IntersectionMode)
      → (verify_full t t' t'' k issuer peer session_id mode ≡ ok tt) ↔ (
          (Identity.verify k.issuer_pubkey (payload_of k) k.signature ≡ ok tt)
          × ((k.issued_at ≤ t) × (t ≤ k.expires_at))
          × ((k.issued_at ≤ t') × (t' ≤ k.expires_at))
          × ((k.issued_at ≤ t'') × (t'' ≤ k.expires_at))
          × (k.issuer_pubkey ≡ issuer)
          × AdmitsPeer k.peer_pubkey peer
          × (k.session_id ≡ session_id)
          × (permits k.allowed_mode mode ≡ true))
  unfolding verify_full
  verify_full_iff t t' t'' k issuer peer session_id mode = (
    λ h.
        let admitted : check_peer c.hex_encode k.peer_pubkey peer ≡ ok tt = ground arith in
        (
          ground arith,
          (ground arith, ground arith),
          (ground arith, ground arith),
          (ground arith, ground arith),
          ground (arith, eqb_iff k.issuer_pubkey issuer),
          (check_peer_iff c.hex_encode k.peer_pubkey peer).0 admitted,
          ground (arith, eqb_iff k.session_id session_id),
          ground arith,
        ),
    λ h.
        let admitted = (check_peer_iff c.hex_encode k.peer_pubkey peer).1 h.5 in
        ground (
          arith,
          admitted,
          h.0,
          h.1,
          h.2,
          h.3,
          h.7,
          eqb_iff k.issuer_pubkey issuer,
          eqb_iff k.session_id session_id,
          h.4,
          h.6,
        ),
  )

  issue_window :
      (now ttl_secs t : ℕ)
      → now + ttl_secs < 2 ^ 64
      → now ≤ t
      → t ≤ now + ttl_secs
      → (now ≤ t) × (t ≤ wrapping_add now ttl_secs)
  issue_window now ttl_secs t fits lo hi = omega arith

  -- An issued ticket passes for its issuer, a peer that it admits, its session and a mode that it
  -- permits, at all readings from the issue up to `ttl_secs` later, both included, if the sum of the
  -- times fits 64 bits.
  verify_full-issue :
      (now ttl_secs t t' t'' : ℕ) (issuer : PartyIdentity) (session_id : Text)
      (named : Option PublicIdentity) (peer : PublicIdentity) (allowed : AllowedMode)
      (mode : IntersectionMode)
      → SignsSoundly c
      → now + ttl_secs < 2 ^ 64
      → (now ≤ t) × (t ≤ now + ttl_secs)
      → (now ≤ t') × (t' ≤ now + ttl_secs)
      → (now ≤ t'') × (t'' ≤ now + ttl_secs)
      → AdmitsPeer named peer
      → permits allowed mode ≡ true
      → verify_full t t' t''
          (issue now issuer session_id named allowed ttl_secs)
          (Identity.public issuer)
          peer
          session_id
          mode
        ≡ ok tt
  unfolding issue
  verify_full-issue now ttl_secs t t' t'' issuer session_id named peer allowed mode sound fits w w'
        w'' admits permitted =
      (verify_full_iff t t' t'' (issue now issuer session_id named allowed ttl_secs)
          (Identity.public issuer) peer session_id mode).1
        (
          unfold payload_of in verify-sign sound issuer _,
          issue_window now ttl_secs t fits w.0 w.1,
          issue_window now ttl_secs t' fits w'.0 w'.1,
          issue_window now ttl_secs t'' fits w''.0 w''.1,
          refl,
          admits,
          refl,
          permitted,
        )

  -- Where the sum of the times passes 64 bits it wraps, and the ticket is valid at no time.
  pub issue_overflow :
      (now ttl_secs t : ℕ) (issuer : PartyIdentity) (session_id : Text)
      (named : Option PublicIdentity) (allowed : AllowedMode)
      → now < 2 ^ 64
      → ttl_secs < 2 ^ 64
      → 2 ^ 64 ≤ now + ttl_secs
      → verify t (issue now issuer session_id named allowed ttl_secs) ≢ ok tt
  unfolding verify issue
  issue_overflow now ttl_secs t issuer session_id named allowed hn ht over h = ground arith
