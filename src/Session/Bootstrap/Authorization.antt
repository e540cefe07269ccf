-- ===== src/Session/Bootstrap/Authorization.antt =====
-- Which invites and leases start a session, and which session that is.
use blind_overlap.Prelude.{ℕ, ◌≤◌, ◌≡◌, ◌↔◌, true, Option, some, arith, length, ok}
use blind_overlap.Bytes.{eqb_iff, eqb_refl}
use blind_overlap.Crypto.{Crypto}
use blind_overlap.FactSet
use blind_overlap.FactSet.{FactSet}
use blind_overlap.Protocol.{IntersectionMode, max_set_size}
use blind_overlap.Identity
use blind_overlap.Identity.{PartyIdentity, PublicIdentity}
use blind_overlap.Invite
use blind_overlap.Invite.{InviteTicket, permits, check_peer}
use blind_overlap.Invite.Verification.{AdmitsPeer, check_peer_iff}
use blind_overlap.Lease
use blind_overlap.Lease.{SessionLease}
use blind_overlap.Session.Common.{with_identity_binding, ChannelBinding}
use blind_overlap.Freshness.{default_ttl_secs}
use blind_overlap.Session.Initiator
use blind_overlap.Session.Initiator.{InitiatorSession, Drawn}
use blind_overlap.Session.Responder
use blind_overlap.Session.Responder.{ResponderSession}
use blind_overlap.Session.Bootstrap.{
  initiator_from_invite, initiator_from_lease, responder_from_invite, responder_from_lease,
}

module _ ⦃c : Crypto⦄ where
  -- The new session of a party that is bound to a peer.
  abbrev pub bound : PartyIdentity → PublicIdentity → Option ChannelBinding
  bound party peer = some (record { local_pubkey = Identity.public party; peer_pubkey = peer })

  abbrev pub InWindow : ℕ → ℕ → ℕ → Type 0
  InWindow issued_at expires_at now = (issued_at ≤ now) × (now ≤ expires_at)

  -- A responder starts from an invite exactly if the ticket is signed by its issuer, both clock
  -- readings lie in its window, it permits the mode and admits the local party, and the set is
  -- within the size limit. The session is the ticket's, requires signatures, and is bound to the
  -- issuer.
  pub responder_from_invite_iff :
      (now now' : ℕ) (drawn : Drawn) (k : InviteTicket) (a : FactSet) (mode : IntersectionMode)
      (party : PartyIdentity) (s : ResponderSession)
      → (responder_from_invite now now' drawn k a mode party ≡ ok s) ↔ (
          (Identity.verify k.issuer_pubkey (Invite.payload_of k) k.signature ≡ ok tt)
          × InWindow k.issued_at k.expires_at now
          × InWindow k.issued_at k.expires_at now'
          × (permits k.allowed_mode mode ≡ true)
          × AdmitsPeer k.peer_pubkey (Identity.public party)
          × (length a.ids ≤ max_set_size)
          × (s
              ≡ record (Responder.initial drawn k.session_id a mode
                  (with_identity_binding default_ttl_secs)) {
                    channel_binding = bound party k.issuer_pubkey;
                  }))
  unfolding responder_from_invite Responder.with_channel_binding Invite.verify_for_session
      Invite.verify_for_peer Responder.with_config FactSet.len
  responder_from_invite_iff now now' drawn k a mode party s =
      let peer_law = check_peer_iff c.hex_encode k.peer_pubkey (Identity.public party) in
      (
        λ h.
            let admitted : check_peer c.hex_encode k.peer_pubkey (Identity.public party) ≡ ok tt =
              ground (arith, h) in
            (
              ground (arith, h),
              (ground (arith, h), ground (arith, h)),
              (ground (arith, h), ground (arith, h)),
              ground (arith, h),
              peer_law.0 admitted,
              ground (arith, h),
              ground (arith, h),
            ),
        λ h. ground (
          arith,
          h.0,
          h.1.0,
          h.1.1,
          h.2.0,
          h.2.1,
          h.3,
          peer_law.1 h.4,
          h.5,
          h.6,
          eqb_refl k.session_id,
        ),
      )

  -- An initiator starts from an invite exactly if the ticket is signed by its issuer, the clock lies
  -- in its window, it permits the mode and the set is within the size limit. The session is bound
  -- to the issuer, whatever peer the ticket names, and that peer need not be the local party.
  pub initiator_from_invite_iff :
      (now later : ℕ) (drawn : Drawn) (k : InviteTicket) (a : FactSet) (mode : IntersectionMode)
      (party : PartyIdentity) (s : InitiatorSession)
      → (initiator_from_invite now later drawn k a mode party ≡ ok s) ↔ (
          (Identity.verify k.issuer_pubkey (Invite.payload_of k) k.signature ≡ ok tt)
          × InWindow k.issued_at k.expires_at now
          × (permits k.allowed_mode mode ≡ true)
          × (length a.ids ≤ max_set_size)
          × (s
              ≡ record (Initiator.initial later drawn k.session_id a mode
                  (with_identity_binding default_ttl_secs)) {
                    channel_binding = bound party k.issuer_pubkey;
                  }))
  unfolding initiator_from_invite Initiator.with_channel_binding Invite.verify_for_session
      Initiator.with_config FactSet.len
  initiator_from_invite_iff now later drawn k a mode party s = (
    λ h. (
      ground (arith, h),
      (ground (arith, h), ground (arith, h)),
      ground (arith, h),
      ground (arith, h),
      ground (arith, h),
    ),
    λ h. ground (arith, h.0, h.1.0, h.1.1, h.2, h.3, h.4, eqb_refl k.session_id),
  )

  -- Either party starts from a lease exactly if the lease is signed by its issuer, the clock lies in
  -- its window, it names the local party as its peer and the set is within the size limit. Both
  -- sessions are bound to the issuer.
  from_lease_iff :
      (now later : ℕ) (drawn : Drawn) (l : SessionLease) (a : FactSet) (mode : IntersectionMode)
      (party : PartyIdentity) (i : InitiatorSession) (r : ResponderSession)
      → let granted =
          (Identity.verify l.issuer_pubkey (Lease.payload_of l) l.signature ≡ ok tt)
          × InWindow l.issued_at l.expires_at now
          × (l.peer_pubkey ≡ Identity.public party)
          × (length a.ids ≤ max_set_size) in
        ((initiator_from_lease now later drawn l a mode party ≡ ok i) ↔ (
          granted
          × (i
              ≡ record (Initiator.initial later drawn l.session_id a mode
                  (with_identity_binding default_ttl_secs)) {
                    channel_binding = bound party l.issuer_pubkey;
                  })))
        × ((responder_from_lease now drawn l a mode party ≡ ok r) ↔ (
            granted
            × (r
                ≡ record (Responder.initial drawn l.session_id a mode
                    (with_identity_binding default_ttl_secs)) {
                      channel_binding = bound party l.issuer_pubkey;
                    })))
  unfolding initiator_from_lease responder_from_lease Lease.verify_for_peer
      Initiator.with_channel_binding Initiator.with_config Responder.with_channel_binding
      Responder.with_config FactSet.len
  from_lease_iff now later drawn l a mode party i r =
      let own = eqb_iff l.peer_pubkey (Identity.public party) in
      (
        (
          λ h. (
            (
              ground (arith, h),
              (ground (arith, h), ground (arith, h)),
              ground (arith, h, own),
              ground (arith, h),
            ),
            ground (arith, h),
          ),
          λ h. ground (arith, h.0.0, h.0.1.0, h.0.1.1, h.0.2, h.0.3, h.1, own),
        ),
        (
          λ h. (
            (
              ground (arith, h),
              (ground (arith, h), ground (arith, h)),
              ground (arith, h, own),
              ground (arith, h),
            ),
            ground (arith, h),
          ),
          λ h. ground (arith, h.0.0, h.0.1.0, h.0.1.1, h.0.2, h.0.3, h.1, own),
        ),
      )
