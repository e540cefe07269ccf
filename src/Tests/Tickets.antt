-- ===== src/Tests/Tickets.antt =====
-- Invites, leases and the sessions that they start.
use blind_overlap.Prelude.{ℕ, ◌≡◌, ◌≢◌, refl, true, some, none, List, [], ◌∷◌, ok, arith}
use blind_overlap.Bytes.{Bytes, Text, ascii, eqb}
use blind_overlap.FactSet
use blind_overlap.Freshness.{default_ttl_secs}
use blind_overlap.Protocol.{IntersectionMode}
use blind_overlap.Identity
use blind_overlap.Identity.{PartyIdentity, PublicIdentity}
use blind_overlap.Invite
use blind_overlap.Invite.{InviteTicket, AllowedMode, permits}
use blind_overlap.Invite.Verification.{AdmitsPeer, verify_full_iff, issue_overflow}
use blind_overlap.Lease
use blind_overlap.Lease.{SessionLease}
use blind_overlap.Lease.Verification.{Chain, renew-Chain, renew_all, issue-IsAuthentic}
use blind_overlap.Session.Common.{with_identity_binding}
use blind_overlap.Session.Initiator
use blind_overlap.Session.Responder
use blind_overlap.Session.Responder.{ResponderSession}
use blind_overlap.Session.Bootstrap.{responder_from_invite, initiator_from_invite}
use blind_overlap.Session.Bootstrap.Authorization.{
  bound, responder_from_invite_iff, initiator_from_invite_iff,
}
use blind_overlap.Tests.Common.{id_of, toy_crypto, toy-SignsSoundly}
use blind_overlap.Tests.Parties.{alpha, beta}

abbrev alice : PartyIdentity
alice = record { seed = id_of 1 }

abbrev bob : PartyIdentity
bob = record { seed = id_of 2 }

abbrev drawn : Initiator.Drawn
drawn = record { secret = id_of 10; nonce = id_of 5 }

-- Alice invites Bob at time 100 for 30 seconds.
abbrev ticket : InviteTicket
ticket = Invite.issue 100 alice (ascii "s1") (some (id_of 2)) AllowedMode.cardinality 30

abbrev lease : SessionLease
lease = Lease.issue 100 alice (ascii "s1") (id_of 2) 30

verify_full_iff_example : AdmitsPeer (some (id_of 2)) (id_of 2)
unfolding Identity.public Invite.issue Invite.verify_full Identity.verify eqb Identity.sign ascii
    Invite.compute_payload Invite.payload_of blind_overlap.Bytes.Encoding.to_le_bytes
    Invite.check_peer permits
verify_full_iff_example =
    ((verify_full_iff 100 110 130 ticket (id_of 1) (id_of 2) (ascii "s1")
        IntersectionMode.cardinality).0
      refl).5

issue_overflow_example :
    Invite.verify 110
      (Invite.issue 100 alice (ascii "s1") none AllowedMode.any 18446744073709551615)
    ≢ ok tt
issue_overflow_example =
    issue_overflow 100 18446744073709551615 110 alice (ascii "s1") none AllowedMode.any
      (omega arith) (omega arith) (omega arith)

abbrev renewals : List (ℕ × ℕ)
renewals = (120, 30) ∷ (140, 30) ∷ []

renew-Chain_example : (k : SessionLease) × (renew_all renewals alice lease ≡ ok k) × Chain 2 lease k
unfolding Identity.public Lease.issue
renew-Chain_example =
    renew-Chain toy-SignsSoundly renewals lease alice refl (omega arith)
      (issue-IsAuthentic toy-SignsSoundly 100 30 alice (ascii "s1") (id_of 2))

abbrev responder : ResponderSession
responder =
    record (Responder.initial drawn (ascii "s1") beta IntersectionMode.cardinality
      (with_identity_binding default_ttl_secs)) { channel_binding = bound bob (id_of 1) }

responder_from_invite_iff_example : AdmitsPeer (some (id_of 2)) (id_of 2)
unfolding responder_from_invite Invite.verify_for_session Identity.verify eqb Invite.issue
    Identity.sign Identity.public ascii Invite.compute_payload Invite.payload_of
    blind_overlap.Bytes.Encoding.to_le_bytes permits Invite.verify_for_peer Invite.check_peer
    Responder.with_channel_binding FactSet.len
responder_from_invite_iff_example =
    ((responder_from_invite_iff 100 110 drawn ticket beta IntersectionMode.cardinality bob
        responder).0
      refl).4

initiator_from_invite_iff_example :
    permits AllowedMode.cardinality IntersectionMode.cardinality ≡ true
unfolding initiator_from_invite Invite.verify_for_session Identity.verify eqb Invite.issue
    Identity.sign Identity.public ascii Invite.compute_payload Invite.payload_of
    blind_overlap.Bytes.Encoding.to_le_bytes permits Initiator.with_channel_binding FactSet.len
initiator_from_invite_iff_example =
    ((initiator_from_invite_iff 100 110 drawn ticket alpha IntersectionMode.cardinality bob
        (record (Initiator.initial 110 drawn (ascii "s1") alpha IntersectionMode.cardinality
          (with_identity_binding default_ttl_secs)) { channel_binding = bound bob (id_of 1) })).0
      refl).2
