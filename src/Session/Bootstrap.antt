-- ===== src/Session/Bootstrap.antt =====
-- Sessions that an invite or a lease starts, in crates/blindoverlap/src/session.rs.
pub mod Authorization
use blind_overlap.Prelude.{ℕ, Result, ok, err, ◌>>=◌, ◌>>◌, map_err}
use blind_overlap.Crypto.{Crypto}
use blind_overlap.FactSet.{FactSet}
use blind_overlap.Protocol.{IntersectionMode}
use blind_overlap.Identity
use blind_overlap.Identity.{PartyIdentity}
use blind_overlap.Invite
use blind_overlap.Invite.{InviteTicket}
use blind_overlap.Lease
use blind_overlap.Lease.{SessionLease}
use blind_overlap.Session.Common.{SessionError, invite, lease}
use blind_overlap.Session.Initiator
use blind_overlap.Session.Initiator.{InitiatorSession, Drawn}
use blind_overlap.Session.Responder
use blind_overlap.Session.Responder.{ResponderSession}

module _ ⦃c : Crypto⦄ where
  -- `InitiatorSession::from_invite`; `later` is the clock of the new deadline.
  unfoldable pub initiator_from_invite :
      (now later : ℕ)
      → Drawn
      → InviteTicket
      → FactSet
      → IntersectionMode
      → PartyIdentity
      → Result SessionError InitiatorSession
  initiator_from_invite now later drawn ticket fact_set mode local_identity = do
    map_err invite (Invite.verify_for_session now ticket ticket.session_id mode)
    Initiator.with_channel_binding later drawn ticket.session_id fact_set mode local_identity
        ticket.issuer_pubkey

  -- `InitiatorSession::from_lease`
  unfoldable pub initiator_from_lease :
      (now later : ℕ)
      → Drawn
      → SessionLease
      → FactSet
      → IntersectionMode
      → PartyIdentity
      → Result SessionError InitiatorSession
  initiator_from_lease now later drawn l fact_set mode local_identity = do
    map_err lease (Lease.verify_for_peer now l (Identity.public local_identity))
    Initiator.with_channel_binding later drawn l.session_id fact_set mode local_identity
        l.issuer_pubkey

  -- `ResponderSession::from_invite`, which reads the clock twice.
  unfoldable pub responder_from_invite :
      (now now' : ℕ)
      → Drawn
      → InviteTicket
      → FactSet
      → IntersectionMode
      → PartyIdentity
      → Result SessionError ResponderSession
  responder_from_invite now now' drawn ticket fact_set mode local_identity = do
    map_err invite (Invite.verify_for_session now ticket ticket.session_id mode)
    map_err invite (Invite.verify_for_peer now' ticket (Identity.public local_identity))
    Responder.with_channel_binding drawn ticket.session_id fact_set mode local_identity
        ticket.issuer_pubkey

  -- `ResponderSession::from_lease`
  unfoldable pub responder_from_lease :
      ℕ
      → Drawn
      → SessionLease
      → FactSet
      → IntersectionMode
      → PartyIdentity
      → Result SessionError ResponderSession
  responder_from_lease now drawn l fact_set mode local_identity = do
    map_err lease (Lease.verify_for_peer now l (Identity.public local_identity))
    Responder.with_channel_binding drawn l.session_id fact_set mode local_identity l.issuer_pubkey
