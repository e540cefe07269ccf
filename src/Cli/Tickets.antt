-- ===== src/Cli/Tickets.antt =====
-- The commands on invites and leases of crates/blindoverlap-cli/src/main.rs. The report that a
-- verification prints of an accepted ticket is left out: the command returns the ticket.
pub mod Accepted
use blind_overlap.Prelude.{
  ℕ, Option, none, some, List, [], ◌∷◌, if◌then◌else◌, Result, ok, err, ◌>>=◌, ◌>>◌, map_err,
}
use blind_overlap.Bytes.{Text, ascii, eqb}
use blind_overlap.Crypto.{Crypto}
use blind_overlap.Identity
use blind_overlap.Protocol.{IntersectionMode}
use blind_overlap.Invite
use blind_overlap.Invite.{AllowedMode, InviteTicket}
use blind_overlap.Lease
use blind_overlap.Lease.{SessionLease}
use blind_overlap.Cli.Common.{
  CliError, identity_error, unknown_mode, invite_error, lease_error, Files, Effect, emit, Serde,
  StoredIdentity, parse_mode, load_identity, parse_peer, read_json, check_key, check_text,
}

unfoldable pub parse_allowed_mode : Text → Result CliError AllowedMode
parse_allowed_mode mode =
    if eqb mode (ascii "intersection")
    then ok AllowedMode.intersection
    else if eqb mode (ascii "cardinality")
    then ok AllowedMode.cardinality
    else if eqb mode (ascii "any")
    then ok AllowedMode.any
    else err (unknown_mode mode)

-- The mode of a verification for a session, which is intersection where none is given.
unfoldable pub mode_or_intersection : Option Text → Result CliError IntersectionMode
mode_or_intersection none = ok IntersectionMode.intersection
mode_or_intersection (some m) = parse_mode m

-- Each `now` is the clock at one check.
module _ ⦃c : Crypto⦄ where
  unfoldable pub cmd_invite_create :
      ⦃i : Serde StoredIdentity⦄
      → ⦃j : Serde InviteTicket⦄ → (now : ℕ) → Files
      → (session identity_path : Text) → (peer_hex : Option Text) → (mode : Text) → (ttl_secs : ℕ)
      → (output : Option Text) → Result CliError (List Effect)
  cmd_invite_create ⦃j = j⦄ now files session identity_path peer_hex mode ttl_secs output = do
    identity ← load_identity files identity_path
    peer_pubkey ← parse_peer peer_hex
    allowed_mode ← parse_allowed_mode mode
    ok (
        emit output
          (j.to_string_pretty (Invite.issue now identity session peer_pubkey allowed_mode ttl_secs))
        ∷ [])

  unfoldable pub cmd_invite_verify :
      ⦃j : Serde InviteTicket⦄
      → (now now' now'' now''' : ℕ) → Files
      → (ticket_path : Text) → (expect_issuer_hex for_peer_hex for_session for_mode : Option Text)
      → Result CliError InviteTicket
  cmd_invite_verify now now' now'' now''' files ticket_path expect_issuer_hex for_peer_hex
        for_session for_mode =
      do
        ticket ← read_json {A = InviteTicket} files ticket_path
        map_err invite_error (Invite.verify now ticket)
        check_key expect_issuer_hex
            λ expected. map_err invite_error (Invite.verify_issuer now' ticket expected)
        check_key for_peer_hex
            λ peer. map_err invite_error (Invite.verify_for_peer now'' ticket peer)
        check_text for_session λ session. do
          mode ← mode_or_intersection for_mode
          map_err invite_error (Invite.verify_for_session now''' ticket session mode)
        ok ticket

  unfoldable pub cmd_lease_issue :
      ⦃i : Serde StoredIdentity⦄
      → ⦃j : Serde SessionLease⦄ → (now : ℕ) → Files
      → (session identity_path peer_hex : Text) → (ttl_secs : ℕ) → (output : Option Text)
      → Result CliError (List Effect)
  cmd_lease_issue ⦃j = j⦄ now files session identity_path peer_hex ttl_secs output = do
    identity ← load_identity files identity_path
    peer ← map_err identity_error (Identity.public_from_hex peer_hex)
    ok (emit output (j.to_string_pretty (Lease.issue now identity session peer ttl_secs)) ∷ [])

  unfoldable pub cmd_lease_verify :
      ⦃j : Serde SessionLease⦄
      → (now now' now'' now''' : ℕ) → Files
      → (lease_path : Text) → (expect_issuer_hex for_peer_hex for_session : Option Text)
      → Result CliError SessionLease
  cmd_lease_verify now now' now'' now''' files lease_path expect_issuer_hex for_peer_hex
        for_session =
      do
        lease ← read_json {A = SessionLease} files lease_path
        map_err lease_error (Lease.verify now lease)
        check_key expect_issuer_hex
            λ expected. map_err lease_error (Lease.verify_issuer now' lease expected)
        check_key for_peer_hex λ peer. map_err lease_error (Lease.verify_for_peer now'' lease peer)
        check_text for_session
            λ session. map_err lease_error (Lease.verify_for_session now''' lease session)
        ok lease

  unfoldable pub cmd_lease_renew :
      ⦃i : Serde StoredIdentity⦄
      → ⦃j : Serde SessionLease⦄ → (now : ℕ) → Files
      → (lease_path identity_path : Text) → (ttl_secs : ℕ) → (output : Option Text)
      → Result CliError (List Effect)
  cmd_lease_renew ⦃j = j⦄ now files lease_path identity_path ttl_secs output = do
    lease ← read_json {A = SessionLease} files lease_path
    identity ← load_identity files identity_path
    renewed ← map_err lease_error (Lease.renew now lease identity ttl_secs)
    ok (emit output (j.to_string_pretty renewed) ∷ [])
