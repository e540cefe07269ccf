-- ===== src/Cli/Tickets/Accepted.antt =====
-- What `invite-verify` and `lease-verify` accept, compared with the full checks of the library.
use blind_overlap.Prelude.{ℕ, ◌≡◌, refl, none, some, arith, ok, ◌>>◌, map_err}
use blind_overlap.Bytes.{Text}
use blind_overlap.Crypto.{Crypto}
use blind_overlap.Identity
use blind_overlap.Identity.{PublicIdentity}
use blind_overlap.Protocol.{IntersectionMode}
use blind_overlap.Invite
use blind_overlap.Invite.{InviteTicket}
use blind_overlap.Lease
use blind_overlap.Lease.{SessionLease}
use blind_overlap.Cli.Common.{
  invite_error, lease_error, Files, Serde, parse_mode, check_key, read_json, read_to_string,
}
use blind_overlap.Cli.Tickets.{cmd_invite_verify, cmd_lease_verify, mode_or_intersection}

module _ ⦃c : Crypto⦄ where
  -- The invite of a file, the readable hex keys of an issuer and a peer, and a readable mode: with all
  -- of its arguments the command makes the check of the signature and then the full check of the
  -- library, with its errors; without a session it ignores the mode.
  pub cmd_invite_verify-verify_full :
      ⦃j : Serde InviteTicket⦄
      → (now now' now'' now''' : ℕ) (files : Files)
        (path text issuer_hex peer_hex session mode : Text) (t : InviteTicket)
        (issuer peer : PublicIdentity) (m : IntersectionMode)
      → files path ≡ some text
      → j.from_str text ≡ some t
      → Identity.public_from_hex issuer_hex ≡ ok issuer
      → Identity.public_from_hex peer_hex ≡ ok peer
      → parse_mode mode ≡ ok m
      → (cmd_invite_verify now now' now'' now''' files path
            (some issuer_hex)
            (some peer_hex)
            (some session)
            (some mode)
          ≡ map_err invite_error (
              Invite.verify now t
              >> (Invite.verify_full now' now'' now''' t issuer peer session m >> ok t)))
        × (cmd_invite_verify now now' now'' now''' files path
              (some issuer_hex)
              (some peer_hex)
              none
              (some mode)
            ≡ cmd_invite_verify now now' now'' now''' files path
                (some issuer_hex)
                (some peer_hex)
                none
                none)
  unfolding cmd_invite_verify read_json read_to_string check_key mode_or_intersection
      Invite.verify_full
  cmd_invite_verify-verify_full now now' now'' now''' files path text issuer_hex peer_hex session
        mode t issuer peer m read parsed issuer_is peer_is mode_is =
      (ground (arith, read, parsed, issuer_is, peer_is, mode_is), refl)

  -- The lease of a file, and the readable hex keys of an issuer and a peer: with all of its arguments
  -- the command makes the check of the signature and then the full check of the library, with its
  -- errors.
  cmd_lease_verify-verify_full :
      ⦃j : Serde SessionLease⦄
      → (now now' now'' now''' : ℕ) (files : Files) (path text issuer_hex peer_hex session : Text)
        (l : SessionLease) (issuer peer : PublicIdentity)
      → files path ≡ some text
      → j.from_str text ≡ some l
      → Identity.public_from_hex issuer_hex ≡ ok issuer
      → Identity.public_from_hex peer_hex ≡ ok peer
      → cmd_lease_verify now now' now'' now''' files path
          (some issuer_hex)
          (some peer_hex)
          (some session)
        ≡ map_err lease_error (
            Lease.verify now l
            >> (Lease.verify_full now' now'' now''' l issuer peer session >> ok l))
  unfolding cmd_lease_verify read_json read_to_string check_key Lease.verify_full
  cmd_lease_verify-verify_full now now' now'' now''' files path text issuer_hex peer_hex session l
        issuer peer read parsed issuer_is peer_is =
      ground (arith, read, parsed, issuer_is, peer_is)
