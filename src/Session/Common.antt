-- ===== src/Session/Common.antt =====
-- Errors, configuration and channel binding of crates/blindoverlap/src/session.rs.
use blind_overlap.Prelude.{
  ℕ, Bool, true, false, not, Option, none, some, List, length, if◌then◌else◌, Result, ok, err,
}
use blind_overlap.Bytes.{Bytes, Text, eqb}
use blind_overlap.Crypto.{Crypto}
use blind_overlap.Freshness.{
  SessionNonce, SessionDeadline, FreshnessError, default_ttl_secs, validate,
}
use blind_overlap.Protocol.{MaskedElement}
use blind_overlap.Identity.{PublicIdentity}
use blind_overlap.Wire.Common.{WireError, peer_mismatch, identity}
use blind_overlap.Invite.{InviteError}
use blind_overlap.Lease.{LeaseError}
use blind_overlap.PeerBook
use blind_overlap.PeerBook.{PeerBookError, TrustedPeerBook}

pub data SessionError : Type 0 where
  set_too_large : ℕ → SessionError
  invalid_state : (expected actual : Text) → SessionError
  session_id_mismatch : (expected got : Text) → SessionError
  element_count_mismatch : (expected got : ℕ) → SessionError
  freshness : FreshnessError → SessionError
  nonce_mismatch : (expected got : Text) → SessionError
  version_mismatch : (session_version message_version : ℕ) → SessionError
  identity_mismatch : (expected got : Text) → SessionError
  bad_signature missing_identity : SessionError
  wire : WireError → SessionError
  invite : InviteError → SessionError
  lease : LeaseError → SessionError
  peer_book : PeerBookError → SessionError

pub record SessionConfig : Type 0 where
  pub ttl_secs : ℕ
  pub use_freshness : Bool
  pub require_signatures : Bool

-- The derived `SessionConfig::default()`.
unfoldable pub default_config : SessionConfig
default_config = record { ttl_secs = 0; use_freshness = false; require_signatures = false }

-- `SessionConfig::new()`
unfoldable pub new_config : SessionConfig
new_config = record {
  ttl_secs = default_ttl_secs;
  use_freshness = true;
  require_signatures = false;
}

unfoldable pub v1_compatible : SessionConfig
v1_compatible = record {
  ttl_secs = default_ttl_secs;
  use_freshness = false;
  require_signatures = false;
}

-- `SessionConfig::with_ttl`
unfoldable pub config_with_ttl : ℕ → SessionConfig
config_with_ttl ttl_secs = record {
  ttl_secs = ttl_secs;
  use_freshness = true;
  require_signatures = false;
}

unfoldable pub with_identity_binding : ℕ → SessionConfig
with_identity_binding ttl_secs = record {
  ttl_secs = ttl_secs;
  use_freshness = true;
  require_signatures = true;
}

pub record ChannelBinding : Type 0 where
  pub local_pubkey : PublicIdentity
  pub peer_pubkey : PublicIdentity

-- `map_err` of the signed handlers.
unfoldable pub peer_error : WireError → SessionError
peer_error (peer_mismatch expected got) = identity_mismatch expected got
peer_error (identity e) = bad_signature
peer_error other = wire other

-- `if let Some(n) = nonce { if n != own { return Err(NonceMismatch) } }`
unfoldable pub check_nonce :
    (Bytes → Text) → SessionNonce → Option SessionNonce → Result SessionError Unit
check_nonce hex own none = ok tt
check_nonce hex own (some n) =
    if not (eqb n own) then err (nonce_mismatch (hex own) (hex n)) else ok tt

-- `if let Some(deadline) = message.deadline() { deadline.validate()? }`
unfoldable pub check_deadline : ℕ → Option SessionDeadline → Result SessionError Unit
check_deadline now none = ok tt
check_deadline now (some d) = elim (validate now d) [ ok _ ↦ ok tt | err e ↦ err (freshness e) ]

-- `elements.as_ref().map(|m| m.len()).unwrap_or(0)`
unfoldable pub count_or_zero : Option (List MaskedElement) → ℕ
count_or_zero none = 0
count_or_zero (some m) = length m

module _ ⦃c : Crypto⦄ where
  unfoldable pub require_peer_trusted : TrustedPeerBook → PublicIdentity → Result SessionError Unit
  require_peer_trusted book peer = elim (PeerBook.require_trusted book peer) [
    | ok _ ↦ ok tt
    | err e ↦ err (peer_book e)
  ]
