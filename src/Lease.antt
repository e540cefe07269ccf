-- ===== src/Lease.antt =====
-- crates/blindoverlap/src/lease.rs: signed leases that extend a session, and their renewal.
pub mod Verification
pub mod Payload
use blind_overlap.Prelude.{
  ℕ, ◌+◌, ◌-◌, ◌%◌, ◌^◌, Bool, true, false, not, Option, none, some, List, [], ◌∷◌, ◌++◌, ltb,
  if◌then◌else◌, is_some, Result, ok, err, ◌>>=◌, ◌>>◌, refuse, map_err,
}
use blind_overlap.Bytes.{Bytes, Text, ascii, eqb}
use blind_overlap.Bytes.Encoding.{to_le_bytes}
use blind_overlap.Crypto.{Crypto}
use blind_overlap.Freshness.{wrapping_add}
use blind_overlap.Identity
use blind_overlap.Identity.{PublicIdentity, PartyIdentity, Signature}

abbrev default_lease_ttl_secs : ℕ
default_lease_ttl_secs = 1800

-- The errors of the checks; JSON and file errors belong to parts that are not modelled.
pub data LeaseError : Type 0 where
  expired : (expires_at current_time : ℕ) → LeaseError
  not_yet_valid : (issued_at current_time : ℕ) → LeaseError
  invalid_signature renewal_chain_broken : LeaseError
  issuer_mismatch peer_mismatch session_mismatch : (expected got : Text) → LeaseError

pub record SessionLease : Type 0 where
  pub version : ℕ
  pub session_id : Text
  pub issuer_pubkey : PublicIdentity
  pub peer_pubkey : PublicIdentity
  pub issued_at : ℕ
  pub expires_at : ℕ
  pub renew_count : ℕ
  pub parent_lease_id : Option Bytes
  pub signature : Signature

pub parent_part : Option Bytes → Bytes
parent_part (some parent_id) = 1 ∷ parent_id
parent_part none = 0 ∷ []

unfoldable pub compute_payload :
    Text → PublicIdentity → PublicIdentity → ℕ → ℕ → ℕ → Option Bytes → Bytes
unfolding parent_part
compute_payload session_id issuer peer issued_at expires_at renew_count parent_lease_id =
    ascii "BlindOverlap:SessionLease:v1"
    ++ (0
        ∷ (session_id
            ++ (0
                ∷ (issuer
                    ++ (peer
                        ++ (to_le_bytes 8 issued_at
                            ++ (to_le_bytes 8 expires_at
                                ++ (to_le_bytes 4 renew_count ++ parent_part parent_lease_id))))))))

unfoldable pub payload_of : SessionLease → Bytes
unfolding compute_payload
payload_of l =
    compute_payload l.session_id l.issuer_pubkey l.peer_pubkey l.issued_at l.expires_at
      l.renew_count l.parent_lease_id

unfoldable pub check_validity_window : ℕ → SessionLease → Result LeaseError Unit
check_validity_window now l =
    if ltb now l.issued_at
    then err (not_yet_valid l.issued_at now)
    else if ltb l.expires_at now
    then err (expired l.expires_at now)
    else ok tt

unfoldable pub is_expired : ℕ → SessionLease → Bool
is_expired now l = ltb l.expires_at now

unfoldable pub remaining_secs : ℕ → SessionLease → Option ℕ
remaining_secs now l = if ltb l.expires_at now then none else some (l.expires_at - now)

unfoldable pub is_renewal : SessionLease → Bool
is_renewal l = is_some l.parent_lease_id

module _ ⦃c : Crypto⦄ where
  -- The sum of the times wraps, as in a release build.
  unfoldable pub issue : ℕ → PartyIdentity → Text → PublicIdentity → ℕ → SessionLease
  issue now issuer session_id peer_pubkey ttl_secs =
      let expires_at = wrapping_add now ttl_secs in
      record {
        version = 1;
        session_id = session_id;
        issuer_pubkey = Identity.public issuer;
        peer_pubkey = peer_pubkey;
        issued_at = now;
        expires_at = expires_at;
        renew_count = 0;
        parent_lease_id = none;
        signature =
            Identity.sign issuer (
              compute_payload session_id (Identity.public issuer) peer_pubkey now expires_at 0
                none);
      }

  unfoldable pub issue_default : ℕ → PartyIdentity → Text → PublicIdentity → SessionLease
  unfolding issue
  issue_default now issuer session_id peer_pubkey =
      issue now issuer session_id peer_pubkey default_lease_ttl_secs

  unfoldable pub lease_id : SessionLease → Bytes
  lease_id l = c.sha256 l.signature

  -- The lease that a renewal makes. The count of a release build wraps at 2 ^ 32.
  pub renewed : ℕ → SessionLease → PartyIdentity → ℕ → SessionLease
  renewed now l issuer ttl_secs =
      let expires_at = wrapping_add now ttl_secs in
      let renew_count = (l.renew_count + 1) % 2 ^ 32 in
      let parent_lease_id = some (lease_id l) in
      record {
        version = 1;
        session_id = l.session_id;
        issuer_pubkey = l.issuer_pubkey;
        peer_pubkey = l.peer_pubkey;
        issued_at = now;
        expires_at = expires_at;
        renew_count = renew_count;
        parent_lease_id = parent_lease_id;
        signature = Identity.sign issuer (
            compute_payload l.session_id l.issuer_pubkey l.peer_pubkey now expires_at renew_count
              parent_lease_id);
      }

  pub renew : ℕ → SessionLease → PartyIdentity → ℕ → Result LeaseError SessionLease
  renew now l issuer ttl_secs =
      if not (eqb l.issuer_pubkey (Identity.public issuer))
      then err
          (issuer_mismatch (c.hex_encode l.issuer_pubkey) (c.hex_encode (Identity.public issuer)))
      else ok (renewed now l issuer ttl_secs)

  unfoldable pub verify : ℕ → SessionLease → Result LeaseError Unit
  unfolding check_validity_window
  verify now l = do
    map_err (λ e. invalid_signature) (Identity.verify l.issuer_pubkey (payload_of l) l.signature)
    check_validity_window now l

  unfoldable pub verify_issuer : ℕ → SessionLease → PublicIdentity → Result LeaseError Unit
  unfolding verify
  verify_issuer now l expected_issuer = do
    verify now l
    refuse (not (eqb l.issuer_pubkey expected_issuer))
        (issuer_mismatch (c.hex_encode expected_issuer) (c.hex_encode l.issuer_pubkey))

  unfoldable pub verify_for_peer : ℕ → SessionLease → PublicIdentity → Result LeaseError Unit
  unfolding verify
  verify_for_peer now l peer = do
    verify now l
    refuse (not (eqb l.peer_pubkey peer))
        (peer_mismatch (c.hex_encode l.peer_pubkey) (c.hex_encode peer))

  unfoldable pub verify_for_session : ℕ → SessionLease → Text → Result LeaseError Unit
  unfolding verify
  verify_for_session now l session_id = do
    verify now l
    refuse (not (eqb l.session_id session_id)) (session_mismatch l.session_id session_id)

  -- The clock is read three times.
  unfoldable pub verify_full :
      (now now' now'' : ℕ)
      → SessionLease
      → PublicIdentity
      → PublicIdentity
      → Text
      → Result LeaseError Unit
  unfolding verify_issuer verify_for_peer verify_for_session
  verify_full now now' now'' l expected_issuer peer session_id = do
    verify_issuer now l expected_issuer
    verify_for_peer now' l peer
    verify_for_session now'' l session_id
