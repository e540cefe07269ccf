-- ===== src/Invite.antt =====
-- crates/blindoverlap/src/invite.rs: signed tickets for starting a session.
pub mod Verification
pub mod Payload
use blind_overlap.Prelude.{
  ℕ, ◌-◌, Bool, true, false, not, Option, none, some, List, [], ◌∷◌, ◌++◌, ltb, if◌then◌else◌,
  Result, ok, err, ◌>>=◌, ◌>>◌, refuse, map_err,
}
use blind_overlap.Bytes.{Bytes, Text, ascii, eqb}
use blind_overlap.Bytes.Encoding.{to_le_bytes}
use blind_overlap.Crypto.{Crypto}
use blind_overlap.Freshness.{wrapping_add}
use blind_overlap.Protocol.{IntersectionMode}
use blind_overlap.Identity
use blind_overlap.Identity.{PublicIdentity, PartyIdentity, Signature}

abbrev default_ticket_ttl_secs : ℕ
default_ticket_ttl_secs = 300

pub data AllowedMode : Type 0 where
  intersection cardinality any : AllowedMode

-- The errors of the checks; JSON and file errors belong to parts that are not modelled.
pub data InviteError : Type 0 where
  expired : (expires_at current_time : ℕ) → InviteError
  not_yet_valid : (issued_at current_time : ℕ) → InviteError
  invalid_signature : InviteError
  issuer_mismatch peer_mismatch session_mismatch : (expected got : Text) → InviteError
  mode_mismatch : (allowed : AllowedMode) (requested : IntersectionMode) → InviteError

unfoldable pub permits : AllowedMode → IntersectionMode → Bool
permits AllowedMode.intersection IntersectionMode.intersection = true
permits AllowedMode.intersection IntersectionMode.cardinality = false
permits AllowedMode.cardinality IntersectionMode.intersection = false
permits AllowedMode.cardinality IntersectionMode.cardinality = true
permits AllowedMode.any mode = true

pub record InviteTicket : Type 0 where
  pub version : ℕ
  pub session_id : Text
  pub issuer_pubkey : PublicIdentity
  pub peer_pubkey : Option PublicIdentity
  pub allowed_mode : AllowedMode
  pub issued_at : ℕ
  pub expires_at : ℕ
  pub signature : Signature

pub peer_part : Option PublicIdentity → Bytes
peer_part (some p) = 1 ∷ p
peer_part none = 0 ∷ []

pub mode_byte : AllowedMode → ℕ
mode_byte AllowedMode.intersection = 1
mode_byte AllowedMode.cardinality = 2
mode_byte AllowedMode.any = 3

unfoldable pub compute_payload :
    Text → PublicIdentity → Option PublicIdentity → AllowedMode → ℕ → ℕ → Bytes
unfolding peer_part mode_byte
compute_payload session_id issuer peer allowed_mode issued_at expires_at =
    ascii "BlindOverlap:InviteTicket:v1"
    ++ (0
        ∷ (session_id
            ++ (0
                ∷ (issuer
                    ++ (peer_part peer
                        ++ (mode_byte allowed_mode
                            ∷ (to_le_bytes 8 issued_at ++ to_le_bytes 8 expires_at)))))))

unfoldable pub payload_of : InviteTicket → Bytes
unfolding compute_payload
payload_of t =
    compute_payload t.session_id t.issuer_pubkey t.peer_pubkey t.allowed_mode t.issued_at
      t.expires_at

unfoldable pub check_validity_window : ℕ → InviteTicket → Result InviteError Unit
check_validity_window now t =
    if ltb now t.issued_at
    then err (not_yet_valid t.issued_at now)
    else if ltb t.expires_at now
    then err (expired t.expires_at now)
    else ok tt

unfoldable pub is_expired : ℕ → InviteTicket → Bool
is_expired now t = ltb t.expires_at now

unfoldable pub remaining_secs : ℕ → InviteTicket → Option ℕ
remaining_secs now t = if ltb t.expires_at now then none else some (t.expires_at - now)

-- The check that the peer of a ticket, if it names one, is `peer`.
unfoldable pub check_peer :
    (Bytes → Text) → Option PublicIdentity → PublicIdentity → Result InviteError Unit
check_peer hex none peer = ok tt
check_peer hex (some expected_peer) peer =
    refuse (not (eqb expected_peer peer)) (peer_mismatch (hex expected_peer) (hex peer))

module _ ⦃c : Crypto⦄ where
  -- The sum of the times wraps, as in a release build.
  unfoldable pub issue :
      ℕ → PartyIdentity → Text → Option PublicIdentity → AllowedMode → ℕ → InviteTicket
  issue now issuer session_id peer_pubkey allowed_mode ttl_secs =
      let expires_at = wrapping_add now ttl_secs in
      record {
        version = 1;
        session_id = session_id;
        issuer_pubkey = Identity.public issuer;
        peer_pubkey = peer_pubkey;
        allowed_mode = allowed_mode;
        issued_at = now;
        expires_at = expires_at;
        signature = Identity.sign issuer (
            compute_payload session_id (Identity.public issuer) peer_pubkey allowed_mode now
              expires_at);
      }

  unfoldable pub issue_default :
      ℕ → PartyIdentity → Text → Option PublicIdentity → AllowedMode → InviteTicket
  unfolding issue
  issue_default now issuer session_id peer_pubkey allowed_mode =
      issue now issuer session_id peer_pubkey allowed_mode default_ticket_ttl_secs

  unfoldable pub verify : ℕ → InviteTicket → Result InviteError Unit
  unfolding check_validity_window
  verify now t = do
    map_err (λ e. invalid_signature) (Identity.verify t.issuer_pubkey (payload_of t) t.signature)
    check_validity_window now t

  unfoldable pub verify_issuer : ℕ → InviteTicket → PublicIdentity → Result InviteError Unit
  unfolding verify
  verify_issuer now t expected_issuer = do
    verify now t
    refuse (not (eqb t.issuer_pubkey expected_issuer))
        (issuer_mismatch (c.hex_encode expected_issuer) (c.hex_encode t.issuer_pubkey))

  unfoldable pub verify_for_peer : ℕ → InviteTicket → PublicIdentity → Result InviteError Unit
  unfolding verify
  verify_for_peer now t peer = do verify now t; check_peer c.hex_encode t.peer_pubkey peer

  unfoldable pub verify_for_session :
      ℕ → InviteTicket → Text → IntersectionMode → Result InviteError Unit
  unfolding verify
  verify_for_session now t session_id mode = do
    verify now t
    refuse (not (eqb t.session_id session_id)) (session_mismatch t.session_id session_id)
    refuse (not (permits t.allowed_mode mode)) (mode_mismatch t.allowed_mode mode)

  -- The clock is read three times.
  unfoldable pub verify_full :
      (now now' now'' : ℕ)
      → InviteTicket
      → PublicIdentity
      → PublicIdentity
      → Text
      → IntersectionMode
      → Result InviteError Unit
  unfolding verify_issuer verify_for_peer verify_for_session
  verify_full now now' now'' t expected_issuer peer session_id mode = do
    verify_issuer now t expected_issuer
    verify_for_peer now' t peer
    verify_for_session now'' t session_id mode

  unfoldable pub ticket_id : InviteTicket → Bytes
  ticket_id t = c.sha256 t.signature
