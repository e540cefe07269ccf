-- ===== src/Policy.antt =====
-- crates/blindoverlap/src/policy.rs: policy profiles and the parameters that they are checked against.
pub mod Checks
use blind_overlap.Prelude.{
  ℕ, Bool, true, false, not, ◌&&◌, Option, none, some, ltb, Result, ok, err, ◌>>=◌, ◌>>◌, refuse,
}
use blind_overlap.Bytes.{Text}

-- The errors of a check; JSON and file errors belong to parts that are not modelled.
pub data PolicyError : Type 0 where
  trusted_peer_required lease_required invite_required intersection_not_allowed :
      (policy : Text) → PolicyError
  insufficient_padding : (policy : Text) (required offered : ℕ) → PolicyError
  ttl_too_long : (policy : Text) (max_secs offered_secs : ℕ) → PolicyError

pub record PolicyProfile : Type 0 where
  pub name : Text
  pub require_trusted_peer : Bool
  pub min_pad_to : Option ℕ
  pub max_ttl_secs : Option ℕ
  pub require_lease : Bool
  pub require_invite : Bool
  pub allow_cardinality_only : Bool

pub record SessionParams : Type 0 where
  pub has_trusted_peer : Bool
  pub pad_to : Option ℕ
  pub ttl_secs : ℕ
  pub has_lease : Bool
  pub has_invite : Bool
  pub is_intersection_mode : Bool

unfoldable pub new : Text → PolicyProfile
new name = record {
  name = name;
  require_trusted_peer = false;
  min_pad_to = none;
  max_ttl_secs = none;
  require_lease = false;
  require_invite = false;
  allow_cardinality_only = false;
}

unfoldable pub permissive : Text → PolicyProfile
unfolding new
permissive name = new name

unfoldable pub strict : Text → PolicyProfile
strict name = record {
  name = name;
  require_trusted_peer = true;
  min_pad_to = some 64;
  max_ttl_secs = some 300;
  require_lease = false;
  require_invite = true;
  allow_cardinality_only = false;
}

-- `params.pad_to.unwrap_or(0)`
abbrev pub offered_padding : Option ℕ → ℕ
offered_padding none = 0
offered_padding (some n) = n

unfoldable pub check_padding : Text → Option ℕ → ℕ → Result PolicyError Unit
check_padding name none offered = ok tt
check_padding name (some min_pad) offered =
    refuse (ltb offered min_pad) (insufficient_padding name min_pad offered)

unfoldable pub check_ttl : Text → Option ℕ → ℕ → Result PolicyError Unit
check_ttl name none ttl_secs = ok tt
check_ttl name (some max_ttl) ttl_secs =
    refuse (ltb max_ttl ttl_secs) (ttl_too_long name max_ttl ttl_secs)

unfoldable pub check : PolicyProfile → SessionParams → Result PolicyError Unit
check p params = do
  refuse (p.require_trusted_peer && not params.has_trusted_peer) (trusted_peer_required p.name)
  check_padding p.name p.min_pad_to (offered_padding params.pad_to)
  check_ttl p.name p.max_ttl_secs params.ttl_secs
  refuse (p.require_lease && not params.has_lease) (lease_required p.name)
  refuse (p.require_invite && not params.has_invite) (invite_required p.name)
  refuse (p.allow_cardinality_only && params.is_intersection_mode) (intersection_not_allowed p.name)

unfoldable pub enforce : PolicyProfile → SessionParams → Result PolicyError Unit
unfolding check
enforce p params = check p params
