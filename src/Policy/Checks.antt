-- ===== src/Policy/Checks.antt =====
-- Which parameters a policy accepts, what its errors say, and how policies compare.
use blind_overlap.Prelude.{
  ℕ, ◌≤◌, ◌<◌, ◌≡◌, ◌↔◌, refl, true, false, Option, none, some, arith, ok, err,
}
use blind_overlap.Bytes.{Text}
use blind_overlap.Policy.{
  PolicyError, trusted_peer_required, lease_required, invite_required, intersection_not_allowed,
  insufficient_padding, ttl_too_long, PolicyProfile, SessionParams, offered_padding, check_padding,
  check_ttl, check,
}

abbrev AtLeast : Option ℕ → ℕ → Type 0
AtLeast none n = Unit
AtLeast (some least) n = least ≤ n

abbrev AtMost : Option ℕ → ℕ → Type 0
AtMost none n = Unit
AtMost (some most) n = n ≤ most

-- The parameters meet every requirement of the policy.
pub record Meets (p : PolicyProfile) (s : SessionParams) : Type 0 where
  pub peer : p.require_trusted_peer ≡ true → s.has_trusted_peer ≡ true
  pub padding : AtLeast p.min_pad_to (offered_padding s.pad_to)
  pub ttl : AtMost p.max_ttl_secs s.ttl_secs
  pub lease : p.require_lease ≡ true → s.has_lease ≡ true
  pub invite : p.require_invite ≡ true → s.has_invite ≡ true
  pub mode : p.allow_cardinality_only ≡ true → s.is_intersection_mode ≡ false

-- What an error reports is a requirement of this policy, with its name and numbers, that the
-- parameters fail.
abbrev IsTruthful : PolicyProfile → SessionParams → PolicyError → Type 0
IsTruthful p s (trusted_peer_required name) =
    (name ≡ p.name) × (p.require_trusted_peer ≡ true) × (s.has_trusted_peer ≡ false)
IsTruthful p s (insufficient_padding name required offered) =
    (name ≡ p.name)
    × (p.min_pad_to ≡ some required)
    × (offered ≡ offered_padding s.pad_to)
    × (offered < required)
IsTruthful p s (ttl_too_long name max_secs offered_secs) =
    (name ≡ p.name)
    × (p.max_ttl_secs ≡ some max_secs)
    × (offered_secs ≡ s.ttl_secs)
    × (max_secs < offered_secs)
IsTruthful p s (lease_required name) =
    (name ≡ p.name) × (p.require_lease ≡ true) × (s.has_lease ≡ false)
IsTruthful p s (invite_required name) =
    (name ≡ p.name) × (p.require_invite ≡ true) × (s.has_invite ≡ false)
IsTruthful p s (intersection_not_allowed name) =
    (name ≡ p.name) × (p.allow_cardinality_only ≡ true) × (s.is_intersection_mode ≡ true)

padding_iff : (name : Text) (o : Option ℕ) (n : ℕ) → (check_padding name o n ≡ ok tt) ↔ AtLeast o n
unfolding check_padding
padding_iff name none n = (λ h. tt, λ h. refl)
padding_iff name (some least) n = (λ h. ground arith, λ h. ground arith)

ttl_iff : (name : Text) (o : Option ℕ) (n : ℕ) → (check_ttl name o n ≡ ok tt) ↔ AtMost o n
unfolding check_ttl
ttl_iff name none n = (λ h. tt, λ h. refl)
ttl_iff name (some most) n = (λ h. ground arith, λ h. ground arith)

-- A check accepts exactly the parameters that meet all requirements.
pub check_iff : (p : PolicyProfile) (s : SessionParams) → (check p s ≡ ok tt) ↔ Meets p s
unfolding check
check_iff p s = (
  λ h. record {
    peer = λ e. ground arith;
    padding = (padding_iff p.name p.min_pad_to (offered_padding s.pad_to)).0 (ground arith);
    ttl = (ttl_iff p.name p.max_ttl_secs s.ttl_secs).0 (ground arith);
    lease = λ e. ground arith;
    invite = λ e. ground arith;
    mode = λ e. ground arith;
  },
  λ m. ground (
    arith,
    m.peer,
    (padding_iff p.name p.min_pad_to (offered_padding s.pad_to)).1 m.padding,
    (ttl_iff p.name p.max_ttl_secs s.ttl_secs).1 m.ttl,
    m.lease,
    m.invite,
    m.mode,
  ),
)

-- Every error of a check names a requirement that is really there and is really not met.
check_error :
    (p : PolicyProfile) (s : SessionParams) (e : PolicyError) → check p s ≡ err e → IsTruthful p s e
unfolding check check_padding check_ttl
check_error p s (trusted_peer_required name) h = ground arith
check_error p s _ h = ground arith

-- Every requirement of `q` is one of `p`, with a bound that is at least as tight.
pub record IsStricter (p q : PolicyProfile) : Type 0 where
  pub peer : q.require_trusted_peer ≡ true → p.require_trusted_peer ≡ true
  pub padding : (n : ℕ) → AtLeast p.min_pad_to n → AtLeast q.min_pad_to n
  pub ttl : (n : ℕ) → AtMost p.max_ttl_secs n → AtMost q.max_ttl_secs n
  pub lease : q.require_lease ≡ true → p.require_lease ≡ true
  pub invite : q.require_invite ≡ true → p.require_invite ≡ true
  pub mode : q.allow_cardinality_only ≡ true → p.allow_cardinality_only ≡ true

-- What a stricter policy accepts, a laxer one accepts.
pub check_mono :
    (p q : PolicyProfile) (s : SessionParams)
    → IsStricter p q
    → check p s ≡ ok tt
    → check q s ≡ ok tt
check_mono p q s le h =
    let m = (check_iff p s).0 h in
    (check_iff q s).1 (record {
      peer = λ e. m.peer (le.peer e);
      padding = le.padding (offered_padding s.pad_to) m.padding;
      ttl = le.ttl s.ttl_secs m.ttl;
      lease = λ e. m.lease (le.lease e);
      invite = λ e. m.invite (le.invite e);
      mode = λ e. m.mode (le.mode e);
    })
