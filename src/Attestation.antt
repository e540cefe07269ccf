-- ===== src/Attestation.antt =====
-- crates/blindoverlap/src/attest.rs: signed attestations of an outcome, and co-signatures.
pub mod Signatures
use blind_overlap.Prelude.{
  ℕ, ◌-◌, Bool, true, false, not, ◌&&◌, is_some, Option, none, some, List, [], ◌∷◌, ◌++◌, leb,
  if◌then◌else◌, Result, ok, err, ◌>>=◌, ◌>>◌, refuse, ok_or, is_ok,
}
use blind_overlap.Bytes.{Bytes, Text, ascii, eqb}
use blind_overlap.Bytes.Encoding.{to_le_bytes}
use blind_overlap.Crypto.{Crypto}
use blind_overlap.Freshness.{TranscriptDigest, saturating_add}
use blind_overlap.Protocol.{IntersectionMode}
use blind_overlap.Identity
use blind_overlap.Identity.{PublicIdentity, PartyIdentity, Signature}

abbrev pub attestation_domain : Bytes
attestation_domain = ascii "blindoverlap-attest-v1"

pub data AttestationMode : Type 0 where
  intersection cardinality : AttestationMode

-- `From<IntersectionMode> for AttestationMode`
unfoldable pub attestation_mode : IntersectionMode → AttestationMode
attestation_mode IntersectionMode.intersection = AttestationMode.intersection
attestation_mode IntersectionMode.cardinality = AttestationMode.cardinality

-- The errors of the checks; JSON, hex and file errors belong to parts that are not modelled.
pub data AttestationError : Type 0 where
  expired : (issued_at expires_at now : ℕ) → AttestationError
  invalid_signature : AttestationError
  issuer_mismatch session_mismatch : (expected got : Text) → AttestationError
  mode_mismatch : (expected got : AttestationMode) → AttestationError
  missing_field : Text → AttestationError

pub record OverlapAttestation : Type 0 where
  pub version : ℕ
  pub session_id : Option Text
  pub mode : AttestationMode
  pub set_root_a : Bytes
  pub set_root_b : Bytes
  pub intersection_root : Option Bytes
  pub cardinality : Option ℕ
  pub transcript_digest : Option TranscriptDigest
  pub issued_at : ℕ
  pub expires_at : ℕ
  pub issuer_pubkey : PublicIdentity
  pub signature : Signature
  pub co_signer_pubkey : Option PublicIdentity
  pub co_signature : Option Signature

abbrev default_attestation_ttl_secs : ℕ
default_attestation_ttl_secs = 3600

-- `if let Some(x) = field { hasher.update(tag); hasher.update(x) }`
pub tagged : Bytes → Option Bytes → Bytes
tagged tag none = []
tagged tag (some b) = tag ++ b

cardinality_bytes : Option ℕ → Option Bytes
cardinality_bytes none = none
cardinality_bytes (some n) = some (to_le_bytes 8 n)

mode_name : AttestationMode → Bytes
mode_name AttestationMode.intersection = ascii "intersection"
mode_name AttestationMode.cardinality = ascii "cardinality"

-- What `signing_body` feeds to the hasher.
pub body_input : OverlapAttestation → Bytes
unfolding tagged cardinality_bytes mode_name
body_input a =
    attestation_domain
    ++ (ascii ":version:"
        ++ (a.version
            ∷ (tagged (ascii ":session:") a.session_id
                ++ (ascii ":mode:"
                    ++ (mode_name a.mode
                        ++ (ascii ":set_root_a:"
                            ++ (a.set_root_a
                                ++ (ascii ":set_root_b:"
                                    ++ (a.set_root_b
                                        ++ (tagged (ascii ":intersection_root:") a.intersection_root
                                            ++ (tagged (ascii ":cardinality:")
                                                  (cardinality_bytes a.cardinality)
                                                ++ (tagged (ascii ":transcript:")
                                                      a.transcript_digest
                                                    ++ (ascii ":issued_at:"
                                                        ++ (to_le_bytes 8 a.issued_at
                                                            ++ (ascii ":expires_at:"
                                                            ++ (to_le_bytes 8 a.expires_at
                                                            ++ (ascii ":issuer:"
                                                            ++ a.issuer_pubkey)))))))))))))))))

pub is_dual_signed : OverlapAttestation → Bool
is_dual_signed a = is_some a.co_signer_pubkey && is_some a.co_signature

unfoldable pub is_expired : ℕ → OverlapAttestation → Bool
is_expired now a = leb a.expires_at now

unfoldable pub remaining_secs : ℕ → OverlapAttestation → Option ℕ
remaining_secs now a = if leb a.expires_at now then none else some (a.expires_at - now)

unfoldable pub verify_session : OverlapAttestation → Text → Result AttestationError Unit
verify_session a expected = elim a.session_id [
  | none ↦ err (missing_field (ascii "session_id"))
  | some id ↦ if eqb id expected then ok tt else err (session_mismatch expected id)
]

module _ ⦃c : Crypto⦄ where
  pub signing_body : OverlapAttestation → Bytes
  unfolding body_input
  signing_body a = c.sha256 (body_input a)

  pub sign_with_domain : PartyIdentity → Bytes → Signature
  sign_with_domain party body = Identity.sign party (attestation_domain ++ body)

  pub verify_with_domain : PublicIdentity → Bytes → Signature → Bool
  verify_with_domain key body signature =
      is_ok (Identity.verify key (attestation_domain ++ body) signature)

  -- What `sign_intersection` and `sign_cardinality` do with the outcome.
  pub signed :
      ℕ
      → PartyIdentity
      → AttestationMode
      → Bytes
      → Bytes
      → Option Bytes
      → Option ℕ
      → Option Text
      → Option TranscriptDigest
      → ℕ
      → OverlapAttestation
  unfolding signing_body sign_with_domain
  signed now party mode root_a root_b root count session_id transcript ttl_secs =
      let attestation : OverlapAttestation = record {
        version = 1;
        session_id = session_id;
        mode = mode;
        set_root_a = root_a;
        set_root_b = root_b;
        intersection_root = root;
        cardinality = count;
        transcript_digest = transcript;
        issued_at = now;
        expires_at = saturating_add now ttl_secs;
        issuer_pubkey = Identity.public party;
        signature = [];
        co_signer_pubkey = none;
        co_signature = none;
      } in
      record attestation { signature = sign_with_domain party (signing_body attestation) }

  pub sign_intersection :
      ℕ
      → PartyIdentity
      → Bytes
      → Bytes
      → Bytes
      → Option Text
      → Option TranscriptDigest
      → ℕ
      → OverlapAttestation
  unfolding signed
  sign_intersection now party root_a root_b root session_id transcript ttl_secs =
      signed now party AttestationMode.intersection root_a root_b (some root) none session_id
        transcript ttl_secs

  pub sign_cardinality :
      ℕ
      → PartyIdentity
      → Bytes
      → Bytes
      → ℕ
      → Option Text
      → Option TranscriptDigest
      → ℕ
      → OverlapAttestation
  unfolding signed
  sign_cardinality now party root_a root_b count session_id transcript ttl_secs =
      signed now party AttestationMode.cardinality root_a root_b none (some count) session_id
        transcript ttl_secs

  unfoldable pub verify : ℕ → OverlapAttestation → Result AttestationError Unit
  unfolding signing_body verify_with_domain
  verify now a =
      if leb a.expires_at now
      then err (expired a.issued_at a.expires_at now)
      else if not (verify_with_domain a.issuer_pubkey (signing_body a) a.signature)
      then err invalid_signature
      else ok tt

  unfoldable pub verify_issuer : OverlapAttestation → PublicIdentity → Result AttestationError Unit
  verify_issuer a expected =
      refuse (not (eqb a.issuer_pubkey expected))
        (issuer_mismatch (c.hex_encode expected) (c.hex_encode a.issuer_pubkey))

  unfoldable pub verify_full :
      ℕ → OverlapAttestation → PublicIdentity → Result AttestationError Unit
  unfolding verify verify_issuer
  verify_full now a expected_issuer = do verify now a; verify_issuer a expected_issuer

  unfoldable pub attestation_id : OverlapAttestation → Bytes
  attestation_id a =
      c.sha256
        (attestation_domain ++ (a.issuer_pubkey ++ (to_le_bytes 8 a.issued_at ++ a.signature)))

  pub co_sign : PartyIdentity → OverlapAttestation → OverlapAttestation
  unfolding signing_body sign_with_domain
  co_sign co_signer a = record a {
    co_signer_pubkey = some (Identity.public co_signer);
    co_signature = some (sign_with_domain co_signer (signing_body a));
  }

  pub verify_co_signature : OverlapAttestation → Result AttestationError Unit
  unfolding signing_body verify_with_domain
  verify_co_signature a = do
    co_signer ← ok_or a.co_signer_pubkey (missing_field (ascii "co_signer_pubkey"))
    co_sig ← ok_or a.co_signature (missing_field (ascii "co_signature"))
    refuse (not (verify_with_domain co_signer (signing_body a) co_sig)) invalid_signature
