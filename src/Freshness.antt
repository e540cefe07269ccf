-- ===== src/Freshness.antt =====
-- crates/blindoverlap/src/freshness.rs: nonces, deadlines and transcript digests. The clock is the
-- argument `now`, a number of seconds; each function that reads the clock takes it.
pub mod Deadlines
pub mod Transcripts
use blind_overlap.Prelude.{
  ℕ, ◌+◌, ◌-◌, ◌^◌, ◌%◌, min, Bool, Option, none, some, List, [], ◌++◌, length, leb, ltb, ◌==◌,
  if◌then◌else◌, Result, ok, err,
}
use blind_overlap.Bytes.{Bytes, Text, ascii}
use blind_overlap.Bytes.Encoding.{to_le_bytes}
use blind_overlap.Crypto.{Crypto}
use blind_overlap.FactSet.{concat}

abbrev pub u64_max : ℕ
u64_max = 2 ^ 64 - 1

-- `a.saturating_add(b)` and `a + b` of a release build, on `u64`.
abbrev pub saturating_add : ℕ → ℕ → ℕ
saturating_add a b = min (a + b) u64_max

abbrev pub wrapping_add : ℕ → ℕ → ℕ
wrapping_add a b = (a + b) % 2 ^ 64

abbrev pub default_ttl_secs : ℕ
default_ttl_secs = 300

-- `[u8; 32]` behind a newtype
abbrev pub SessionNonce : Type 0
SessionNonce = Bytes

abbrev pub TranscriptDigest : Type 0
TranscriptDigest = Bytes

-- A message that only formats values is kept as those values: `nonce_seen n t` is the text
-- "nonce {n} seen at {t}".
pub data SeenBefore : Type 0 where
  nonce_seen transcript_seen : Bytes → ℕ → SeenBefore

pub data FreshnessError : Type 0 where
  session_expired : (issued_at expires_at now : ℕ) → FreshnessError
  nonce_mismatch : (expected got : Text) → FreshnessError
  replay_detected : SeenBefore → FreshnessError
  invalid_timestamp : FreshnessError
  missing_fields : Text → FreshnessError

pub data FromHexError : Type 0 where
  invalid_hex invalid_string_length : FromHexError

pub record SessionDeadline : Type 0 where
  pub issued_at : ℕ
  pub expires_at : ℕ

-- `SessionDeadline::new`
unfoldable pub new_deadline : ℕ → ℕ → SessionDeadline
new_deadline now ttl_secs = record { issued_at = now; expires_at = saturating_add now ttl_secs }

pub is_expired : ℕ → SessionDeadline → Bool
is_expired now d = leb d.expires_at now

unfoldable pub validate : ℕ → SessionDeadline → Result FreshnessError Unit
validate now d =
    if leb d.expires_at d.issued_at
    then err invalid_timestamp
    else if leb d.expires_at now
    then err (session_expired d.issued_at d.expires_at now)
    else ok tt

-- In seconds.
pub remaining : ℕ → SessionDeadline → Option ℕ
remaining now d = if leb d.expires_at now then none else some (d.expires_at - now)

pub ttl : SessionDeadline → ℕ
ttl d = d.expires_at - d.issued_at

-- `responder_nonce`, `reply_responder_masked` and `reply_initiator_doubly_masked` of a transcript.
pub nonce_part : Option SessionNonce → Bytes
nonce_part none = []
nonce_part (some n) = ascii ":responder_nonce:" ++ n

-- The count of the elements and the elements.
pub counted : List Bytes → Bytes
unfolding concat
counted elems = to_le_bytes 8 (length elems) ++ concat elems

pub responder_part : Option (List Bytes) → Bytes
unfolding counted
responder_part none = []
responder_part (some elems) = ascii ":reply_responder_masked:" ++ counted elems

pub initiator_part : Option (List Bytes) → Bytes
unfolding counted
initiator_part none = []
initiator_part (some elems) = ascii ":reply_initiator_doubly_masked:" ++ counted elems

-- The arguments of `TranscriptDigest::compute`.
pub record Transcript : Type 0 where
  pub session_id : Text
  pub initiator_nonce : SessionNonce
  pub responder_nonce : Option SessionNonce
  pub offer_elements : List Bytes
  pub reply_responder_masked : Option (List Bytes)
  pub reply_initiator_doubly_masked : Option (List Bytes)

-- What `TranscriptDigest::compute` feeds to the hasher, update by update.
pub transcript_input : Transcript → Bytes
unfolding nonce_part counted responder_part initiator_part
transcript_input t =
    ascii "BlindOverlap:TranscriptDigest:v1"
    ++ (ascii ":session:"
        ++ (t.session_id
            ++ (ascii ":initiator_nonce:"
                ++ (t.initiator_nonce
                    ++ (nonce_part t.responder_nonce
                        ++ (ascii ":offer_elements:"
                            ++ (counted t.offer_elements
                                ++ (responder_part t.reply_responder_masked
                                    ++ initiator_part t.reply_initiator_doubly_masked))))))))

module _ ⦃c : Crypto⦄ where
  unfoldable pub compute_digest : Transcript → TranscriptDigest
  compute_digest t = c.sha256 (transcript_input t)

  -- `SessionNonce::from_hex` and `TranscriptDigest::from_hex`
  abbrev sized : Option Bytes → Result FromHexError Bytes
  sized none = err invalid_hex
  sized (some b) = if length b == 32 then ok b else err invalid_string_length

  unfoldable pub from_hex : Text → Result FromHexError Bytes
  from_hex s = sized (c.hex_decode s)

  unfoldable pub to_hex : Bytes → Text
  to_hex b = c.hex_encode b
