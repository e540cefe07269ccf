-- ===== src/Seal.antt =====
-- crates/blindoverlap/src/seal.rs: records of a session, their builder and their seal.
pub mod Record
pub mod Verification
use blind_overlap.Prelude.{ℕ, Option, none, some, List, [], ◌∷◌, ◌++◌, length, map}
use blind_overlap.Bytes.{Bytes, Text, ascii}
use blind_overlap.Bytes.Encoding.{to_le_bytes}
use blind_overlap.Crypto.{Crypto}
use blind_overlap.Freshness.{SessionNonce, TranscriptDigest, Transcript, compute_digest}
use blind_overlap.Identity.{PublicIdentity, Signature}
use blind_overlap.Receipt.WireBound.{WireBoundReceipt}

abbrev pub sealed_record_domain : Bytes
sealed_record_domain = ascii "BlindOverlap:SealedRecord:v1"

-- The errors of the operations; JSON and file errors belong to parts that are not modelled.
pub data SealError : Type 0 where
  integrity_failed : (computed expected : Text) → SealError
  seal_verification_failed not_sealed : SealError
  signer_mismatch : (expected got : Text) → SealError
  missing_data : Text → SealError

pub data MessageDirection : Type 0 where
  sent received : MessageDirection

pub record WireMessageEntry : Type 0 where
  pub sequence : ℕ
  pub direction : MessageDirection
  pub message_type : Text
  pub timestamp : ℕ
  pub size_bytes : ℕ
  pub message_hash : Bytes
  pub content : Option Text

pub data SessionStatus : Type 0 where
  in_progress completed failed aborted : SessionStatus

pub record RecordSeal : Type 0 where
  pub sealer_pubkey : PublicIdentity
  pub sealed_at : ℕ
  pub signature : Signature

pub record SealedSessionRecord : Type 0 where
  pub version : ℕ
  pub session_id : Text
  pub protocol_version : ℕ
  pub status : SessionStatus
  pub started_at : ℕ
  pub exported_at : ℕ
  pub local_pubkey : Option PublicIdentity
  pub peer_pubkey : Option PublicIdentity
  pub messages : List WireMessageEntry
  pub transcript_digest : Option TranscriptDigest
  pub initiator_nonce : Option SessionNonce
  pub responder_nonce : Option SessionNonce
  pub receipt : Option WireBoundReceipt
  pub body_digest : Bytes
  pub seal : Option RecordSeal

status_byte : SessionStatus → ℕ
status_byte in_progress = 0
status_byte completed = 1
status_byte failed = 2
status_byte aborted = 3

pub direction_byte : MessageDirection → ℕ
direction_byte sent = 0
direction_byte received = 1

-- `if let Some(x) = field { update([1]); update(x) } else { update([0]) }`
optional_bytes : Option Bytes → Bytes
optional_bytes (some b) = 1 ∷ b
optional_bytes none = 0 ∷ []

-- The loop over the messages.
pub message_parts : List WireMessageEntry → Bytes
unfolding direction_byte
message_parts [] = []
message_parts (m ∷ rest) =
    to_le_bytes 4 m.sequence
    ++ (direction_byte m.direction ∷ (m.message_hash ++ message_parts rest))

-- What `compute_body_digest` feeds to the hasher.
pub body_digest_input :
    Text
    → ℕ
    → SessionStatus
    → ℕ
    → Option PublicIdentity
    → Option PublicIdentity
    → List WireMessageEntry
    → Option TranscriptDigest
    → Bytes
unfolding status_byte optional_bytes message_parts
body_digest_input session_id protocol_version status started_at local_pubkey peer_pubkey messages
      transcript_digest =
    sealed_record_domain
    ++ (session_id
        ++ (protocol_version
            ∷ status_byte status
            ∷ (to_le_bytes 8 started_at
                ++ (optional_bytes local_pubkey
                    ++ (optional_bytes peer_pubkey
                        ++ (to_le_bytes 4 (length messages)
                            ++ (message_parts messages ++ optional_bytes transcript_digest)))))))

module _ ⦃c : Crypto⦄ where
  pub compute_body_digest :
      Text
      → ℕ
      → SessionStatus
      → ℕ
      → Option PublicIdentity
      → Option PublicIdentity
      → List WireMessageEntry
      → Option TranscriptDigest
      → Bytes
  unfolding body_digest_input
  compute_body_digest session_id protocol_version status started_at local_pubkey peer_pubkey
        messages transcript_digest =
      c.sha256 (
        body_digest_input session_id protocol_version status started_at local_pubkey peer_pubkey
          messages transcript_digest)

  pub compute_transcript_digest :
      Text
      → Option SessionNonce
      → Option SessionNonce
      → List WireMessageEntry
      → Option TranscriptDigest
  compute_transcript_digest session_id none responder_nonce messages = none
  compute_transcript_digest session_id (some init_nonce) responder_nonce messages = some (
      compute_digest (record {
        session_id = session_id;
        initiator_nonce = init_nonce;
        responder_nonce = responder_nonce;
        offer_elements = map (λ m. m.message_hash) messages;
        reply_responder_masked = none;
        reply_initiator_doubly_masked = none;
      }))
