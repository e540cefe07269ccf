-- ===== src/Seal/Record.antt =====
-- `SealedSessionBuilder` and `SealedSessionRecord` of crates/blindoverlap/src/seal.rs.
use blind_overlap.Prelude.{
  ℕ, ◌^◌, ◌%◌, Bool, true, false, not, Option, none, some, List, [], ◌∷◌, ◌++◌, length,
  if◌then◌else◌, Result, ok, ◌>>=◌, ◌>>◌, refuse, map_err, ok_or,
}
use blind_overlap.Bytes.{Bytes, Text, ascii, eqb}
use blind_overlap.Crypto.{Crypto}
use blind_overlap.Freshness.{SessionNonce}
use blind_overlap.Identity
use blind_overlap.Identity.{PublicIdentity, PartyIdentity}
use blind_overlap.Receipt.WireBound.{WireBoundReceipt}
use blind_overlap.Seal.{
  sealed_record_domain, SealError, integrity_failed, seal_verification_failed, not_sealed,
  signer_mismatch, missing_data, MessageDirection, sent, received, WireMessageEntry, SessionStatus,
  in_progress, SealedSessionRecord, compute_body_digest, compute_transcript_digest,
}

pub record SealedSessionBuilder : Type 0 where
  pub session_id : Option Text
  pub protocol_version : ℕ
  pub status : SessionStatus
  pub started_at : Option ℕ
  pub local_pubkey : Option PublicIdentity
  pub peer_pubkey : Option PublicIdentity
  pub messages : List WireMessageEntry
  pub initiator_nonce : Option SessionNonce
  pub responder_nonce : Option SessionNonce
  pub receipt : Option WireBoundReceipt

-- `SealedSessionBuilder::new`. Each setter of the builder sets the field of its name.
unfoldable pub new_builder : SealedSessionBuilder
new_builder = record {
  session_id = none;
  protocol_version = 2;
  status = in_progress;
  started_at = none;
  local_pubkey = none;
  peer_pubkey = none;
  messages = [];
  initiator_nonce = none;
  responder_nonce = none;
  receipt = none;
}

-- `unwrap_or_else(current_unix_time)`
abbrev pub started_or : Option ℕ → ℕ → ℕ
started_or none now = now
started_or (some t) now = t

module _ ⦃c : Crypto⦄ where
  create_message_entry : ℕ → ℕ → MessageDirection → Text → Text → Bool → WireMessageEntry
  create_message_entry now sequence direction message_type json include_content = record {
    sequence = sequence;
    direction = direction;
    message_type = message_type;
    timestamp = now;
    size_bytes = length json;
    message_hash = c.sha256 json;
    content = if include_content then some json else none;
  }

  -- The body that the three methods which add a message share.
  add_message :
      ℕ → MessageDirection → Text → Text → Bool → SealedSessionBuilder → SealedSessionBuilder
  unfolding create_message_entry
  add_message now direction message_type json include_content b = record b {
    messages =
        b.messages
        ++ (create_message_entry now (length b.messages % 2 ^ 32) direction message_type json
              include_content
            ∷ []);
  }

  unfoldable pub add_sent_message : ℕ → Text → Text → SealedSessionBuilder → SealedSessionBuilder
  unfolding add_message
  add_sent_message now message_type json b = add_message now sent message_type json true b

  unfoldable pub add_received_message :
      ℕ → Text → Text → SealedSessionBuilder → SealedSessionBuilder
  unfolding add_message
  add_received_message now message_type json b = add_message now received message_type json true b

  unfoldable pub add_message_hash :
      ℕ → MessageDirection → Text → Text → SealedSessionBuilder → SealedSessionBuilder
  unfolding add_message
  add_message_hash now direction message_type json b =
      add_message now direction message_type json false b

  -- The record that `build` makes, for a session identifier and a start.
  unfoldable pub assemble :
      (started_at exported_at : ℕ) → Text → SealedSessionBuilder → SealedSessionRecord
  unfolding compute_transcript_digest compute_body_digest
  assemble started_at exported_at session_id b =
      let transcript_digest =
        compute_transcript_digest session_id b.initiator_nonce b.responder_nonce b.messages in
      record {
        version = 1;
        session_id = session_id;
        protocol_version = b.protocol_version;
        status = b.status;
        started_at = started_at;
        exported_at = exported_at;
        local_pubkey = b.local_pubkey;
        peer_pubkey = b.peer_pubkey;
        messages = b.messages;
        transcript_digest = transcript_digest;
        initiator_nonce = b.initiator_nonce;
        responder_nonce = b.responder_nonce;
        receipt = b.receipt;
        body_digest =
            compute_body_digest session_id b.protocol_version b.status started_at b.local_pubkey
              b.peer_pubkey b.messages transcript_digest;
        seal = none;
      }

  -- The clock is read for a missing start, and for the export.
  unfoldable pub build :
      (now now' : ℕ) → SealedSessionBuilder → Result SealError SealedSessionRecord
  unfolding assemble
  build now now' b = do
    session_id ← ok_or b.session_id (missing_data (ascii "session_id"))
    ok (assemble (started_or b.started_at now) now' session_id b)

  unfoldable pub seal_payload : SealedSessionRecord → Bytes
  seal_payload r = sealed_record_domain ++ r.body_digest

  -- `seal`, which always succeeds.
  unfoldable pub add_seal :
      ℕ → PartyIdentity → SealedSessionRecord → Result SealError Unit × SealedSessionRecord
  unfolding seal_payload
  add_seal now party r = (
    ok tt,
    record r {
      seal = some (record {
        sealer_pubkey = Identity.public party;
        sealed_at = now;
        signature = Identity.sign party (seal_payload r);
      });
    },
  )

  unfoldable pub build_sealed :
      (now now' now'' : ℕ)
      → PartyIdentity
      → SealedSessionBuilder
      → Result SealError SealedSessionRecord
  unfolding build add_seal
  build_sealed now now' now'' party b = do
    r ← build now now' b
    (add_seal now'' party r).0
    ok (add_seal now'' party r).1

  pub verify_integrity : SealedSessionRecord → Result SealError Unit
  unfolding compute_body_digest
  verify_integrity r =
      let computed =
        compute_body_digest r.session_id r.protocol_version r.status r.started_at r.local_pubkey
          r.peer_pubkey r.messages r.transcript_digest in
      refuse (not (eqb computed r.body_digest))
        (integrity_failed (c.hex_encode computed) (c.hex_encode r.body_digest))

  pub verify_seal : SealedSessionRecord → Result SealError Unit
  unfolding verify_integrity seal_payload
  verify_seal r = do
    seal ← ok_or r.seal not_sealed
    verify_integrity r
    map_err (λ e. seal_verification_failed)
        (Identity.verify seal.sealer_pubkey (seal_payload r) seal.signature)

  unfoldable pub verify_seal_from : SealedSessionRecord → PublicIdentity → Result SealError Unit
  unfolding verify_seal
  verify_seal_from r expected_signer = do
    seal ← ok_or r.seal not_sealed
    refuse (not (eqb seal.sealer_pubkey expected_signer))
        (signer_mismatch (c.hex_encode expected_signer) (c.hex_encode seal.sealer_pubkey))
    verify_seal r

  unfoldable pub record_id : SealedSessionRecord → Bytes
  record_id r = c.sha256 r.body_digest
