-- ===== src/Tests/Records.antt =====
-- Attestations and sealed records.
use blind_overlap.Prelude.{◌≡◌, some, none, map}
use blind_overlap.Bytes.{ascii}
use blind_overlap.Identity.{PartyIdentity}
use blind_overlap.Seal.{SealedSessionRecord, WireMessageEntry}
use blind_overlap.Seal.Record.{
  SealedSessionBuilder, new_builder, add_sent_message, add_seal, assemble, verify_seal_from,
}
use blind_overlap.Seal.Verification.{Retouched, retouch, verify_seal_ignores}
use blind_overlap.Tests.Common.{id_of, toy_crypto}

abbrev alice : PartyIdentity
alice = record { seed = id_of 1 }

abbrev bob : PartyIdentity
bob = record { seed = id_of 2 }

abbrev builder : SealedSessionBuilder
builder =
    add_sent_message 100 (ascii "offer") (ascii "{}")
      (record new_builder { session_id = some (ascii "s1") })

abbrev the_record : SealedSessionRecord
the_record = (add_seal 130 alice (assemble 100 120 (ascii "s1") builder)).1

-- The messages pass for reveals without content.
abbrev forged : WireMessageEntry → Retouched
forged m = record { message_type = ascii "reveal"; timestamp = 0; size_bytes = 0; content = none }

verify_seal_ignores_example :
    verify_seal_from
      (record the_record {
        version = 2;
        exported_at = 999;
        receipt = none;
        initiator_nonce = some (id_of 5);
        responder_nonce = none;
        messages = map (retouch forged) the_record.messages;
      })
      (id_of 1)
    ≡ verify_seal_from the_record (id_of 1)
verify_seal_ignores_example =
    verify_seal_ignores the_record (id_of 1) 2 999 none (some (id_of 5)) none forged
