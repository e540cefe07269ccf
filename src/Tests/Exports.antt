-- ===== src/Tests/Exports.antt =====
-- A reply of the online commands, and the export of its state.
use blind_overlap.Prelude.{◌≡◌, refl, true, none, some, List, [], ◌∷◌, arith, ok, if◌then◌else◌}
use blind_overlap.Bytes.{ascii, eqb, lex}
use blind_overlap.Freshness.{new_deadline, validate}
use blind_overlap.FactSet.{from_ids}
use blind_overlap.OrdSet
use blind_overlap.Json
use blind_overlap.Json.{Json, Fields, JsonLibrary}
use blind_overlap.Protocol.{IntersectionMode}
use blind_overlap.Seal.{SealedSessionRecord}
use blind_overlap.Cli.Common.{Files, Effect, emit, perform, Serde}
use blind_overlap.Cli.FactFile.{load_fact_set}
use blind_overlap.Cli.Online.Replying.{cmd_online_reply, reply_state}
use blind_overlap.Cli.Online.Run.{made_offer, replied_state}
use blind_overlap.Cli.Records.{cmd_session_export}
use blind_overlap.Cli.Records.Nonces.{WritesNonces, reply_export_swaps}
use blind_overlap.Tests.Commands.{
  unary_crypto, unary-HexRoundTrips, id_of, encode, files, set_b, loads_b,
}
use blind_overlap.Tests.Online.{
  drawn_a, drawn_b, masks_a, kinds, no_identity, no_state, plain_codec,
}

-- The directory of the responder, with the offer.
abbrev with_offer : Files
with_offer p = if eqb p (ascii "offer.json") then some (0 ∷ []) else files p

abbrev entries : Fields
entries =
    Json.field (ascii "nonce_hex") (Json.string (encode (id_of 6)))
      (Json.field (ascii "initiator_nonce_hex") (Json.string (encode (id_of 5))) Json.no_fields)

-- A parser that knows the one state.
instance abbrev one_state : JsonLibrary
one_state = record { display_f64 = λ bits. []; parse = λ t. some (Json.object entries) }

instance abbrev no_record : Serde SealedSessionRecord
no_record = record { to_string_pretty = λ r. ascii "record"; from_str = λ t. none }

loads_with_offer : load_fact_set with_offer (ascii "b.txt") ≡ ok set_b
unfolding load_fact_set ascii eqb blind_overlap.Cli.Lines.unlines
    blind_overlap.Cli.FactFile.load_fact_ids blind_overlap.Cli.Common.read_to_string
loads_with_offer = loads_b

entries-WritesNonces :
    WritesNonces
      (replied_state ⦃w = plain_codec⦄ 102 drawn_b
        (ascii "intersection")
        (some 30)
        (id_of 5)
        (made_offer ⦃w = plain_codec⦄ 100 drawn_a (ascii "s1") (some 30) masks_a)
        set_b
        IntersectionMode.intersection)
      entries
unfolding Json.get eqb ascii reply_state blind_overlap.Session.Responder.initial
entries-WritesNonces = record { own = refl; theirs = refl }

reply_export_swaps_example :
    (effects : List Effect) × (r : SealedSessionRecord) × (cmd_online_reply ⦃w = plain_codec⦄ 101
        102
        (id_of 7)
        drawn_b
        (id_of 8)
        with_offer
        (ascii "b.txt")
        (ascii "offer.json")
        (ascii "intersection")
        (some 30)
        none
        none
        (some (ascii "reply.json"))
        (ascii "state.json")
        none
        none
      ≡ ok effects)
    × (cmd_session_export 110 111 112 113 114 115
          (perform effects with_offer)
          (ascii "s1")
          (ascii "state.json")
          none
          none
          none
          true
          none
          (some (ascii "record.json"))
        ≡ ok (emit (some (ascii "record.json")) (no_record.to_string_pretty r) ∷ []))
    × (r.initiator_nonce ≡ some (id_of 6))
    × (r.responder_nonce ≡ some (id_of 5))
unfolding from_ids OrdSet.collect lex blind_overlap.Cli.Common.parse_mode eqb ascii
    blind_overlap.Cli.Online.Offering.ttl_or_default validate new_deadline
    blind_overlap.Wire.Offer.new_v2
reply_export_swaps_example =
    reply_export_swaps ⦃w = plain_codec⦄ unary-HexRoundTrips 101 102 110 111 112 113 114 115
      (id_of 7) drawn_b (id_of 8) with_offer (ascii "b.txt") (ascii "offer.json")
      (ascii "intersection") (some 30) (ascii "reply.json") (ascii "state.json") (0 ∷ []) set_b
      IntersectionMode.intersection 100 drawn_a (ascii "s1") (ascii "s1") masks_a entries true
      (some (ascii "record.json")) loads_with_offer refl (omega arith) refl refl refl refl refl
      entries-WritesNonces refl refl
