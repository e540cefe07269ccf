-- ===== src/Cli/Records/Nonces.antt =====
-- `online-reply` and `session-export` of crates/blindoverlap-cli/src/main.rs, one after the other: the
-- nonces of the exported record.
use blind_overlap.Prelude.{
  ℕ, ◌≤◌, ◌≡◌, ◌∙◌, refl, Bool, Option, none, some, List, [], ◌∷◌, arith, length, ok,
}
use blind_overlap.Bytes.{Bytes, Text, ascii, eqb_refl}
use blind_overlap.Crypto.{Crypto, HexRoundTrips}
use blind_overlap.FactSet.{FactSet}
use blind_overlap.Freshness.{SessionNonce, new_deadline, validate}
use blind_overlap.Json
use blind_overlap.Json.{Json, Fields, JsonLibrary}
use blind_overlap.Protocol.{MaskedElement, IntersectionMode, max_set_size}
use blind_overlap.Seal.{SealedSessionRecord}
use blind_overlap.Seal.Record
use blind_overlap.Session.Initiator.{Drawn}
use blind_overlap.Session.Responder
use blind_overlap.Wire.Message.{WireMessage, WireCodec}
use blind_overlap.Cli.Common.{
  Files, Effect, emit, perform, write_file, Serde, StoredIdentity, parse_mode, read_to_string,
}
use blind_overlap.Cli.FactFile.{load_fact_set}
use blind_overlap.Cli.Online.{ResponderState, PrettyWire}
use blind_overlap.Cli.Online.Offering.{ttl_or_default}
use blind_overlap.Cli.Online.Replying.{cmd_online_reply, reply_state}
use blind_overlap.Cli.Online.Run.{made_offer, made_reply, replied_state, cmd_online_reply_writes}
use blind_overlap.Cli.Records.{cmd_session_export, exported_builder, add_file}
use blind_overlap.Cli.Records.Accepted.{exported_builder_swaps}

-- serde writes an optional text as a string or as `null`.
abbrev pub string_or_null : Option Text → Json
string_or_null none = Json.null
string_or_null (some s) = Json.string s

-- serde writes the two nonces of a state under the names of their fields.
pub record WritesNonces (state : ResponderState) (entries : Fields) : Type 0 where
  pub own : Json.get (ascii "nonce_hex") entries ≡ some (string_or_null state.nonce_hex)
  pub theirs :
      Json.get (ascii "initiator_nonce_hex") entries
      ≡ some (string_or_null state.initiator_nonce_hex)

module _ ⦃c : Crypto⦄ where
  read_second :
      (out state_out reply state : Text) (files : Files)
      → perform (write_file out reply ∷ write_file state_out state ∷ []) files state_out
        ≡ some state
  unfolding perform
  read_second out state_out reply state files = ground (arith, eqb_refl state_out)

  -- The export of a state without messages and seal has the nonces of the builder.
  export_unsealed :
      ⦃l : JsonLibrary⦄ ⦃i : Serde StoredIdentity⦄ ⦃k : Serde SealedSessionRecord⦄
      → (now now' now'' started built sealed : ℕ) (files : Files) (session_id path text : Text)
        (state : Json) (completed : Bool) (output : Option Text)
      → files path ≡ some text
      → l.parse text ≡ some state
      → (r : SealedSessionRecord) × (cmd_session_export now now' now'' started built sealed files
            session_id path none none none completed none output
          ≡ ok (emit output (k.to_string_pretty r) ∷ []))
        × (r.initiator_nonce ≡ (exported_builder session_id completed state).initiator_nonce)
        × (r.responder_nonce ≡ (exported_builder session_id completed state).responder_nonce)
  unfolding cmd_session_export read_to_string add_file exported_builder Record.build Record.assemble
  export_unsealed now now' now'' started built sealed files session_id path text state completed
        output reads parsed =
      let b = exported_builder session_id completed state in
      (
        Record.assemble (Record.started_or b.started_at started) built session_id b,
        ground (arith, reads, parsed),
        refl,
        refl,
      )

  -- An unsigned offer of `online-offer` with the same time to live, not expired, that `online-reply`
  -- answers without identity and padding, and `session-export` of the state that it wrote, without
  -- messages and seal: both commands succeed, and the
  -- exported record has the responder's nonce, the one that the reply drew, as the initiator's, and
  -- the initiator's, the one of the offer, as the responder's. Provided that hex text is decoded as
  -- what it encodes, and that the written JSON is parsed with the two nonces under their names.
  pub reply_export_swaps :
      ⦃w : WireCodec⦄ ⦃p : PrettyWire⦄ ⦃i : Serde StoredIdentity⦄ ⦃j : Serde ResponderState⦄
      ⦃l : JsonLibrary⦄ ⦃k : Serde SealedSessionRecord⦄
      → HexRoundTrips c
      → (now later now' now'' now''' started built sealed : ℕ) (fresh : SessionNonce)
        (drawn : Drawn) (random : Bytes) (files : Files) (input offer_path mode : Text)
        (ttl : Option ℕ) (out state_out text : Text) (b : FactSet) (m : IntersectionMode) (made : ℕ)
        (sender : Drawn) (session session_id : Text) (masked : List MaskedElement)
        (entries : Fields) (completed : Bool) (output : Option Text)
      → load_fact_set files input ≡ ok b
      → parse_mode mode ≡ ok m
      → length b.ids ≤ max_set_size
      → files offer_path ≡ some text
      → w.signed_from_str text ≡ none
      → w.from_str text ≡ some (WireMessage.offer (made_offer made sender session ttl masked))
      → validate now (new_deadline made (ttl_or_default ttl)) ≡ ok tt
      → l.parse (
          j.to_string_pretty (
            replied_state later drawn mode ttl sender.nonce
              (made_offer made sender session ttl masked)
              b
              m))
        ≡ some (Json.object entries)
      → WritesNonces
          (replied_state later drawn mode ttl sender.nonce
            (made_offer made sender session ttl masked)
            b
            m)
          entries
      → length drawn.nonce ≡ 32
      → length sender.nonce ≡ 32
      → (effects : List Effect) × (r : SealedSessionRecord) × (cmd_online_reply now later fresh
            drawn random files input offer_path mode ttl none none
            (some out)
            state_out
            none
            none
          ≡ ok effects)
        × (cmd_session_export now' now'' now''' started built sealed
              (perform effects files)
              session_id
              state_out
              none
              none
              none
              completed
              none
              output
            ≡ ok (emit output (k.to_string_pretty r) ∷ []))
        × (r.initiator_nonce ≡ some drawn.nonce)
        × (r.responder_nonce ≡ some sender.nonce)
  unfolding reply_state Responder.initial
  reply_export_swaps ⦃p = p⦄ ⦃j = j⦄ reads now later now' now'' now''' started built sealed fresh
        drawn random files input offer_path mode ttl out state_out text b m made sender session
        session_id masked entries completed output loads mode_is small read unsigned decoded timely
        parsed writes size_own size_theirs =
      let offer = made_offer made sender session ttl masked in
      let state = replied_state later drawn mode ttl sender.nonce offer b m in
      let reply = made_reply later drawn ttl sender.nonce offer b in
      let reply_text = p.pretty (WireMessage.reply reply) in
      let state_text = j.to_string_pretty state in
      let effects = write_file out reply_text ∷ write_file state_out state_text ∷ [] in
      let (r, exported, first, second) =
        export_unsealed now' now'' now''' started built sealed (perform effects files) session_id
          state_out state_text (Json.object entries) completed output
          (read_second out state_out reply_text state_text files) parsed in
      let swaps =
        exported_builder_swaps reads session_id completed entries drawn.nonce sender.nonce size_own
          size_theirs writes.own writes.theirs in
      (
        effects,
        r,
        cmd_online_reply_writes now later fresh drawn random files input offer_path mode ttl out
            state_out text b m made sender session masked loads mode_is small read unsigned decoded
            timely,
        exported,
        first ∙ swaps.0,
        second ∙ swaps.1,
      )
