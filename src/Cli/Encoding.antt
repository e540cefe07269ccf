-- ===== src/Cli/Encoding.antt =====
-- `encode`, `canonicalize`, `identity-gen`, `identity-show`, `wire-encode` and `wire-decode` of
-- crates/blindoverlap-cli/src/main.rs.
pub mod Facts
use blind_overlap.Prelude.{
  ℕ, Bool, true, false, Option, none, some, List, [], ◌∷◌, ◌++◌, length, if◌then◌else◌, Result, ok,
  err, ◌>>=◌, map_err, ok_or,
}
use blind_overlap.Bytes.{Bytes, Text, ascii, eqb}
use blind_overlap.Crypto.{Crypto}
use blind_overlap.FactSet.{FactId}
use blind_overlap.Identity
use blind_overlap.Identity.{PartyIdentity}
use blind_overlap.Json.{JsonLibrary, canonical_json, fact_id_from_str}
use blind_overlap.Protocol.{IntersectionMode}
use blind_overlap.Session.Initiator
use blind_overlap.Session.Initiator.{Drawn, generate_offer}
use blind_overlap.Wire.Offer
use blind_overlap.Wire.Message
use blind_overlap.Wire.Message.{WireMessage, WireCodec}
use blind_overlap.Cli.Common.{
  CliError, io, json, unknown_format, message, session_error, wire_error, Files, Effect, print,
  write_file, emit, Serde, StoredIdentity, load_identity, save_identity, read_to_string,
}
use blind_overlap.Cli.Lines.{trim, lines, unlines, decimal}
use blind_overlap.Cli.FactFile.{is_skipped, load_fact_set}
use blind_overlap.Cli.Online.{PrettyWire, pad_if_asked}

module _ ⦃c : Crypto⦄ ⦃l : JsonLibrary⦄ where
  -- `base64` is the standard engine of the base64 crate.
  unfoldable pub encode_id : (base64 : Bytes → Text) → Text → FactId → Result CliError Text
  encode_id base64 format id =
      if eqb format (ascii "hex")
      then ok (c.hex_encode id)
      else if eqb format (ascii "base64")
      then ok (base64 id)
      else err (unknown_format format)

  unfoldable pub encode_line : (base64 : Bytes → Text) → Text → Text → Result CliError Text
  unfolding encode_id
  encode_line base64 format trimmed = do
    id ← ok_or (fact_id_from_str trimmed) json
    encode_id base64 format id

  -- The lines that are printed, before the first error if there is one.
  unfoldable pub encode_lines :
      (base64 : Bytes → Text) → Text → List Text → List Text × Result CliError Unit
  unfolding encode_line
  encode_lines base64 format [] = ([], ok tt)
  encode_lines base64 format (line ∷ rest) =
      let more = encode_lines base64 format rest in
      elim (is_skipped (trim line)) [
        | true ↦ more
        | false ↦ elim (encode_line base64 format (trim line)) [
          | err e ↦ ([], err e)
          | ok encoded ↦ (encoded ∷ more.0, more.1)
        ]
      ]

  -- `cmd_encode`; the root of the set goes to standard error, which is not modelled.
  unfoldable pub cmd_encode :
      (base64 : Bytes → Text)
      → (stdin : Text) → Files
      → (input format : Text) → List Text × Result CliError Unit
  unfolding encode_lines
  cmd_encode base64 stdin files input format =
      if eqb input (ascii "-")
      then encode_lines base64 format (lines stdin)
      else elim (files input) [
        | none ↦ ([], err io)
        | some content ↦ encode_lines base64 format (lines content)
      ]

  unfoldable pub cmd_canonicalize : Text → Result CliError (List Effect)
  cmd_canonicalize text = do
    value ← ok_or (l.parse text) json
    ok (print (canonical_json value ++ (10 ∷ [])) ∷ [])

module _ ⦃c : Crypto⦄ ⦃i : Serde StoredIdentity⦄ where
  -- `seed` is what `PartyIdentity::generate` draws.
  unfoldable pub cmd_identity_gen :
      (seed : Bytes) → (output : Text) → (pubkey_out : Option Text) → List Effect
  cmd_identity_gen seed output none = save_identity (record { seed = seed }) output ∷ []
  cmd_identity_gen seed output (some path) =
      save_identity (record { seed = seed }) output
      ∷ write_file path (c.hex_encode (Identity.public (record { seed = seed })))
      ∷ []

  unfoldable pub cmd_identity_show : Files → Text → Result CliError (List Effect)
  cmd_identity_show files path = do
    identity ← load_identity files path
    ok (print (c.hex_encode (Identity.public identity) ++ (10 ∷ [])) ∷ [])

module _ ⦃c : Crypto⦄ ⦃w : WireCodec⦄ ⦃p : PrettyWire⦄ where
  unfoldable pub cmd_wire_encode :
      (now : ℕ)
      → Drawn
      → (random : Bytes) → Files
      → (input session role : Text) → (pad_to : Option ℕ) → (pad_secret output : Option Text)
      → (pretty : Bool) → Result CliError (List Effect)
  cmd_wire_encode now drawn random files input session role pad_to pad_secret output pretty = do
    fact_set ← load_fact_set files input
    session_obj ←
        map_err session_error
          (Initiator.new now drawn session fact_set IntersectionMode.intersection)
    let (offered, session_obj') = generate_offer session_obj
    offer ← map_err session_error offered
    masked ←
        if eqb role (ascii "initiator")
        then ok offer.masked_elements
        else err (
            message
              (ascii "wire-encode only supports initiator role (use online-reply for responder)"))
    final_masked ← pad_if_asked random pad_to pad_secret session masked
    let m = WireMessage.offer (Offer.new session final_masked)
    ok (emit output (if pretty then p.pretty m else w.to_string m) ∷ [])

  -- The lines of a summary.
  unfoldable pub summary_lines : WireMessage → List Text
  summary_lines (WireMessage.offer m) =
      ascii "type: MaskedSetOffer"
      ∷ (ascii "session_id: " ++ m.session_id)
      ∷ (ascii "version: " ++ decimal m.version)
      ∷ (ascii "element_count: " ++ decimal (length m.masked_elements))
      ∷ []
  summary_lines (WireMessage.reply m) =
      ascii "type: MaskedSetReply"
      ∷ (ascii "session_id: " ++ m.session_id)
      ∷ (ascii "version: " ++ decimal m.version)
      ∷ (ascii "responder_element_count: " ++ decimal (length m.responder_masked))
      ∷ (ascii "initiator_doubly_masked_count: " ++ decimal (length m.initiator_doubly_masked))
      ∷ []
  summary_lines (WireMessage.reveal m) =
      ascii "type: IntersectionReveal"
      ∷ (ascii "session_id: " ++ m.session_id)
      ∷ (ascii "version: " ++ decimal m.version)
      ∷ (ascii "responder_doubly_masked_count: " ++ decimal (length m.responder_doubly_masked))
      ∷ []
  summary_lines (WireMessage.abort m) =
      ascii "type: AbortMessage"
      ∷ (ascii "session_id: " ++ m.session_id)
      ∷ (ascii "version: " ++ decimal m.version)
      ∷ (ascii "reason_code: " ++ m.reason_code)
      ∷ elim m.reason_text [ none ↦ [] | some text ↦ (ascii "reason_text: " ++ text) ∷ [] ]

  unfoldable pub cmd_wire_decode :
      Files → (input : Text) → (summary : Bool) → Result CliError (List Effect)
  unfolding summary_lines
  cmd_wire_decode files input summary = do
    text ← read_to_string files input
    m ← map_err wire_error (Message.decode text)
    ok (print (if summary then unlines (summary_lines m) else p.pretty m ++ (10 ∷ [])) ∷ [])
