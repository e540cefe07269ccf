-- ===== src/Cli/Online/Completing.antt =====
-- `cmd_online_complete` of crates/blindoverlap-cli/src/main.rs.
pub mod Results
use blind_overlap.Prelude.{
  ℕ, Bool, true, false, Option, none, some, List, [], ◌∷◌, ◌++◌, if◌then◌else◌, Result, ok, err,
  ◌>>=◌, map_err,
}
use blind_overlap.Bytes.{Bytes, Text, ascii}
use blind_overlap.Crypto.{Crypto}
use blind_overlap.FactSet
use blind_overlap.Freshness.{SessionNonce}
use blind_overlap.Identity.{PartyIdentity}
use blind_overlap.Session.Initiator.{
  InitiatorSession, with_secret, generate_offer, process_reply, generate_reveal,
}
use blind_overlap.Wire.Message.{WireMessage, WireCodec}
use blind_overlap.Cli.Common.{
  CliError, session_error, Files, Effect, write_file, write_out, Serde, StoredIdentity, parse_mode,
  parse_peer, load_optional, read_to_string, read_json, decode_arg,
}
use blind_overlap.Cli.Lines.{unlines}
use blind_overlap.Cli.FactFile.{result_lines}
use blind_overlap.Cli.Online.{
  InitiatorState, PrettyWire, message_text, decode_expected, as_reply, decode_ids,
}

module _ ⦃c : Crypto⦄ ⦃w : WireCodec⦄ ⦃p : PrettyWire⦄ where
  -- `if with_reveal { .. }`; without a path the reveal goes to standard error, which is not modelled.
  unfoldable pub reveal_effects :
      (now : ℕ)
      → (fresh : SessionNonce) → (with_reveal : Bool) → (reveal_out : Option Text)
      → Option PartyIdentity
      → InitiatorSession
      → Result CliError (List Effect)
  reveal_effects now fresh false reveal_out identity s = ok []
  reveal_effects now fresh true reveal_out identity s = do
    reveal ← map_err session_error (generate_reveal now fresh s)
    ok (elim reveal_out [
      | none ↦ []
      | some path ↦ write_file path (message_text identity (WireMessage.reveal reveal)) ∷ []
    ])

  module _ ⦃i : Serde StoredIdentity⦄ ⦃j : Serde InitiatorState⦄ where
    -- The session is made again from the state: `started` is the clock, and `nonce` the nonce that it
    -- draws; `now` is the clock at the reply and at the reveal. The result is written before the
    -- reveal is made, which never fails after a result.
    unfoldable pub cmd_online_complete :
        (started now : ℕ)
        → (nonce fresh : SessionNonce) → Files
        → (reply_path state_path : Text) → (output : Option Text) → (with_reveal : Bool)
        → (reveal_out identity_path expect_peer_hex : Option Text) → Result CliError (List Effect)
    cmd_online_complete started now nonce fresh files reply_path state_path output with_reveal
          reveal_out identity_path expect_peer_hex =
        do
          state ← read_json {A = InitiatorState} files state_path
          identity ← load_optional files identity_path
          expect_peer ← parse_peer expect_peer_hex
          text ← read_to_string files reply_path
          (reply, signer) ←
              decode_expected as_reply (ascii "expected reply message") expect_peer text
          int_mode ← parse_mode state.mode
          fact_ids ← decode_ids state.fact_ids_hex
          secret ← decode_arg (ascii "secret must be 32 bytes") state.secret_hex
          session_obj ← map_err session_error (
              with_secret started (record { secret = secret; nonce = nonce }) state.session_id
                (FactSet.from_ids fact_ids) int_mode)
          let (offered, session_obj') = generate_offer session_obj
          offer ← map_err session_error offered
          let (processed, session_obj'') = process_reply now reply session_obj'
          result ← map_err session_error processed
          more ← reveal_effects now fresh with_reveal reveal_out identity session_obj''
          ok (write_out output (unlines (result_lines [] result)) ∷ more)
