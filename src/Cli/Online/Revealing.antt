-- ===== src/Cli/Online/Revealing.antt =====
-- `cmd_online_reveal` of crates/blindoverlap-cli/src/main.rs.
pub mod Dummies
use blind_overlap.Prelude.{ℕ, Option, List, [], ◌∷◌, length, Result, ok, ◌>>=◌, map_err}
use blind_overlap.Bytes.{Text, ascii}
use blind_overlap.Crypto.{Crypto}
use blind_overlap.FactSet
use blind_overlap.Freshness.{SessionNonce}
use blind_overlap.Session.Responder.{with_secret, process_offer_and_reply, process_reveal}
use blind_overlap.Wire.Offer
use blind_overlap.Wire.Message.{WireCodec}
use blind_overlap.Cli.Common.{
  CliError, session_error, Files, Effect, write_out, Serde, parse_mode, parse_peer, read_to_string,
  read_json, decode_arg,
}
use blind_overlap.Cli.Lines.{unlines}
use blind_overlap.Cli.FactFile.{result_lines}
use blind_overlap.Cli.Online.{ResponderState, decode_expected, as_reveal, decode_ids, zeros, repeat}

module _ ⦃c : Crypto⦄ ⦃w : WireCodec⦄ ⦃j : Serde ResponderState⦄ where
  -- The session is made again from the state, and answers an offer of zero elements, of which the
  -- result is not looked at; `now` is the clock, and `nonce` and `fresh` are what would be drawn.
  unfoldable pub cmd_online_reveal :
      (now : ℕ)
      → (nonce fresh : SessionNonce) → Files
      → (reveal_path state_path : Text) → (output expect_peer_hex : Option Text)
      → Result CliError (List Effect)
  cmd_online_reveal now nonce fresh files reveal_path state_path output expect_peer_hex = do
    state ← read_json {A = ResponderState} files state_path
    expect_peer ← parse_peer expect_peer_hex
    text ← read_to_string files reveal_path
    (reveal, signer) ← decode_expected as_reveal (ascii "expected reveal message") expect_peer text
    int_mode ← parse_mode state.mode
    fact_ids ← decode_ids state.fact_ids_hex
    secret ← decode_arg (ascii "secret must be 32 bytes") state.secret_hex
    let offer =
        Offer.new state.session_id (repeat (length state.initiator_doubly_masked_hex) (zeros 32))
    session_obj ← map_err session_error (
        with_secret (record { secret = secret; nonce = nonce }) state.session_id
          (FactSet.from_ids fact_ids) int_mode)
    let (ignored, session_obj') = process_offer_and_reply now now fresh offer session_obj
    let (processed, session_obj'') = process_reveal now reveal session_obj'
    result ← map_err session_error processed
    ok (write_out output (unlines (result_lines [] result)) ∷ [])
