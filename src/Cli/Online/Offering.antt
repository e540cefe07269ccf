-- ===== src/Cli/Online/Offering.antt =====
-- `cmd_online_offer` of crates/blindoverlap-cli/src/main.rs.
use blind_overlap.Prelude.{
  ℕ, Option, none, some, List, [], ◌∷◌, map, length, if◌then◌else◌, Result, ok, err, ◌>>=◌, map_err,
}
use blind_overlap.Bytes.{Bytes, Text}
use blind_overlap.Crypto.{Crypto}
use blind_overlap.FactSet.{FactSet}
use blind_overlap.Freshness.{SessionNonce, SessionDeadline, default_ttl_secs}
use blind_overlap.Protocol.{MaskedElement}
use blind_overlap.Session.Common.{config_with_ttl}
use blind_overlap.Session.Initiator.{InitiatorSession, Drawn, with_config, generate_offer}
use blind_overlap.Wire.Common.{deadline}
use blind_overlap.Wire.Offer
use blind_overlap.Wire.Offer.{MaskedSetOffer}
use blind_overlap.Wire.Message.{WireMessage, WireCodec}
use blind_overlap.Cli.Common.{
  CliError, session_error, panic, Files, Effect, write_file, emit, Serde, StoredIdentity,
  parse_mode, parse_peer, load_optional,
}
use blind_overlap.Cli.FactFile.{load_fact_set}
use blind_overlap.Cli.Online.{InitiatorState, PrettyWire, zeros, pad_if_asked, message_text}

-- `ttl_secs.unwrap_or(DEFAULT_TTL_SECS)`
unfoldable pub ttl_or_default : Option ℕ → ℕ
ttl_or_default none = default_ttl_secs
ttl_or_default (some ttl) = ttl

-- The two `unwrap` of the fresh message, which panic on nothing.
unfoldable pub fresh_offer :
    Text
    → List MaskedElement
    → Option SessionNonce
    → Option SessionDeadline
    → Result CliError MaskedSetOffer
fresh_offer session masked (some nonce) (some d) = ok (Offer.new_v2 session masked nonce d)
fresh_offer session masked none d = err panic
fresh_offer session masked (some nonce) none = err panic

-- The offer that is sent, with the elements after padding.
unfoldable pub sent_offer :
    Text → MaskedSetOffer → List MaskedElement → Result CliError MaskedSetOffer
unfolding fresh_offer
sent_offer session offer masked =
    if Offer.has_freshness offer
    then fresh_offer session masked offer.nonce (deadline offer.issued_at offer.expires_at)
    else ok (Offer.new session masked)

module _ ⦃c : Crypto⦄ where
  unfoldable pub offer_state :
      Text → Text → ℕ → FactSet → InitiatorSession → MaskedSetOffer → InitiatorState
  offer_state session mode ttl fact_set s offer = record {
    session_id = session;
    mode = mode;
    original_count = length fact_set.ids;
    fact_ids_hex = map c.hex_encode fact_set.ids;
    secret_hex = c.hex_encode (zeros 32);
    masked_elements_hex = map c.hex_encode offer.masked_elements;
    nonce_hex = some (c.hex_encode s.nonce);
    ttl_secs = some ttl;
  }

  module _ ⦃w : WireCodec⦄ ⦃p : PrettyWire⦄ ⦃i : Serde StoredIdentity⦄
      ⦃j : Serde InitiatorState⦄ where
    -- The message and then the state are written; `now`, `drawn` and `random` are what the session
    -- and the padding draw.
    unfoldable pub cmd_online_offer :
        (now : ℕ)
        → Drawn
        → (random : Bytes) → Files
        → (input session mode : Text) → (ttl_secs pad_to : Option ℕ)
        → (pad_secret output : Option Text) → (state_out : Text)
        → (identity_path expect_peer_hex : Option Text) → Result CliError (List Effect)
    cmd_online_offer now drawn random files input session mode ttl_secs pad_to pad_secret output
          state_out identity_path expect_peer_hex =
        do
          fact_set ← load_fact_set files input
          int_mode ← parse_mode mode
          let ttl = ttl_or_default ttl_secs
          session_obj ←
              map_err session_error
                (with_config now drawn session fact_set int_mode (config_with_ttl ttl))
          identity ← load_optional files identity_path
          expect_peer ← parse_peer expect_peer_hex
          let (offered, session_obj') = generate_offer session_obj
          offer ← map_err session_error offered
          final_masked ← pad_if_asked random pad_to pad_secret session offer.masked_elements
          sent ← sent_offer session offer final_masked
          ok (
              emit output (message_text identity (WireMessage.offer sent))
              ∷ write_file state_out
                  (j.to_string_pretty (offer_state session mode ttl fact_set session_obj' offer))
              ∷ [])
