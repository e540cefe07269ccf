-- ===== src/Cli/Online/Replying.antt =====
-- `cmd_online_reply` of crates/blindoverlap-cli/src/main.rs.
use blind_overlap.Prelude.{
  ℕ, Option, none, some, List, [], ◌∷◌, map, length, if◌then◌else◌, Result, ok, err, ◌>>=◌, map_err,
}
use blind_overlap.Bytes.{Bytes, Text, ascii}
use blind_overlap.Crypto.{Crypto}
use blind_overlap.FactSet.{FactSet}
use blind_overlap.Freshness.{SessionNonce, SessionDeadline}
use blind_overlap.Protocol.{MaskedElement}
use blind_overlap.Session.Common.{config_with_ttl}
use blind_overlap.Session.Initiator.{Drawn}
use blind_overlap.Session.Responder.{ResponderSession, with_config, process_offer_and_reply}
use blind_overlap.Wire.Common.{deadline}
use blind_overlap.Wire.Reply
use blind_overlap.Wire.Reply.{MaskedSetReply}
use blind_overlap.Wire.Message.{WireMessage, WireCodec}
use blind_overlap.Cli.Common.{
  CliError, session_error, panic, Files, Effect, write_file, emit, Serde, StoredIdentity,
  parse_mode, parse_peer, load_optional, read_to_string,
}
use blind_overlap.Cli.FactFile.{load_fact_set}
use blind_overlap.Cli.Online.{
  ResponderState, PrettyWire, zeros, pad_if_asked, message_text, decode_expected, as_offer,
}
use blind_overlap.Cli.Online.Offering.{ttl_or_default}

-- The three `unwrap` of the fresh message, which panic on nothing.
unfoldable pub fresh_reply :
    Text
    → List MaskedElement
    → List MaskedElement
    → Option SessionNonce
    → Option SessionNonce
    → Option SessionDeadline
    → Result CliError MaskedSetReply
fresh_reply session ours theirs (some n) (some m) (some d) =
    ok (Reply.new_v2 session ours theirs n m d)
fresh_reply session ours theirs none m d = err panic
fresh_reply session ours theirs (some n) none d = err panic
fresh_reply session ours theirs (some n) (some m) none = err panic

-- The reply that is sent, with the responder's elements after padding.
unfoldable pub sent_reply :
    Text → MaskedSetReply → List MaskedElement → Result CliError MaskedSetReply
unfolding fresh_reply
sent_reply session reply masked =
    if Reply.has_freshness reply
    then fresh_reply session masked reply.initiator_doubly_masked reply.initiator_nonce
        reply.responder_nonce (deadline reply.issued_at reply.expires_at)
    else ok (Reply.new session masked reply.initiator_doubly_masked)

-- `.map(|n| n.to_hex())`
unfoldable pub nonce_text : (Bytes → Text) → Option SessionNonce → Option Text
nonce_text hex none = none
nonce_text hex (some n) = some (hex n)

module _ ⦃c : Crypto⦄ where
  unfoldable pub reply_state :
      Text → Text → ℕ → FactSet → ResponderSession → MaskedSetReply → ResponderState
  unfolding nonce_text
  reply_state session mode ttl fact_set s reply = record {
    session_id = session;
    mode = mode;
    original_count = length fact_set.ids;
    fact_ids_hex = map c.hex_encode fact_set.ids;
    secret_hex = c.hex_encode (zeros 32);
    masked_elements_hex = map c.hex_encode reply.responder_masked;
    initiator_doubly_masked_hex = map c.hex_encode reply.initiator_doubly_masked;
    nonce_hex = some (c.hex_encode s.nonce);
    initiator_nonce_hex = nonce_text c.hex_encode s.initiator_nonce;
    ttl_secs = some ttl;
  }

  module _ ⦃w : WireCodec⦄ ⦃p : PrettyWire⦄ ⦃i : Serde StoredIdentity⦄
      ⦃j : Serde ResponderState⦄ where
    -- `now` and `later` are the clock at the check of the offer and at the reply, and `fresh` is the
    -- nonce that would be drawn for an offer without one.
    unfoldable pub cmd_online_reply :
        (now later : ℕ)
        → (fresh : SessionNonce) → Drawn
        → (random : Bytes) → Files
        → (input offer_path mode : Text) → (ttl_secs pad_to : Option ℕ)
        → (pad_secret output : Option Text) → (state_out : Text)
        → (identity_path expect_peer_hex : Option Text) → Result CliError (List Effect)
    cmd_online_reply now later fresh drawn random files input offer_path mode ttl_secs pad_to
          pad_secret output state_out identity_path expect_peer_hex =
        do
          fact_set ← load_fact_set files input
          identity ← load_optional files identity_path
          expect_peer ← parse_peer expect_peer_hex
          text ← read_to_string files offer_path
          (offer, signer) ←
              decode_expected as_offer (ascii "expected offer message") expect_peer text
          int_mode ← parse_mode mode
          let ttl = ttl_or_default ttl_secs
          session_obj ←
              map_err session_error
                (with_config drawn offer.session_id fact_set int_mode (config_with_ttl ttl))
          let (replied, session_obj') = process_offer_and_reply now later fresh offer session_obj
          reply ← map_err session_error replied
          final_masked ←
              pad_if_asked random pad_to pad_secret offer.session_id reply.responder_masked
          sent ← sent_reply offer.session_id reply final_masked
          ok (
              emit output (message_text identity (WireMessage.reply sent))
              ∷ write_file state_out (
                  j.to_string_pretty
                    (reply_state offer.session_id mode ttl fact_set session_obj' reply))
              ∷ [])
