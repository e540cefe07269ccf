-- ===== src/Cli/Receipts/Accepting.antt =====
-- What `wire-bound-sign` writes, `wire-bound-verify` accepts; and what it accepts at all.
use blind_overlap.Prelude.{◌≡◌, ◌∙◌, Bool, false, Option, some, List, [], ◌∷◌, arith, length, ok}
use blind_overlap.Cli.Online.{as_offer, as_reply}
use blind_overlap.Bytes.{Bytes, Text, ascii, eqb, eqb_refl}
use blind_overlap.Crypto.{Crypto, SignsSoundly}
use blind_overlap.Freshness.{SessionNonce, TranscriptDigest}
use blind_overlap.Protocol.{IntersectionMode, PsiResult}
use blind_overlap.Receipt.{ReceiptSigner, verify_bytes, public_key}
use blind_overlap.Receipt.WireBound
use blind_overlap.Receipt.WireBound.{WireBoundReceipt, sign_wire_bound}
use blind_overlap.Session.Initiator.{or_generated}
use blind_overlap.Wire.Offer.{MaskedSetOffer}
use blind_overlap.Wire.Reply.{MaskedSetReply}
use blind_overlap.Wire.Message.{WireCodec, WireMessage}
use blind_overlap.Cli.Common.{
  Files, Effect, emit, perform, write_file, Serde, ReadsBack, parse_mode, decode_arg, read_json,
  read_to_string, read-write,
}
use blind_overlap.Cli.Receipts.{
  parse_result, signer_of, read_message, read_offer, read_reply, transcript_of, cmd_wire_bound_sign,
  check_transcript, check_roots, cmd_wire_bound_verify,
}

module _ ⦃c : Crypto⦄ ⦃w : WireCodec⦄ ⦃j : Serde WireBoundReceipt⦄ where
  -- The receipt that the command makes of two messages.
  abbrev pub made_receipt :
      (fresh_a fresh_b : SessionNonce)
      → ReceiptSigner
      → Text
      → MaskedSetOffer
      → MaskedSetReply
      → Bytes
      → Bytes
      → PsiResult
      → IntersectionMode
      → WireBoundReceipt
  made_receipt fresh_a fresh_b signer session offer reply root_a root_b result mode =
      let nonce_a = or_generated offer.nonce fresh_a in
      let nonce_b = or_generated reply.responder_nonce fresh_b in
      sign_wire_bound signer session (transcript_of session nonce_a nonce_b offer reply) nonce_a
        nonce_b root_a root_b result mode

  -- A message of a file that is not written stays as it is.
  read_message_after :
      {M : Type 0} (pick : WireMessage → Option M) (wrong_kind content : Text) (files : Files)
      (path out : Text)
      → eqb path out ≡ false
      → read_message pick wrong_kind (perform (write_file out content ∷ []) files) path
        ≡ read_message pick wrong_kind files path
  unfolding read_message read_to_string perform
  read_message_after pick wrong_kind content files path out h = ground (arith, h)

  signed_verifies :
      SignsSoundly c
      → (signer : ReceiptSigner) (session : Text) (transcript : TranscriptDigest)
        (n m : SessionNonce) (root_a root_b : Bytes) (result : PsiResult) (mode : IntersectionMode)
      → WireBound.verify (sign_wire_bound signer session transcript n m root_a root_b result mode)
        ≡ ok tt
  unfolding WireBound.verify WireBound.message_bytes sign_wire_bound verify_bytes public_key
  signed_verifies sound signer session transcript n m root_a root_b result mode = ground (
    arith,
    sound.valid_public signer.seed,
    sound.verifies signer.seed (
        WireBound.message_bytes
          (sign_wire_bound signer session transcript n m root_a root_b result mode)),
  )

  -- Two messages, two roots of 32 bytes, a mode, a result and a key that can be read: the command
  -- writes a receipt, and its verification with the same session, messages and roots accepts it,
  -- provided that Ed25519 accepts its own signatures, that the JSON of the receipt is read back, and
  -- that the receipt is not written over a message.
  pub cmd_wire_bound_sign-verify :
      SignsSoundly c
      → (random : Bytes) (fresh_a fresh_b : SessionNonce) (exists : Text → Bool) (files : Files)
        (session offer_path reply_path root_a_hex root_b_hex result mode out : Text)
        (key_seed : Option Text) (offer : MaskedSetOffer) (reply : MaskedSetReply)
        (root_a root_b : Bytes) (m : IntersectionMode) (r : PsiResult) (signer : ReceiptSigner)
      → read_offer files offer_path ≡ ok offer
      → read_reply files reply_path ≡ ok reply
      → c.hex_decode root_a_hex ≡ some root_a
      → c.hex_decode root_b_hex ≡ some root_b
      → length root_a ≡ 32
      → length root_b ≡ 32
      → parse_mode mode ≡ ok m
      → parse_result exists files m result ≡ ok r
      → signer_of random key_seed ≡ ok signer
      → eqb offer_path out ≡ false
      → eqb reply_path out ≡ false
      → ReadsBack j (made_receipt fresh_a fresh_b signer session offer reply root_a root_b r m)
      → (effects : List Effect) × (cmd_wire_bound_sign random fresh_a fresh_b exists files session
            offer_path reply_path root_a_hex root_b_hex result mode key_seed
            (some out)
          ≡ ok effects)
        × (cmd_wire_bound_verify
              (perform effects files)
              out
              (some session)
              (some offer_path)
              (some reply_path)
              (some root_a_hex)
              (some root_b_hex)
            ≡ ok (made_receipt fresh_a fresh_b signer session offer reply root_a root_b r m))
  unfolding cmd_wire_bound_sign cmd_wire_bound_verify read_json read_to_string emit decode_arg
      check_transcript check_roots sign_wire_bound read_offer read_reply
  cmd_wire_bound_sign-verify sound random fresh_a fresh_b exists files session offer_path reply_path
        root_a_hex root_b_hex result mode out key_seed offer reply root_a root_b m r signer
        offer_read reply_read dec_a dec_b size_a size_b mode_is result_is signer_is offer_kept
        reply_kept reads =
      let receipt = made_receipt fresh_a fresh_b signer session offer reply root_a root_b r m in
      let content = j.to_string_pretty receipt in
      (
        write_file out content ∷ [],
        ground (
          arith, offer_read, reply_read, dec_a, dec_b, size_a, size_b, mode_is, result_is,
          signer_is,
        ),
        ground (
          arith,
          read-write out content files,
          reads,
          signed_verifies sound signer session receipt.transcript_digest
              (or_generated offer.nonce fresh_a) (or_generated reply.responder_nonce fresh_b) root_a
              root_b r m,
          read_message_after as_offer (ascii "expected offer message") content files offer_path out
                offer_kept
              ∙ offer_read,
          read_message_after as_reply (ascii "expected reply message") content files reply_path out
                reply_kept
              ∙ reply_read,
          dec_a,
          dec_b,
          size_a,
          size_b,
          eqb_refl session,
          eqb_refl root_a,
          eqb_refl root_b,
          eqb_refl receipt.transcript_digest,
        ),
      )
