-- ===== src/Tests/Papers.antt =====
-- The commands on receipts of a run, invites and peer books.
use blind_overlap.Prelude.{
  ◌≡◌, ◌≢◌, refl, true, false, none, some, List, [], ◌∷◌, ok, ◌>>◌, map_err, if◌then◌else◌,
}
use blind_overlap.Bytes.{Bytes, Text, ascii, eqb}
use blind_overlap.Identity.{PublicIdentity}
use blind_overlap.Protocol.{IntersectionMode, PsiResult}
use blind_overlap.Receipt.{ReceiptSigner}
use blind_overlap.Receipt.WireBound.{WireBoundReceipt}
use blind_overlap.Invite
use blind_overlap.Invite.{AllowedMode, InviteTicket}
use blind_overlap.Freshness.{new_deadline}
use blind_overlap.Wire.Offer
use blind_overlap.Wire.Offer.{MaskedSetOffer}
use blind_overlap.Wire.Reply
use blind_overlap.Wire.Reply.{MaskedSetReply}
use blind_overlap.Wire.Message
use blind_overlap.Wire.Message.{WireCodec}
use blind_overlap.Replay.Persistent.{File}
use blind_overlap.PeerBook.{BookCodec, TrustedPeerBook, open_book, lookup, is_trusted, list}
use blind_overlap.PeerBook.Opening.{with_peer}
use blind_overlap.PeerBook.Reopening.{BookRoundTrips}
use blind_overlap.Cli.Common.{invite_error, Files, Effect, perform, Serde, ReadsBack}
use blind_overlap.Cli.Books.{cmd_peerbook_add}
use blind_overlap.Cli.Books.Reopened.{cmd_peerbook_add-open_book}
use blind_overlap.Cli.Receipts.{cmd_wire_bound_sign, cmd_wire_bound_verify}
use blind_overlap.Cli.Receipts.Accepting.{made_receipt, cmd_wire_bound_sign-verify}
use blind_overlap.Cli.Tickets.{cmd_invite_verify}
use blind_overlap.Cli.Tickets.Accepted.{cmd_invite_verify-verify_full}
use blind_overlap.Tests.Commands.{unary_crypto, unary-SignsSoundly, id_of, encode}

abbrev the_offer : MaskedSetOffer
the_offer = Offer.new_v2 (ascii "s1") (id_of 11 ∷ []) (id_of 5) (new_deadline 100 30)

abbrev the_reply : MaskedSetReply
the_reply = Reply.new (ascii "s1") (id_of 12 ∷ []) (id_of 13 ∷ [])

instance abbrev two_messages : WireCodec
two_messages = record {
  to_string = λ m. [];
  from_str = λ t.
      if eqb t (0 ∷ []) then some (Message.offer the_offer) else some (Message.reply the_reply);
  signed_to_string = λ s. [];
  signed_from_str = λ t. none;
}

abbrev paper_files : Files
paper_files p = if eqb p (ascii "offer") then some (0 ∷ []) else some (1 ∷ [])

abbrev signer : ReceiptSigner
signer = record { seed = id_of 9 }

abbrev the_receipt : WireBoundReceipt
the_receipt =
    made_receipt ⦃j = record { to_string_pretty = λ r. []; from_str = λ t. none }⦄ (id_of 7)
      (id_of 8) signer (ascii "s1") the_offer the_reply (id_of 1) (id_of 2)
      (PsiResult.cardinality 3) IntersectionMode.cardinality

instance abbrev one_receipt : Serde WireBoundReceipt
one_receipt = record { to_string_pretty = λ r. ascii "receipt"; from_str = λ t. some the_receipt }

cmd_wire_bound_sign-verify_example :
    (effects : List Effect) × (cmd_wire_bound_sign
        (id_of 9)
        (id_of 7)
        (id_of 8)
        (λ p. false)
        paper_files
        (ascii "s1")
        (ascii "offer")
        (ascii "reply")
        (encode (id_of 1))
        (encode (id_of 2))
        (ascii "3")
        (ascii "cardinality")
        none
        (some (ascii "receipt"))
      ≡ ok effects)
    × (cmd_wire_bound_verify
          (perform effects paper_files)
          (ascii "receipt")
          (some (ascii "s1"))
          (some (ascii "offer"))
          (some (ascii "reply"))
          (some (encode (id_of 1)))
          (some (encode (id_of 2)))
        ≡ ok the_receipt)
unfolding ascii blind_overlap.Cli.Receipts.read_offer blind_overlap.Cli.Receipts.read_message
    blind_overlap.Cli.Common.read_to_string eqb Message.decode Message.validate Offer.validate
    Offer.new_v2 blind_overlap.Cli.Online.as_offer blind_overlap.Cli.Receipts.read_reply
    Reply.validate Reply.new blind_overlap.Cli.Online.as_reply blind_overlap.Cli.Common.parse_mode
    blind_overlap.Cli.Receipts.parse_result blind_overlap.Cli.Lines.parse_usize
    blind_overlap.Cli.Receipts.signer_of blind_overlap.Bytes.Encoding.to_le_bytes
    blind_overlap.Bytes.lex blind_overlap.Cli.Common.decode_arg
    blind_overlap.Cli.FactFile.is_skipped blind_overlap.Cli.FactFile.load_fact_ids
    blind_overlap.Cli.FactFile.load_fact_ids_from_reader blind_overlap.Cli.FactFile.load_line
    blind_overlap.Cli.FactFile.load_lines blind_overlap.Cli.Lines.drop_return
    blind_overlap.Cli.Lines.last_line blind_overlap.Cli.Lines.lines
    blind_overlap.Cli.Lines.lines_from blind_overlap.Cli.Lines.parse_digits
    blind_overlap.Cli.Lines.reverse blind_overlap.Cli.Lines.skip_spaces
    blind_overlap.Cli.Lines.space_width blind_overlap.Cli.Lines.space_width_back
    blind_overlap.Cli.Lines.trim blind_overlap.Cli.Receipts.ids_if_exists
    blind_overlap.FactSet.compute_set_root blind_overlap.FactSet.concat
    blind_overlap.FactSet.from_ids blind_overlap.FactSet.set_root_input blind_overlap.OrdSet.collect
    blind_overlap.OrdSet.insert blind_overlap.Wire.Abort.validate blind_overlap.Wire.Reveal.validate
cmd_wire_bound_sign-verify_example =
    cmd_wire_bound_sign-verify unary-SignsSoundly (id_of 9) (id_of 7) (id_of 8) (λ p. false)
      paper_files (ascii "s1") (ascii "offer") (ascii "reply") (encode (id_of 1)) (encode (id_of 2))
      (ascii "3") (ascii "cardinality") (ascii "receipt") none the_offer the_reply (id_of 1)
      (id_of 2) IntersectionMode.cardinality (PsiResult.cardinality 3) signer refl refl refl refl
      refl refl refl refl refl refl refl refl

abbrev ticket : InviteTicket
ticket = Invite.issue 100 (record { seed = id_of 3 }) (ascii "s1") none AllowedMode.any 50

instance abbrev one_ticket : Serde InviteTicket
one_ticket = record { to_string_pretty = λ t. ascii "ticket"; from_str = λ t. some ticket }

cmd_invite_verify-verify_full_example :
    (cmd_invite_verify 101 102 103 104 paper_files
        (ascii "ticket")
        (some (encode (id_of 3)))
        (some (encode (id_of 4)))
        (some (ascii "s1"))
        (some (ascii "cardinality"))
      ≡ map_err invite_error (
          Invite.verify 101 ticket
          >> (Invite.verify_full 102 103 104 ticket
                (id_of 3)
                (id_of 4)
                (ascii "s1")
                IntersectionMode.cardinality
              >> ok ticket)))
    × (cmd_invite_verify 101 102 103 104 paper_files
          (ascii "ticket")
          (some (encode (id_of 3)))
          (some (encode (id_of 4)))
          none
          (some (ascii "cardinality"))
        ≡ cmd_invite_verify 101 102 103 104 paper_files
            (ascii "ticket")
            (some (encode (id_of 3)))
            (some (encode (id_of 4)))
            none
            none)
unfolding eqb ascii blind_overlap.Identity.public_from_hex blind_overlap.Cli.Common.parse_mode
cmd_invite_verify-verify_full_example =
    cmd_invite_verify-verify_full 101 102 103 104 paper_files (ascii "ticket") (1 ∷ [])
      (encode (id_of 3)) (encode (id_of 4)) (ascii "s1") (ascii "cardinality") ticket (id_of 3)
      (id_of 4) IntersectionMode.cardinality refl refl refl refl refl

abbrev no_peers : TrustedPeerBook
no_peers = record { has_path = true; peers = [] }

-- JSON that knows one book, which holds one peer.
abbrev one_book : BookCodec
one_book = record {
  to_string_pretty = λ b. ascii "book";
  from_str = λ t. some (record {
    version = 1;
    peers = list (
        with_peer (record { to_string_pretty = λ b. []; from_str = λ t. none }) 100 (id_of 4) none
          no_peers);
  });
}

round_trips :
    BookRoundTrips one_book
      (record { version = 1; peers = list (with_peer one_book 100 (id_of 4) none no_peers) })
unfolding blind_overlap.Replay.Persistent.is_blank ascii
round_trips = record { not_blank = refl; reads_back = refl }

cmd_peerbook_add-open_book_example :
    (file' : File) × (book' : TrustedPeerBook) × (cmd_peerbook_add one_book 100 true true none
        (encode (id_of 4))
        none
      ≡ (ok tt, file'))
    × (open_book one_book true file' ≡ ok book')
    × (is_trusted book' (id_of 4) ≡ true)
    × ((j : PublicIdentity) → id_of 4 ≢ j → lookup book' j ≡ lookup no_peers j)
unfolding open_book blind_overlap.Identity.public_from_hex is_trusted blind_overlap.HashMap.get
cmd_peerbook_add-open_book_example =
    cmd_peerbook_add-open_book one_book 100 none (encode (id_of 4)) none no_peers (id_of 4) refl
      refl refl round_trips
