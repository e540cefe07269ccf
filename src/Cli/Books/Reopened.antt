-- ===== src/Cli/Books/Reopened.antt =====
-- What one run of `peerbook-add` writes, the next process trusts.
use blind_overlap.Prelude.{ℕ, ◌≡◌, ◌≢◌, subst, true, false, Option, arith, ok}
use blind_overlap.Bytes.{Text}
use blind_overlap.Crypto.{Crypto}
use blind_overlap.Identity
use blind_overlap.Identity.{PublicIdentity}
use blind_overlap.Replay.Persistent.{File}
use blind_overlap.PeerBook.{BookCodec, TrustedPeerBook, open_book, lookup, is_trusted, list}
use blind_overlap.PeerBook.Trust.{IsValid}
use blind_overlap.PeerBook.Reopening.{BookRoundTrips}
use blind_overlap.PeerBook.Opening.{OpensValid, open_book-IsValid, with_peer, add-reopen}
use blind_overlap.PeerBook.Hex.{add_hex}
use blind_overlap.Cli.Books.{cmd_peerbook_add}

module _ ⦃c : Crypto⦄ (codec : BookCodec) where
  -- A book that can be opened, a key that is read from hex and is not in the book, and a file that can be
  -- written: the command succeeds, and the next process that opens the file trusts the key and knows of
  -- every other key what the book knew, provided that JSON reads back the document that is written.
  pub cmd_peerbook_add-open_book :
      (now : ℕ) (file : File) (pubkey_hex : Text) (nickname : Option Text) (book : TrustedPeerBook)
      (k : PublicIdentity)
      → open_book codec true file ≡ ok book
      → Identity.public_from_hex pubkey_hex ≡ ok k
      → is_trusted book k ≡ false
      → BookRoundTrips codec
          (record { version = 1; peers = list (with_peer codec now k nickname book) })
      → (file' : File) × (book' : TrustedPeerBook) × (cmd_peerbook_add codec now true true file
            pubkey_hex nickname
          ≡ (ok tt, file'))
        × (open_book codec true file' ≡ ok book')
        × (is_trusted book' k ≡ true)
        × ((j : PublicIdentity) → k ≢ j → lookup book' j ≡ lookup book j)
  unfolding cmd_peerbook_add add_hex
  cmd_peerbook_add-open_book now file pubkey_hex nickname book k opens key_is new rt =
      let (v, backed) : IsValid book × (book.has_path ≡ true) =
        subst (OpensValid codec) opens (open_book-IsValid codec true file) in
      let (file', book', added, again, trusted, others) =
        add-reopen codec now k nickname book file v backed new rt in
      (file', book', ground (arith, opens, key_is, added), again, trusted, others)
