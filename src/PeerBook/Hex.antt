-- ===== src/PeerBook/Hex.antt =====
-- The operations of a peer book on keys in hex, of crates/blindoverlap/src/peerbook.rs.
use blind_overlap.Prelude.{ℕ, Bool, Option, Result, ok, err, ◌>>=◌, map_err}
use blind_overlap.Bytes.{Text}
use blind_overlap.Crypto.{Crypto}
use blind_overlap.Identity
use blind_overlap.Replay.Persistent.{File}
use blind_overlap.PeerBook.{
  PeerBookError, identity, TrustedPeer, TrustedPeerBook, BookCodec, lookup, is_trusted, add, remove,
}

module _ ⦃c : Crypto⦄ where
  unfoldable pub lookup_hex : TrustedPeerBook → Text → Result PeerBookError (Option TrustedPeer)
  lookup_hex book pubkey_hex = do
    pubkey ← map_err identity (Identity.public_from_hex pubkey_hex)
    ok (lookup book pubkey)

  unfoldable pub is_trusted_hex : TrustedPeerBook → Text → Result PeerBookError Bool
  is_trusted_hex book pubkey_hex = do
    pubkey ← map_err identity (Identity.public_from_hex pubkey_hex)
    ok (is_trusted book pubkey)

  -- A key that cannot be read changes nothing.
  unfoldable pub add_hex :
      BookCodec
      → ℕ
      → Bool
      → Text
      → Option Text
      → TrustedPeerBook
      → File
      → Result PeerBookError Unit × TrustedPeerBook × File
  add_hex codec now writable pubkey_hex nickname book file =
      elim (map_err identity (Identity.public_from_hex pubkey_hex)) [
        | err e ↦ (err e, book, file)
        | ok pubkey ↦ add codec now writable pubkey nickname book file
      ]

  unfoldable pub remove_hex :
      BookCodec
      → Bool
      → Text
      → TrustedPeerBook
      → File
      → Result PeerBookError TrustedPeer × TrustedPeerBook × File
  remove_hex codec writable pubkey_hex book file =
      elim (map_err identity (Identity.public_from_hex pubkey_hex)) [
        | err e ↦ (err e, book, file)
        | ok pubkey ↦ remove codec writable pubkey book file
      ]
