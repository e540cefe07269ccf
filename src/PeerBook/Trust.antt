-- ===== src/PeerBook/Trust.antt =====
-- Who is trusted after a peer is added or removed.
use blind_overlap.Prelude.{ℕ, ◌≡◌, ◌≢◌, refl, Bool, true, false, Option, [], ◌∷◌, arith, err}
use blind_overlap.Bytes.{Bytes, Text, eqb_refl, eqb_of_ne}
use blind_overlap.Crypto.{Crypto}
use blind_overlap.HashMap
use blind_overlap.HashMap.{HashMap, IsUnique}
use blind_overlap.HashMap.Laws.{get-insert, get-remove, insert-IsUnique, remove-IsUnique}
use blind_overlap.Identity.{PublicIdentity}
use blind_overlap.Replay.Persistent.{File}
use blind_overlap.PeerBook.{
  duplicate_peer, peer_not_found, TrustedPeer, BookCodec, TrustedPeerBook, is_trusted, add, remove,
  require_trusted,
}

-- Each peer stands under its own key.
abbrev pub IsKeyed : HashMap TrustedPeer → Type 0
IsKeyed [] = Unit
IsKeyed ((k, peer) ∷ m) = (peer.pubkey ≡ k) × IsKeyed m

pub record IsValid (book : TrustedPeerBook) : Type 0 where
  pub unique : IsUnique book.peers
  pub keyed : IsKeyed book.peers

remove-IsKeyed : (k : Bytes) (m : HashMap TrustedPeer) → IsKeyed m → IsKeyed (HashMap.remove k m)
unfolding HashMap.remove
remove-IsKeyed k [] h = tt
remove-IsKeyed k ((j, peer) ∷ m) h = ground (arith, h.0, remove-IsKeyed k m h.1)

pub insert-IsKeyed :
    (peer : TrustedPeer) (m : HashMap TrustedPeer)
    → IsKeyed m
    → IsKeyed (HashMap.insert peer.pubkey peer m)
unfolding HashMap.insert
insert-IsKeyed peer m h = (refl, remove-IsKeyed peer.pubkey m h)

module _ ⦃c : Crypto⦄ (codec : BookCodec) (writable : Bool) where
  add-IsValid :
      (now : ℕ) (k : PublicIdentity) (nickname : Option Text) (book : TrustedPeerBook) (file : File)
      → IsValid book
      → IsValid (add codec now writable k nickname book file).1
  unfolding add
  add-IsValid now k nickname book file v =
      let entry : TrustedPeer = record { pubkey = k; nickname = nickname; added_at = now } in
      ground (
        arith,
        insert-IsUnique k entry book.peers v.unique,
        insert-IsKeyed entry book.peers v.keyed,
        v.unique,
        v.keyed,
      )

  remove-IsValid :
      (k : PublicIdentity) (book : TrustedPeerBook) (file : File)
      → IsValid book
      → IsValid (remove codec writable k book file).1
  unfolding remove
  remove-IsValid k book file v = ground (
    arith,
    remove-IsUnique k book.peers v.unique,
    remove-IsKeyed k book.peers v.keyed,
    v.unique,
    v.keyed,
  )

  -- A peer that is added is trusted from then on, also when the file cannot be written; the trust in
  -- every other peer is unchanged; the book stays valid; and a peer that is there already is
  -- reported as a duplicate, with book and file unchanged.
  pub add_trusts :
      (now : ℕ) (k j : PublicIdentity) (nickname : Option Text) (book : TrustedPeerBook)
      (file : File)
      → IsValid book
      → let after = add codec now writable k nickname book file in
        IsValid after.1
        × (is_trusted after.1 k ≡ true)
        × (k ≢ j → is_trusted after.1 j ≡ is_trusted book j)
        × (is_trusted book k ≡ true → after ≡ (err (duplicate_peer (c.hex_encode k)), book, file))
  unfolding add is_trusted
  add_trusts now k j nickname book file v =
      let entry : TrustedPeer = record { pubkey = k; nickname = nickname; added_at = now } in
      (
        add-IsValid now k nickname book file v,
        ground (arith, get-insert k k entry book.peers, eqb_refl k),
        λ ne. ground (arith, get-insert k j entry book.peers, eqb_of_ne k j ne),
        λ old. ground arith,
      )

  -- A peer that is removed is not trusted any more, and `require_trusted` refuses it; the trust in
  -- every other peer is unchanged; the book stays valid; and removing a peer that is not there is an
  -- error that changes nothing.
  pub remove_distrusts :
      (k j : PublicIdentity) (book : TrustedPeerBook) (file : File)
      → IsValid book
      → let after = remove codec writable k book file in
        IsValid after.1
        × (is_trusted after.1 k ≡ false)
        × (require_trusted after.1 k ≡ err (peer_not_found (c.hex_encode k)))
        × (k ≢ j → is_trusted after.1 j ≡ is_trusted book j)
        × (is_trusted book k ≡ false → after ≡ (err (peer_not_found (c.hex_encode k)), book, file))
  unfolding remove is_trusted require_trusted
  remove_distrusts k j book file v = (
    remove-IsValid k book file v,
    ground (arith, get-remove k k book.peers, eqb_refl k),
    ground (arith, get-remove k k book.peers, eqb_refl k),
    λ ne. ground (arith, get-remove k j book.peers, eqb_of_ne k j ne),
    λ gone. ground arith,
  )
