-- ===== src/PeerBook/Opening.antt =====
-- A book that is opened is valid, and an addition that is saved is found when the file is opened again.
use blind_overlap.Prelude.{
  ℕ, ◌≡◌, ◌≢◌, refl, ◌∙◌, Bool, true, false, Option, none, some, List, [], ◌∷◌, arith,
  if◌then◌else◌, Result, ok, err,
}
use blind_overlap.Bytes.{Text, eqb_refl, eqb_of_ne}
use blind_overlap.Crypto.{Crypto}
use blind_overlap.HashMap
use blind_overlap.HashMap.{HashMap, IsUnique}
use blind_overlap.HashMap.Laws.{get-insert, insert-IsUnique}
use blind_overlap.Identity.{PublicIdentity}
use blind_overlap.Replay.Persistent.{File, is_blank}
use blind_overlap.PeerBook.{
  PeerBookError, io, json, opened, StoredPeerBook, TrustedPeer, BookCodec, TrustedPeerBook,
  open_book, save, add, lookup, is_trusted, list, insert_all,
}
use blind_overlap.PeerBook.Trust.{IsKeyed, IsValid, insert-IsKeyed}
use blind_overlap.PeerBook.Reopening.{BookRoundTrips, open-save}

insert_all-IsUnique :
    (peers : List TrustedPeer) (m : HashMap TrustedPeer)
    → IsUnique m
    → IsUnique (insert_all peers m)
unfolding insert_all
insert_all-IsUnique [] m u = u
insert_all-IsUnique (p ∷ rest) m u =
    insert_all-IsUnique rest (HashMap.insert p.pubkey p m) (insert-IsUnique p.pubkey p m u)

insert_all-IsKeyed :
    (peers : List TrustedPeer) (m : HashMap TrustedPeer) → IsKeyed m → IsKeyed (insert_all peers m)
unfolding insert_all
insert_all-IsKeyed [] m k = k
insert_all-IsKeyed (p ∷ rest) m k =
    insert_all-IsKeyed rest (HashMap.insert p.pubkey p m) (insert-IsKeyed p m k)

module _ ⦃c : Crypto⦄ (codec : BookCodec) where
  -- What opening gives is valid and has a path.
  abbrev pub OpensValid : Result PeerBookError TrustedPeerBook → Type 0
  OpensValid (ok book) = IsValid book × (book.has_path ≡ true)
  OpensValid (err e) = Unit

  pub open_book-IsValid :
      (readable : Bool) (file : File) → OpensValid (open_book codec readable file)
  unfolding open_book
  open_book-IsValid readable none = (record { unique = tt; keyed = tt }, refl)
  open_book-IsValid readable (some contents) =
      by_cases readable (is_blank contents) (codec.from_str contents)
    where
      by_cases :
          (r b : Bool) (o : Option StoredPeerBook)
          → let book : TrustedPeerBook = record { has_path = true; peers = [] } in
            OpensValid (
              opened codec (
                if r
                then (if b then (ok tt, book) else elim o [
                  | none ↦ (err json, book)
                  | some stored ↦ (ok tt, record book { peers = insert_all stored.peers [] })
                ])
                else (err io, book)))
      by_cases false b o = tt
      by_cases true true o = (record { unique = tt; keyed = tt }, refl)
      by_cases true false none = tt
      by_cases true false (some stored) = (
        record {
          unique = insert_all-IsUnique stored.peers [] tt;
          keyed = insert_all-IsKeyed stored.peers [] tt;
        },
        refl,
      )

  -- The book with one more peer.
  abbrev pub with_peer : ℕ → PublicIdentity → Option Text → TrustedPeerBook → TrustedPeerBook
  with_peer now k nickname book =
      let entry : TrustedPeer = record { pubkey = k; nickname = nickname; added_at = now } in
      record book { peers = HashMap.insert k entry book.peers }

  -- A peer that is new to a valid book with a path, added and saved: opening the file again gives a
  -- book that reads as the one in memory.
  pub add-reopen :
      (now : ℕ) (k : PublicIdentity) (nickname : Option Text) (book : TrustedPeerBook) (file : File)
      → IsValid book
      → book.has_path ≡ true
      → is_trusted book k ≡ false
      → BookRoundTrips codec (record { version = 1; peers = list (with_peer now k nickname book) })
      → (file' : File) × (book'' : TrustedPeerBook) × (add codec now true k nickname book file
          ≡ (ok tt, with_peer now k nickname book, file'))
        × (open_book codec true file' ≡ ok book'')
        × (is_trusted book'' k ≡ true)
        × ((j : PublicIdentity) → k ≢ j → lookup book'' j ≡ lookup book j)
  unfolding add save is_trusted lookup
  add-reopen now k nickname book file v backed new rt =
      let book' = with_peer now k nickname book in
      let entry : TrustedPeer = record { pubkey = k; nickname = nickname; added_at = now } in
      let valid : IsValid book' = add_keeps now k nickname book v in
      let (again, opens, same) = open-save codec book' file rt valid backed in
      (
        (save codec true book' file).1,
        again,
        ground (arith, new, backed),
        opens,
        ground (arith, same k, get-insert k k entry book.peers, eqb_refl k),
        λ j ne. same j ∙ ground (arith, get-insert k j entry book.peers, eqb_of_ne k j ne),
      )
    where
      add_keeps :
          (now : ℕ) (k : PublicIdentity) (nickname : Option Text) (book : TrustedPeerBook)
          → IsValid book
          → IsValid (with_peer now k nickname book)
      add_keeps now k nickname book v =
          let entry : TrustedPeer = record { pubkey = k; nickname = nickname; added_at = now } in
          record {
            unique = insert-IsUnique k entry book.peers v.unique;
            keyed = insert-IsKeyed entry book.peers v.keyed;
          }
