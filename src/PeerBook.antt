-- ===== src/PeerBook.antt =====
-- crates/blindoverlap/src/peerbook.rs: the directory of trusted peers and its file.
pub mod Trust
pub mod Hex
pub mod Opening
pub mod Reopening
use blind_overlap.Prelude.{
  ℕ, Bool, true, false, Option, none, some, List, [], ◌∷◌, length, leb, is_some, if◌then◌else◌,
  Result, ok, err, ◌==◌,
}
use blind_overlap.Bytes.{Bytes, Text}
use blind_overlap.Crypto.{Crypto}
use blind_overlap.HashMap
use blind_overlap.HashMap.{HashMap}
use blind_overlap.Identity
use blind_overlap.Identity.{PublicIdentity, IdentityError}
use blind_overlap.Replay.Persistent.{File, is_blank}

pub data PeerBookError : Type 0 where
  duplicate_peer peer_not_found : Text → PeerBookError
  io json : PeerBookError
  identity : IdentityError → PeerBookError

pub record TrustedPeer : Type 0 where
  pub pubkey : PublicIdentity
  pub nickname : Option Text
  pub added_at : ℕ

pub record StoredPeerBook : Type 0 where
  pub version : ℕ
  pub peers : List TrustedPeer

-- serde_json on `StoredPeerBook`.
pub record BookCodec : Type 0 where
  pub to_string_pretty : StoredPeerBook → Text
  pub from_str : Text → Option StoredPeerBook

-- `has_path` is false of a book in memory, whose path is empty.
pub record TrustedPeerBook : Type 0 where
  pub has_path : Bool
  pub peers : HashMap TrustedPeer

unfoldable pub in_memory : TrustedPeerBook
in_memory = record { has_path = false; peers = [] }

pub lookup : TrustedPeerBook → PublicIdentity → Option TrustedPeer
lookup book pubkey = HashMap.get pubkey book.peers

unfoldable pub is_trusted : TrustedPeerBook → PublicIdentity → Bool
is_trusted book pubkey = HashMap.contains_key pubkey book.peers

unfoldable pub len : TrustedPeerBook → ℕ
len book = length book.peers

-- `self.peers.values()`
pub values : HashMap TrustedPeer → List TrustedPeer
values [] = []
values ((k, peer) ∷ m) = peer ∷ values m

-- `sort_by_key(|p| p.added_at)`, which is stable.
pub place_by_time : TrustedPeer → List TrustedPeer → List TrustedPeer
place_by_time p [] = p ∷ []
place_by_time p (q ∷ l) =
    let rest = place_by_time p l in if leb p.added_at q.added_at then p ∷ q ∷ l else q ∷ rest

pub sort_by_time : List TrustedPeer → List TrustedPeer
sort_by_time [] = []
sort_by_time (p ∷ l) = place_by_time p (sort_by_time l)

pub list : TrustedPeerBook → List TrustedPeer
list book = sort_by_time (values book.peers)

-- The loop of `load` over the stored peers.
pub insert_all : List TrustedPeer → HashMap TrustedPeer → HashMap TrustedPeer
insert_all [] m = m
insert_all (peer ∷ rest) m = insert_all rest (HashMap.insert peer.pubkey peer m)

module _ ⦃c : Crypto⦄ (codec : BookCodec) where
  -- `load`, of the contents of the file if it can be read; a blank file changes nothing.
  load : Bool → Text → TrustedPeerBook → Result PeerBookError Unit × TrustedPeerBook
  load readable contents book =
      if readable
      then (if is_blank contents then (ok tt, book) else elim (codec.from_str contents) [
        | none ↦ (err json, book)
        | some stored ↦ (ok tt, record book { peers = insert_all stored.peers [] })
      ])
      else (err io, book)

  unfoldable pub reload :
      Bool → File → TrustedPeerBook → Result PeerBookError Unit × TrustedPeerBook
  unfolding load
  reload readable none book = (ok tt, book)
  reload readable (some contents) book = load readable contents book

  abbrev opened : Result PeerBookError Unit × TrustedPeerBook → Result PeerBookError TrustedPeerBook
  opened (ok _, book) = ok book
  opened (err e, book) = err e

  -- `open`, at a path that is not empty.
  unfoldable pub open_book : Bool → File → Result PeerBookError TrustedPeerBook
  unfolding reload
  open_book readable file = opened (reload readable file (record { has_path = true; peers = [] }))

  -- `save`; a failed write is taken to leave the file alone.
  pub save : Bool → TrustedPeerBook → File → Result PeerBookError Unit × File
  unfolding list
  save writable book file =
      if book.has_path
      then (if writable
          then (ok tt, some (codec.to_string_pretty (record { version = 1; peers = list book })))
          else (err io, file))
      else (ok tt, file)

  -- The peer stays in memory when the file cannot be written.
  pub add :
      ℕ
      → Bool
      → PublicIdentity
      → Option Text
      → TrustedPeerBook
      → File
      → Result PeerBookError Unit × TrustedPeerBook × File
  unfolding save
  add now writable pubkey nickname book file =
      if HashMap.contains_key pubkey book.peers
      then (err (duplicate_peer (c.hex_encode pubkey)), book, file)
      else (let entry : TrustedPeer = record {
        pubkey = pubkey;
        nickname = nickname;
        added_at = now;
      } in
          let book' = record book { peers = HashMap.insert pubkey entry book.peers } in
          let (saved, file') = save writable book' file in (saved, book', file'))

  unfoldable pub remove :
      Bool
      → PublicIdentity
      → TrustedPeerBook
      → File
      → Result PeerBookError TrustedPeer × TrustedPeerBook × File
  unfolding save
  remove writable pubkey book file = elim (HashMap.get pubkey book.peers) [
    | none ↦ (err (peer_not_found (c.hex_encode pubkey)), book, file)
    | some peer ↦
        let book' = record book { peers = HashMap.remove pubkey book.peers } in
        let (saved, file') = save writable book' file in
        (elim saved [ ok _ ↦ ok peer | err e ↦ err e ], book', file')
  ]

module _ ⦃c : Crypto⦄ where
  pub require_trusted : TrustedPeerBook → PublicIdentity → Result PeerBookError TrustedPeer
  require_trusted book pubkey = elim (HashMap.get pubkey book.peers) [
    | none ↦ err (peer_not_found (c.hex_encode pubkey))
    | some peer ↦ ok peer
  ]
