-- ===== src/PeerBook/Reopening.antt =====
-- A book that is saved and opened again has the same peers.
use blind_overlap.Prelude.{
  ◌≡◌, refl, ◌∙◌, true, false, Option, none, some, List, [], ◌∷◌, arith, if◌then◌else◌, ok,
}
use blind_overlap.Bytes.{Bytes, eqb, eqb_iff}
use blind_overlap.Crypto.{Crypto}
use blind_overlap.HashMap
use blind_overlap.HashMap.{HashMap, IsUnique}
use blind_overlap.HashMap.Laws.{get-insert}
use blind_overlap.Identity.{PublicIdentity}
use blind_overlap.Replay.Persistent.{File, is_blank}
use blind_overlap.PeerBook.{
  TrustedPeer, StoredPeerBook, BookCodec, TrustedPeerBook, values, place_by_time, sort_by_time,
  list, insert_all, lookup, open_book, save,
}
use blind_overlap.PeerBook.Trust.{IsKeyed, IsValid}

-- serde_json on one document: as written it is not blank, and it is read back as it was.
pub record BookRoundTrips (codec : BookCodec) (d : StoredPeerBook) : Type 0 where
  pub not_blank : is_blank (codec.to_string_pretty d) ≡ false
  pub reads_back : codec.from_str (codec.to_string_pretty d) ≡ some d

-- The first peer of a list with the given key.
find : Bytes → List TrustedPeer → Option TrustedPeer
find k [] = none
find k (p ∷ l) = if eqb p.pubkey k then some p else find k l

abbrev HasDistinctKeys : List TrustedPeer → Type 0
HasDistinctKeys [] = Unit
HasDistinctKeys (p ∷ l) = (find p.pubkey l ≡ none) × HasDistinctKeys l

find-place :
    (k : Bytes) (p : TrustedPeer) (l : List TrustedPeer)
    → find p.pubkey l ≡ none
    → find k (place_by_time p l) ≡ (if eqb p.pubkey k then some p else find k l)
unfolding find place_by_time
find-place k p [] h = refl
find-place k p (q ∷ l) h =
    ground
      (arith, eqb_iff q.pubkey k, eqb_iff p.pubkey k, eqb_iff q.pubkey p.pubkey, find-place k p l)

place-distinct :
    (p : TrustedPeer) (l : List TrustedPeer)
    → find p.pubkey l ≡ none
    → HasDistinctKeys l
    → HasDistinctKeys (place_by_time p l)
unfolding find place_by_time
place-distinct p [] h d = (refl, tt)
place-distinct p (q ∷ l) h d = ground (
  arith,
  d.0,
  d.1,
  eqb_iff p.pubkey q.pubkey,
  eqb_iff q.pubkey p.pubkey,
  find-place q.pubkey p l,
  place-distinct p l,
)

find-sort :
    (k : Bytes) (l : List TrustedPeer) → HasDistinctKeys l → find k (sort_by_time l) ≡ find k l
unfolding find sort_by_time
find-sort k [] d = refl
find-sort k (p ∷ l) d =
    ground
      (arith, find-place k p (sort_by_time l), find-sort p.pubkey l d.1, find-sort k l d.1, d.0)

sort-distinct : (l : List TrustedPeer) → HasDistinctKeys l → HasDistinctKeys (sort_by_time l)
unfolding sort_by_time
sort-distinct [] d = tt
sort-distinct (p ∷ l) d =
    place-distinct p (sort_by_time l) (find-sort p.pubkey l d.1 ∙ d.0) (sort-distinct l d.1)

find-values :
    (k : Bytes) (m : HashMap TrustedPeer) → IsKeyed m → find k (values m) ≡ HashMap.get k m
unfolding find values HashMap.get
find-values k [] h = refl
find-values k ((j, p) ∷ m) h = ground (arith, h.0, find-values k m h.1)

values-distinct : (m : HashMap TrustedPeer) → IsKeyed m → IsUnique m → HasDistinctKeys (values m)
unfolding values
values-distinct [] h u = tt
values-distinct ((j, p) ∷ m) h u =
    (ground (arith, h.0, u.0, find-values j m h.1), values-distinct m h.1 u.1)

get-insert_all :
    (k : Bytes) (l : List TrustedPeer) (m : HashMap TrustedPeer)
    → HasDistinctKeys l
    → HashMap.get k (insert_all l m) ≡ elim (find k l) [ none ↦ HashMap.get k m | some p ↦ some p ]
unfolding insert_all find
get-insert_all k [] m d = refl
get-insert_all k (p ∷ l) m d = ground (
  arith,
  get-insert_all k l (HashMap.insert p.pubkey p m) d.1,
  get-insert p.pubkey k p m,
  eqb_iff p.pubkey k,
  d.0,
)

-- What is loaded from the list of a valid book is read like the book.
lookup-insert_all :
    (book : TrustedPeerBook) (k : PublicIdentity)
    → IsValid book
    → lookup (record { has_path = true; peers = insert_all (list book) [] }) k ≡ lookup book k
unfolding lookup list HashMap.get
lookup-insert_all book k v =
    let d = values-distinct book.peers v.keyed v.unique in
    ground (
      arith,
      get-insert_all k (sort_by_time (values book.peers)) [] (sort-distinct (values book.peers) d),
      find-sort k (values book.peers) d,
      find-values k book.peers v.keyed,
    )

module _ ⦃c : Crypto⦄ where
  -- A valid book with a path, saved to a writable file, where JSON reads back the document that was
  -- written: opening the file gives a book in which every key has the entry, or the absence of one,
  -- that it had.
  pub open-save :
      (codec : BookCodec) (book : TrustedPeerBook) (file : File)
      → BookRoundTrips codec (record { version = 1; peers = list book })
      → IsValid book
      → book.has_path ≡ true
      → (book' : TrustedPeerBook) × (open_book codec true (save codec true book file).1 ≡ ok book')
        × ((k : PublicIdentity) → lookup book' k ≡ lookup book k)
  unfolding open_book save
  open-save codec book file rt v backed = (
    record { has_path = true; peers = insert_all (list book) [] },
    ground (arith, backed, rt.not_blank, rt.reads_back),
    λ k. lookup-insert_all book k v,
  )
