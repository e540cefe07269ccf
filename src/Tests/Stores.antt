-- ===== src/Tests/Stores.antt =====
-- The replay store, its file, and the peer book.
use blind_overlap.Prelude.{
  ℕ, ◌≤◌, ◌≡◌, ◌≢◌, refl, true, false, some, none, List, [], ◌∷◌, Option, Result, ok, err, arith,
}
use blind_overlap.Bytes.{Bytes, Text, ascii, eqb}
use blind_overlap.HashMap
use blind_overlap.Freshness.{replay_detected, nonce_seen}
use blind_overlap.Replay.{
  ReplayStore, StoreEntry, Readings, with_limits, record_nonce, check_nonce, check_digest,
}
use blind_overlap.Replay.Effects.{IsValid}
use blind_overlap.Replay.Detection.{
  Op, records_nonce, records_digest, cleans, run, recorded_nonce_is_caught,
}
use blind_overlap.Replay.Persistent.{StoreCodec, snapshot, open_with_ttl, flush}
use blind_overlap.Replay.Persistent.Reopening.{open-flush}
use blind_overlap.PeerBook
use blind_overlap.PeerBook.{
  TrustedPeerBook, BookCodec, TrustedPeer, lookup, open_book, save, add, is_trusted, list,
}
use blind_overlap.PeerBook.Trust
use blind_overlap.PeerBook.Trust.{add_trusts, remove_distrusts}
use blind_overlap.Tests.Common.{id_of, toy_crypto, toy-HexRoundTrips}

abbrev at : ℕ → Readings
at t = record { checked = t; cleaned = t; recorded = t }

abbrev fresh_store : ReplayStore
fresh_store = with_limits 60 2

fresh-IsValid : IsValid fresh_store
unfolding with_limits
fresh-IsValid = record { nonces = tt; digests = tt }

abbrev later_ops : List Op
later_ops =
    records_nonce (at 120) (id_of 8) none
    ∷ cleans 130
    ∷ records_digest (at 140) (id_of 9) (some (ascii "s1"))
    ∷ []

recorded_nonce_is_caught_example :
    check_nonce 150 (id_of 7) (run later_ops (record_nonce (at 100) (id_of 7) none fresh_store).1)
    ≡ err (replay_detected (nonce_seen (id_of 7) 100))
unfolding with_limits record_nonce check_nonce HashMap.get
recorded_nonce_is_caught_example =
    recorded_nonce_is_caught fresh_store (at 100) (id_of 7) none later_ops 150 fresh-IsValid refl
      (omega arith) (omega arith) (omega arith)

-- A nonce of 32 bytes.
abbrev wide : Bytes
wide =
    7 ∷ 0 ∷ 0 ∷ 0 ∷ 0 ∷ 0 ∷ 0 ∷ 0 ∷ 0 ∷ 0 ∷ 0 ∷ 0 ∷ 0 ∷ 0 ∷ 0 ∷ 0 ∷ 0 ∷ 0 ∷ 0 ∷ 0 ∷ 0 ∷ 0 ∷ 0 ∷ 0
    ∷ 0 ∷ 0 ∷ 0 ∷ 0 ∷ 0 ∷ 0 ∷ 0 ∷ 0 ∷ []

abbrev used_store : ReplayStore
used_store = record {
  nonces = (wide, record { recorded_at = 100; expires_at = 160; session_id = none }) ∷ [];
  digests = [];
  default_ttl = 60;
  max_entries = 10;
}

used-IsValid : IsValid used_store
unfolding HashMap.get
used-IsValid = record { nonces = (refl, tt); digests = tt }

-- A codec that writes one document.
abbrev store_codec : StoreCodec
store_codec = record {
  to_string_pretty = λ d. ascii "{}";
  from_str = λ t. some (snapshot used_store);
}

open-flush_example :
    (s' : ReplayStore) × (open_with_ttl store_codec 120 true
        (flush store_codec true used_store none).1
        60
      ≡ ok s')
    × ((later : ℕ) (k : Bytes)
        → 120 ≤ later
        → (check_nonce later k s' ≡ check_nonce later k used_store)
          × (check_digest later k s' ≡ check_digest later k used_store))
unfolding blind_overlap.Replay.Persistent.is_blank ascii
open-flush_example =
    open-flush toy-HexRoundTrips store_codec used_store none 120 60
      (record { not_blank = refl; reads_back = refl }) used-IsValid (refl, tt) tt

abbrev book : TrustedPeerBook
book = record {
  has_path = true;
  peers =
      (id_of 3, record { pubkey = id_of 3; nickname = none; added_at = 9 })
      ∷ (id_of 4, record { pubkey = id_of 4; nickname = some (ascii "bob"); added_at = 5 })
      ∷ [];
}

book-IsValid : PeerBook.Trust.IsValid book
unfolding HashMap.get eqb
book-IsValid = record { unique = (refl, (refl, tt)); keyed = (refl, (refl, tt)) }

abbrev book_codec : BookCodec
book_codec = record {
  to_string_pretty = λ d. ascii "{}";
  from_str = λ t. some (record { version = 1; peers = list book });
}

abbrev with_carol : Result PeerBook.PeerBookError Unit × TrustedPeerBook × Option Text
with_carol = add book_codec 20 false (id_of 5) none book none

-- The file cannot be written.
add_trusts_example :
    PeerBook.Trust.IsValid with_carol.1
    × (is_trusted with_carol.1 (id_of 5) ≡ true)
    × (id_of 5 ≢ id_of 3 → is_trusted with_carol.1 (id_of 3) ≡ is_trusted book (id_of 3))
    × (is_trusted book (id_of 5) ≡ true
        → with_carol ≡ (err (PeerBook.duplicate_peer (id_of 5)), book, none))
add_trusts_example = add_trusts book_codec false 20 (id_of 5) (id_of 3) none book none book-IsValid
