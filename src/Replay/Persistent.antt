-- ===== src/Replay/Persistent.antt =====
-- `PersistentReplayStore` of crates/blindoverlap/src/replay.rs: the store behind a JSON file.
pub mod Reopening
use blind_overlap.Prelude.{
  ℕ, Bool, true, false, ◌&&◌, ◌||◌, not, Option, none, some, List, [], ◌∷◌, map, ◌==◌, leb, ◌≡◌,
  if◌then◌else◌, Result, ok, err, ◌>>=◌,
}
use blind_overlap.Bytes.{Bytes, Text}
use blind_overlap.Bytes.Spaces.{space_1, space_2, space_3}
use blind_overlap.Crypto.{Crypto}
use blind_overlap.HashMap
use blind_overlap.HashMap.{HashMap}
use blind_overlap.Freshness.{
  SessionNonce, TranscriptDigest, FreshnessError, FromHexError, from_hex, to_hex,
}
use blind_overlap.Replay
use blind_overlap.Replay.{
  StoreEntry, ReplayStore, Readings, with_ttl, check_nonce, check_digest, cleanup_expired, clear,
  record_nonce, record_digest,
}

pub record PersistentStoreData : Type 0 where
  pub version : ℕ
  pub default_ttl : ℕ
  pub nonces : List (Text × StoreEntry)
  pub digests : List (Text × StoreEntry)

-- serde_json on `PersistentStoreData`.
pub record StoreCodec : Type 0 where
  pub to_string_pretty : PersistentStoreData → Text
  pub from_str : Text → Option PersistentStoreData

pub data ReplayStoreError : Type 0 where
  io json : ReplayStoreError

-- What the file system does with the file of one store: its contents, if it exists.
abbrev pub File : Type 0
File = Option Text

-- `text.trim().is_empty()`
unfoldable pub is_blank : Text → Bool
is_blank [] = true
is_blank (a ∷ []) = space_1 a
is_blank (a ∷ b ∷ []) = space_1 a && space_1 b || space_2 a b
is_blank (a ∷ b ∷ c ∷ r) =
    let after_1 = is_blank (b ∷ c ∷ r) in
    let after_2 = is_blank (c ∷ r) in
    let after_3 = is_blank r in
    if space_1 a then after_1 else if space_2 a b then after_2 else space_3 a b c && after_3

-- `if let Ok(key) = … { map.insert(key, entry) }`
pub insert_if_ok : Result FromHexError Bytes → StoreEntry → HashMap StoreEntry → HashMap StoreEntry
insert_if_ok (ok key) entry m = HashMap.insert key entry m
insert_if_ok (err e) entry m = m

module _ ⦃c : Crypto⦄ where
  -- The loop over loaded entries: keys that do not parse are skipped.
  pub load_entries : List (Text × StoreEntry) → HashMap StoreEntry → HashMap StoreEntry
  unfolding insert_if_ok
  load_entries [] m = m
  load_entries ((hex, entry) ∷ rest) m = load_entries rest (insert_if_ok (from_hex hex) entry m)

  pub hex_keys : HashMap StoreEntry → List (Text × StoreEntry)
  hex_keys [] = []
  hex_keys ((k, entry) ∷ m) = (to_hex k, entry) ∷ hex_keys m

  pub snapshot : ReplayStore → PersistentStoreData
  unfolding hex_keys
  snapshot s = record {
    version = 1;
    default_ttl = s.default_ttl;
    nonces = hex_keys s.nonces;
    digests = hex_keys s.digests;
  }

  module _ (codec : StoreCodec) where
    load_into : ℕ → Text → ReplayStore → Result ReplayStoreError ReplayStore
    unfolding load_entries
    load_into now contents s = if is_blank contents then ok s else elim (codec.from_str contents) [
      | none ↦ err json
      | some loaded ↦ ok (
          cleanup_expired now (record s {
            nonces = load_entries loaded.nonces s.nonces;
            digests = load_entries loaded.digests s.digests;
          }))
    ]

    -- `readable` says whether `read_to_string` succeeds on the file that is there.
    pub open_with_ttl : ℕ → Bool → File → ℕ → Result ReplayStoreError ReplayStore
    unfolding load_into
    open_with_ttl now readable none ttl_secs = ok (with_ttl ttl_secs)
    open_with_ttl now readable (some contents) ttl_secs =
        if readable then load_into now contents (with_ttl ttl_secs) else err io

    unfoldable pub open_store : ℕ → Bool → File → Result ReplayStoreError ReplayStore
    unfolding open_with_ttl
    open_store now readable file = open_with_ttl now readable file 3600

    -- `writable` says whether `fs::write` succeeds; a failed write is taken to leave the file alone.
    pub flush : Bool → ReplayStore → File → Result ReplayStoreError Unit × File
    unfolding snapshot
    flush writable s file =
        if writable then (ok tt, some (codec.to_string_pretty (snapshot s))) else (err io, file)

    -- The flush is best effort: its error is dropped.
    unfoldable pub record_nonce_and_flush :
        Bool
        → Readings
        → SessionNonce
        → Option Text
        → ReplayStore
        → File
        → Result FreshnessError Unit × ReplayStore × File
    unfolding flush
    record_nonce_and_flush writable at nonce session_id s file =
        let (result, s') = record_nonce at nonce session_id s in
        elim result [ ok _ ↦ (ok tt, s', (flush writable s' file).1) | err e ↦ (err e, s', file) ]

    unfoldable pub record_digest_and_flush :
        Bool
        → Readings
        → TranscriptDigest
        → Option Text
        → ReplayStore
        → File
        → Result FreshnessError Unit × ReplayStore × File
    unfolding flush
    record_digest_and_flush writable at digest session_id s file =
        let (result, s') = record_digest at digest session_id s in
        elim result [ ok _ ↦ (ok tt, s', (flush writable s' file).1) | err e ↦ (err e, s', file) ]

    unfoldable pub cleanup_and_flush : Bool → ℕ → ReplayStore → File → ReplayStore × File
    unfolding flush
    cleanup_and_flush writable now s file =
        let s' = cleanup_expired now s in (s', (flush writable s' file).1)

    unfoldable pub clear_and_flush : Bool → ReplayStore → File → ReplayStore × File
    unfolding flush
    clear_and_flush writable s file = let s' = clear s in (s', (flush writable s' file).1)

    -- `reload`; the store is already emptied when the contents do not parse.
    unfoldable pub reload :
        ℕ → Bool → ReplayStore → File → Result ReplayStoreError Unit × ReplayStore
    unfolding load_into
    reload now readable s none = (ok tt, s)
    reload now readable s (some contents) =
        if readable
        then elim (load_into now contents (clear s)) [
          | ok s' ↦ (ok tt, s')
          | err e ↦ (err e, clear s)
        ]
        else (err io, s)
