-- ===== src/Replay/Persistent/Reopening.antt =====
-- A store that is flushed and opened again gives the answers that it gave before.
use blind_overlap.Prelude.{
  ℕ, ◌≤◌, ◌≡◌, refl, ap, ◌∙◌, true, false, Option, none, some, List, [], ◌∷◌, arith, Result, ok,
  err,
}
use blind_overlap.Bytes.{Bytes, Text, eqb_iff}
use blind_overlap.Crypto.{Crypto, HexRoundTrips}
use blind_overlap.HashMap
use blind_overlap.HashMap.{HashMap, IsUnique, contains_key}
use blind_overlap.HashMap.Laws.{get-insert, insert-IsUnique}
use blind_overlap.FactSet.Commitment.{Is32}
use blind_overlap.Freshness.{
  SeenBefore, FromHexError, nonce_seen, transcript_seen, from_hex, to_hex,
}
use blind_overlap.Replay.{
  StoreEntry, ReplayStore, check_entry, check_nonce, check_digest, cleanup_expired, with_ttl,
}
use blind_overlap.Replay.Effects.{IsValid, check-cleanup_expired}
use blind_overlap.Replay.Persistent.{
  PersistentStoreData, StoreCodec, File, is_blank, insert_if_ok, load_entries, hex_keys,
  open_with_ttl, snapshot, flush,
}

-- serde_json on one document: as written it is not blank, and it is read back as it was.
pub record CodecRoundTrips (codec : StoreCodec) (d : PersistentStoreData) : Type 0 where
  pub not_blank : is_blank (codec.to_string_pretty d) ≡ false
  pub reads_back : codec.from_str (codec.to_string_pretty d) ≡ some d

-- Every key is the 32 bytes of a nonce or digest.
abbrev KeysAre32 : HashMap StoreEntry → Type 0
KeysAre32 [] = Unit
KeysAre32 ((k, entry) ∷ m) = Is32 k × KeysAre32 m

abbrev or_else {ℓ} : {A : Type ℓ} → Option A → Option A → Option A
or_else none o = o
or_else (some a) o = some a

get-nil : (k : Bytes) → HashMap.get {V = StoreEntry} k [] ≡ none
unfolding HashMap.get
get-nil k = refl

module _ ⦃c : Crypto⦄ (hex : HexRoundTrips c) where
  from_hex-to_hex : (k : Bytes) → Is32 k → from_hex (to_hex k) ≡ ok k
  unfolding from_hex to_hex
  from_hex-to_hex k h = ground (arith, hex k)

  insert_if_ok-IsUnique :
      (r : Result FromHexError Bytes) (entry : StoreEntry) (m : HashMap StoreEntry)
      → IsUnique m
      → IsUnique (insert_if_ok r entry m)
  unfolding insert_if_ok
  insert_if_ok-IsUnique (ok key) entry m u = insert-IsUnique key entry m u
  insert_if_ok-IsUnique (err e) entry m u = u

  load_entries-IsUnique :
      (l : List (Text × StoreEntry)) (m : HashMap StoreEntry)
      → IsUnique m
      → IsUnique (load_entries l m)
  unfolding load_entries
  load_entries-IsUnique [] m u = u
  load_entries-IsUnique ((k, entry) ∷ l) m u =
      load_entries-IsUnique l _ (insert_if_ok-IsUnique (from_hex k) entry m u)

  get-load_entries :
      (k : Bytes) (m acc : HashMap StoreEntry)
      → KeysAre32 m
      → IsUnique m
      → HashMap.get k (load_entries (hex_keys m) acc)
        ≡ or_else (HashMap.get k m) (HashMap.get k acc)
  unfolding load_entries hex_keys HashMap.get
  get-load_entries k [] acc w u = refl
  get-load_entries k ((j, entry) ∷ m) acc w u =
      ap (λ r. HashMap.get k (load_entries (hex_keys m) (insert_if_ok r entry acc)))
        (from_hex-to_hex j w.0)
      ∙ get-load_entries k m (HashMap.insert j entry acc) w.1 u.1
      ∙ ground (arith, get-insert j k entry acc, eqb_iff j k, u.0)

  -- A map that is loaded from its own snapshot is read like the map.
  check_entry-load_entries :
      (seen : Bytes → ℕ → SeenBefore) (later : ℕ) (k : Bytes) (m : HashMap StoreEntry)
      → KeysAre32 m
      → IsUnique m
      → check_entry seen later k (load_entries (hex_keys m) []) ≡ check_entry seen later k m
  unfolding check_entry
  check_entry-load_entries seen later k m w u =
      ground (arith, get-load_entries k m [] w u, get-nil k)

  -- What the loading of a snapshot makes of an empty store.
  abbrev loaded : ReplayStore → ℕ → ReplayStore
  loaded s ttl_secs = record (with_ttl ttl_secs) {
    nonces = load_entries (hex_keys s.nonces) [];
    digests = load_entries (hex_keys s.digests) [];
  }

  open_snapshot :
      (codec : StoreCodec) (s : ReplayStore) (file : File) (now ttl_secs : ℕ)
      → CodecRoundTrips codec (snapshot s)
      → open_with_ttl codec now true (flush codec true s file).1 ttl_secs
        ≡ ok (cleanup_expired now (loaded s ttl_secs))
  unfolding open_with_ttl flush with_ttl
  open_snapshot codec s file now ttl_secs rt = ground (arith, rt.not_blank, rt.reads_back)

  loaded-IsValid : (s : ReplayStore) (ttl_secs : ℕ) → IsValid (loaded s ttl_secs)
  loaded-IsValid s ttl_secs = record {
    nonces = load_entries-IsUnique (hex_keys s.nonces) [] tt;
    digests = load_entries-IsUnique (hex_keys s.digests) [] tt;
  }

  -- A valid store with keys of 32 bytes, flushed and opened again at `now` under any time to live,
  -- where JSON reads back the document that was written and hex text is decoded as what it encodes:
  -- the opening succeeds, and every check from `now` on has the result that it has in the store that
  -- was flushed.
  pub open-flush :
      (codec : StoreCodec) (s : ReplayStore) (file : File) (now ttl_secs : ℕ)
      → CodecRoundTrips codec (snapshot s)
      → IsValid s
      → KeysAre32 s.nonces
      → KeysAre32 s.digests
      → (s' : ReplayStore) × (open_with_ttl codec now true (flush codec true s file).1 ttl_secs
          ≡ ok s')
        × ((later : ℕ) (k : Bytes)
            → now ≤ later
            → (check_nonce later k s' ≡ check_nonce later k s)
              × (check_digest later k s' ≡ check_digest later k s))
  unfolding check_nonce check_digest
  open-flush codec s file now ttl_secs rt v wn wd = (
    cleanup_expired now (loaded s ttl_secs),
    open_snapshot codec s file now ttl_secs rt,
    λ later k h.
        let cleaned =
          check-cleanup_expired now later k (loaded s ttl_secs) (loaded-IsValid s ttl_secs) h in
        (
          cleaned.0 ∙ check_entry-load_entries nonce_seen later k s.nonces wn v.nonces,
          cleaned.1 ∙ check_entry-load_entries transcript_seen later k s.digests wd v.digests,
        ),
  )
