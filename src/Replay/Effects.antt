-- ===== src/Replay/Effects.antt =====
-- What one operation of the store changes: its invariant, its answers and its size.
use blind_overlap.Prelude.{ℕ, ◌+◌, ◌≤◌, ◌≡◌, ◌≢◌, Option, arith, length, ltb, err}
use blind_overlap.Bytes.{Bytes, Text, eqb_of_ne}
use blind_overlap.HashMap
use blind_overlap.HashMap.{HashMap, IsUnique}
use blind_overlap.HashMap.Laws.{
  get-insert, get-retain, insert-IsUnique, retain-IsUnique, length-insert-le, length-retain-le,
}
use blind_overlap.Freshness.{
  SessionNonce, TranscriptDigest, FreshnessError, SeenBefore, nonce_seen, transcript_seen,
}
use blind_overlap.Replay.{
  StoreEntry, ReplayStore, check_entry, check_nonce, check_digest, total_count, cleanup_expired,
  maybe_cleanup, Readings, new_entry, record_nonce, record_digest,
}

pub record IsValid (s : ReplayStore) : Type 0 where
  pub nonces : IsUnique s.nonces
  pub digests : IsUnique s.digests

pub cleanup_expired-IsValid :
    (now : ℕ) (s : ReplayStore) → IsValid s → IsValid (cleanup_expired now s)
unfolding cleanup_expired
cleanup_expired-IsValid now s v = record {
  nonces = retain-IsUnique _ s.nonces v.nonces;
  digests = retain-IsUnique _ s.digests v.digests;
}

maybe_cleanup-IsValid : (now : ℕ) (s : ReplayStore) → IsValid s → IsValid (maybe_cleanup now s)
unfolding maybe_cleanup
maybe_cleanup-IsValid now s v = ground (arith, cleanup_expired-IsValid now s v)

pub record_nonce-IsValid :
    (at : Readings) (n : SessionNonce) (session_id : Option Text) (s : ReplayStore)
    → IsValid s
    → IsValid (record_nonce at n session_id s).1
unfolding record_nonce
record_nonce-IsValid at n session_id s v =
    let w = maybe_cleanup-IsValid at.cleaned s v in
    let cleaned = maybe_cleanup at.cleaned s in
    let u = insert-IsUnique n (new_entry at.recorded session_id cleaned) cleaned.nonces w.nonces in
    ground (arith, u, w)

pub record_digest-IsValid :
    (at : Readings) (d : TranscriptDigest) (session_id : Option Text) (s : ReplayStore)
    → IsValid s
    → IsValid (record_digest at d session_id s).1
unfolding record_digest
record_digest-IsValid at d session_id s v =
    let w = maybe_cleanup-IsValid at.cleaned s v in
    let cleaned = maybe_cleanup at.cleaned s in
    let u =
      insert-IsUnique d (new_entry at.recorded session_id cleaned) cleaned.digests w.digests in
    ground (arith, u, w)

-- A read of a map that is cleaned at `now`, by a clock that has not gone back.
check_entry-retain :
    (seen : Bytes → ℕ → SeenBefore) (now later : ℕ) (k : Bytes) (m : HashMap StoreEntry)
    → IsUnique m
    → now ≤ later
    → check_entry seen later k (HashMap.retain (λ e. ltb now e.expires_at) m)
      ≡ check_entry seen later k m
unfolding check_entry
check_entry-retain seen now later k m u h =
    ground (arith, get-retain (λ (e : StoreEntry). ltb now e.expires_at) k m u)

-- A cleanup changes no answer that the store gives from then on.
pub check-cleanup_expired :
    (now later : ℕ) (k : Bytes) (s : ReplayStore)
    → IsValid s
    → now ≤ later
    → (check_nonce later k (cleanup_expired now s) ≡ check_nonce later k s)
      × (check_digest later k (cleanup_expired now s) ≡ check_digest later k s)
unfolding check_nonce check_digest cleanup_expired
check-cleanup_expired now later k s v h = (
  check_entry-retain nonce_seen now later k s.nonces v.nonces h,
  check_entry-retain transcript_seen now later k s.digests v.digests h,
)

check-maybe_cleanup :
    (now later : ℕ) (k : Bytes) (s : ReplayStore)
    → IsValid s
    → now ≤ later
    → (check_nonce later k (maybe_cleanup now s) ≡ check_nonce later k s)
      × (check_digest later k (maybe_cleanup now s) ≡ check_digest later k s)
unfolding maybe_cleanup
check-maybe_cleanup now later k s v h = ground (arith, check-cleanup_expired now later k s v h)

-- Recording a nonce changes the later answers for no other nonce and for no digest.
record_nonce_others :
    (at : Readings) (n other : SessionNonce) (d : TranscriptDigest) (session_id : Option Text)
    (later : ℕ) (s : ReplayStore)
    → IsValid s
    → at.cleaned ≤ later
    → n ≢ other
    → (check_nonce later other (record_nonce at n session_id s).1 ≡ check_nonce later other s)
      × (check_digest later d (record_nonce at n session_id s).1 ≡ check_digest later d s)
unfolding record_nonce check_nonce check_digest
record_nonce_others at n other d session_id later s v h ne =
    let cleaned = maybe_cleanup at.cleaned s in
    let entry = new_entry at.recorded session_id cleaned in
    ground (
      arith,
      get-insert n other entry cleaned.nonces,
      eqb_of_ne n other ne,
      check-maybe_cleanup at.cleaned later other s v h,
      check-maybe_cleanup at.cleaned later d s v h,
    )

total_count-maybe_cleanup :
    (now : ℕ) (s : ReplayStore)
    → length (maybe_cleanup now s).nonces + length (maybe_cleanup now s).digests
      ≤ length s.nonces + length s.digests
unfolding maybe_cleanup cleanup_expired
total_count-maybe_cleanup now s = ground (
  arith,
  length-retain-le (λ (e : StoreEntry). ltb now e.expires_at) s.nonces,
  length-retain-le (λ (e : StoreEntry). ltb now e.expires_at) s.digests,
)

-- The store grows by one entry at most for each recording, and an error changes nothing.
record_nonce_growth :
    (at : Readings) (n : SessionNonce) (session_id : Option Text) (s : ReplayStore)
    → (total_count (record_nonce at n session_id s).1 ≤ total_count s + 1)
      × ((e : FreshnessError)
          → (record_nonce at n session_id s).0 ≡ err e
          → (record_nonce at n session_id s).1 ≡ s)
unfolding record_nonce total_count
record_nonce_growth at n session_id s =
    let cleaned = maybe_cleanup at.cleaned s in
    let entry = new_entry at.recorded session_id cleaned in
    (
      ground
          (arith, length-insert-le n entry cleaned.nonces, total_count-maybe_cleanup at.cleaned s),
      λ e failed. ground arith,
    )
