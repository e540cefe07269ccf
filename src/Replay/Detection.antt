-- ===== src/Replay/Detection.antt =====
-- A recorded nonce is caught until it expires, whatever the store does meanwhile.
use blind_overlap.Prelude.{
  ℕ, ◌+◌, ◌^◌, ◌<◌, ◌≡◌, Option, some, List, [], ◌∷◌, arith, ltb, ok, err, All,
}
use blind_overlap.Bytes.{Bytes, Text, eqb_iff, eqb_refl}
use blind_overlap.HashMap
use blind_overlap.HashMap.{HashMap, IsUnique}
use blind_overlap.HashMap.Laws.{get-insert, get-retain}
use blind_overlap.Freshness.{SessionNonce, TranscriptDigest, replay_detected, nonce_seen}
use blind_overlap.Replay.{
  StoreEntry, ReplayStore, check_nonce, cleanup_expired, maybe_cleanup, Readings, new_entry,
  record_nonce, record_digest,
}
use blind_overlap.Replay.Effects.{
  IsValid, cleanup_expired-IsValid, record_nonce-IsValid, record_digest-IsValid,
}

-- A step of a store's life, with its clock readings; `clear` is left out.
pub data Op : Type 0 where
  records_nonce : Readings → SessionNonce → Option Text → Op
  records_digest : Readings → TranscriptDigest → Option Text → Op
  cleans : ℕ → Op

apply : Op → ReplayStore → ReplayStore
apply (records_nonce at n session_id) s = (record_nonce at n session_id s).1
apply (records_digest at d session_id) s = (record_digest at d session_id s).1
apply (cleans now) s = cleanup_expired now s

pub run : List Op → ReplayStore → ReplayStore
unfolding apply
run [] s = s
run (op ∷ ops) s = run ops (apply op s)

-- Every clock reading of a step comes before `t`.
abbrev Before : ℕ → Op → Type 0
Before t (records_nonce at n session_id) = (at.checked < t) × (at.cleaned < t)
Before t (records_digest at d session_id) = (at.checked < t) × (at.cleaned < t)
Before t (cleans now) = now < t

apply-IsValid : (op : Op) (s : ReplayStore) → IsValid s → IsValid (apply op s)
unfolding apply
apply-IsValid (records_nonce at n session_id) s v = record_nonce-IsValid at n session_id s v
apply-IsValid (records_digest at d session_id) s v = record_digest-IsValid at d session_id s v
apply-IsValid (cleans now) s v = cleanup_expired-IsValid now s v

get-cleanup_expired :
    (now : ℕ) (n : Bytes) (e : StoreEntry) (s : ReplayStore)
    → IsValid s
    → now < e.expires_at
    → HashMap.get n s.nonces ≡ some e
    → HashMap.get n (cleanup_expired now s).nonces ≡ some e
unfolding cleanup_expired
get-cleanup_expired now n e s v h p =
    ground (arith, get-retain (λ (x : StoreEntry). ltb now x.expires_at) n s.nonces v.nonces)

get-maybe_cleanup :
    (now : ℕ) (n : Bytes) (e : StoreEntry) (s : ReplayStore)
    → IsValid s
    → now < e.expires_at
    → HashMap.get n s.nonces ≡ some e
    → HashMap.get n (maybe_cleanup now s).nonces ≡ some e
unfolding maybe_cleanup
get-maybe_cleanup now n e s v h p = ground (arith, get-cleanup_expired now n e s v h p)

-- An entry that has not expired at any reading of a step survives it.
entry_survives :
    (op : Op) (n : SessionNonce) (e : StoreEntry) (s : ReplayStore)
    → IsValid s
    → Before e.expires_at op
    → HashMap.get n s.nonces ≡ some e
    → HashMap.get n (apply op s).nonces ≡ some e
unfolding apply record_nonce record_digest check_nonce
entry_survives (records_nonce at m session_id) n e s v b p =
    let cleaned = maybe_cleanup at.cleaned s in
    let entry = new_entry at.recorded session_id cleaned in
    ground (
      arith,
      eqb_iff m n,
      get-insert m n entry cleaned.nonces,
      get-maybe_cleanup at.cleaned n e s v b.1 p,
    )
entry_survives (records_digest at d session_id) n e s v b p =
    ground (arith, get-maybe_cleanup at.cleaned n e s v b.1 p)
entry_survives (cleans now) n e s v b p = get-cleanup_expired now n e s v b p

entry_survives_run :
    (ops : List Op) (n : SessionNonce) (e : StoreEntry) (s : ReplayStore)
    → IsValid s
    → All (Before e.expires_at) ops
    → HashMap.get n s.nonces ≡ some e
    → HashMap.get n (run ops s).nonces ≡ some e
unfolding run
entry_survives_run [] n e s v b p = p
entry_survives_run (op ∷ ops) n e s v b p =
    entry_survives_run ops n e (apply op s) (apply-IsValid op s v) b.1
      (entry_survives op n e s v b.0 p)

default_ttl-maybe_cleanup :
    (now : ℕ) (s : ReplayStore) → (maybe_cleanup now s).default_ttl ≡ s.default_ttl
unfolding maybe_cleanup cleanup_expired
default_ttl-maybe_cleanup now s = ground arith

get-record_nonce :
    (at : Readings) (n : SessionNonce) (session_id : Option Text) (s : ReplayStore)
    → (record_nonce at n session_id s).0 ≡ ok tt
    → at.recorded + s.default_ttl < 2 ^ 64
    → HashMap.get n (record_nonce at n session_id s).1.nonces
      ≡ some (record {
        recorded_at = at.recorded;
        expires_at = at.recorded + s.default_ttl;
        session_id = session_id;
      })
unfolding record_nonce
get-record_nonce at n session_id s done fits =
    let cleaned = maybe_cleanup at.cleaned s in
    let entry = new_entry at.recorded session_id cleaned in
    ground (
      arith,
      eqb_refl n,
      get-insert n n entry cleaned.nonces,
      default_ttl-maybe_cleanup at.cleaned s,
    )

-- After a nonce is recorded, and through any later recordings and cleanups whose clock readings come
-- before its expiry, a check before its expiry reports the replay with the time of the recording.
-- The expiry must fit 64 bits.
pub recorded_nonce_is_caught :
    (s : ReplayStore) (at : Readings) (n : SessionNonce) (session_id : Option Text) (ops : List Op)
    (now : ℕ)
    → IsValid s
    → (record_nonce at n session_id s).0 ≡ ok tt
    → at.recorded + s.default_ttl < 2 ^ 64
    → All (Before (at.recorded + s.default_ttl)) ops
    → now < at.recorded + s.default_ttl
    → check_nonce now n (run ops (record_nonce at n session_id s).1)
      ≡ err (replay_detected (nonce_seen n at.recorded))
unfolding check_nonce
recorded_nonce_is_caught s at n session_id ops now v done fits before soon = ground (
  arith,
  entry_survives_run ops n
      (record {
        recorded_at = at.recorded;
        expires_at = at.recorded + s.default_ttl;
        session_id = session_id;
      })
      (record_nonce at n session_id s).1 (record_nonce-IsValid at n session_id s v) before
      (get-record_nonce at n session_id s done fits),
)
