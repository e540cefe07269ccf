-- ===== src/Replay.antt =====
-- `ReplayStore` of crates/blindoverlap/src/replay.rs. Each clock reading is an argument of its own.
pub mod Effects
pub mod Detection
pub mod Persistent
use blind_overlap.Prelude.{
  ℕ, ◌+◌, ◌*◌, Bool, Option, none, some, List, [], ◌∷◌, length, ltb, if◌then◌else◌, Result, ok, err,
}
use blind_overlap.Bytes.{Bytes, Text}
use blind_overlap.HashMap
use blind_overlap.HashMap.{HashMap}
use blind_overlap.Freshness.{
  SessionNonce, TranscriptDigest, FreshnessError, replay_detected, SeenBefore, nonce_seen,
  transcript_seen, wrapping_add,
}

pub record StoreEntry : Type 0 where
  pub recorded_at : ℕ
  pub expires_at : ℕ
  pub session_id : Option Text

pub record ReplayStore : Type 0 where
  pub nonces : HashMap StoreEntry
  pub digests : HashMap StoreEntry
  pub default_ttl : ℕ
  pub max_entries : ℕ

unfoldable pub with_limits : ℕ → ℕ → ReplayStore
with_limits ttl_secs max_entries = record {
  nonces = [];
  digests = [];
  default_ttl = ttl_secs;
  max_entries = max_entries;
}

pub with_ttl : ℕ → ReplayStore
unfolding with_limits
with_ttl ttl_secs = with_limits ttl_secs 100000

unfoldable pub new : ReplayStore
unfolding with_ttl
new = with_ttl 3600

-- The lookup that `check_nonce` and `check_digest` make, with the reason that an error gives.
pub check_entry :
    (Bytes → ℕ → SeenBefore) → ℕ → Bytes → HashMap StoreEntry → Result FreshnessError Unit
check_entry seen now k m = elim (HashMap.get k m) [
  | none ↦ ok tt
  | some entry ↦
      if ltb now entry.expires_at then err (replay_detected (seen k entry.recorded_at)) else ok tt
]

unfoldable pub check_nonce : ℕ → SessionNonce → ReplayStore → Result FreshnessError Unit
unfolding check_entry
check_nonce now nonce s = check_entry nonce_seen now nonce s.nonces

unfoldable pub check_digest : ℕ → TranscriptDigest → ReplayStore → Result FreshnessError Unit
unfolding check_entry
check_digest now digest s = check_entry transcript_seen now digest s.digests

pub total_count : ReplayStore → ℕ
total_count s = length s.nonces + length s.digests

pub cleanup_expired : ℕ → ReplayStore → ReplayStore
cleanup_expired now s = record s {
  nonces = HashMap.retain (λ entry. ltb now entry.expires_at) s.nonces;
  digests = HashMap.retain (λ entry. ltb now entry.expires_at) s.digests;
}

pub maybe_cleanup : ℕ → ReplayStore → ReplayStore
unfolding total_count
maybe_cleanup now s = if ltb s.max_entries (total_count s) then cleanup_expired now s else s

-- The clock is read by the check, by the cleanup and for the new entry.
pub record Readings : Type 0 where
  pub checked : ℕ
  pub cleaned : ℕ
  pub recorded : ℕ

pub new_entry : ℕ → Option Text → ReplayStore → StoreEntry
new_entry now session_id s = record {
  recorded_at = now;
  expires_at = wrapping_add now s.default_ttl;
  session_id = session_id;
}

unfoldable pub record_nonce :
    Readings → SessionNonce → Option Text → ReplayStore → Result FreshnessError Unit × ReplayStore
unfolding new_entry
record_nonce at nonce session_id s = elim (check_nonce at.checked nonce s) [
  | err e ↦ (err e, s)
  | ok _ ↦
      let cleaned = maybe_cleanup at.cleaned s in
      (
        ok tt,
        record cleaned {
          nonces = HashMap.insert nonce (new_entry at.recorded session_id cleaned) cleaned.nonces;
        },
      )
]

pub record_digest :
    Readings
    → TranscriptDigest
    → Option Text
    → ReplayStore
    → Result FreshnessError Unit × ReplayStore
unfolding new_entry
record_digest at digest session_id s = elim (check_digest at.checked digest s) [
  | err e ↦ (err e, s)
  | ok _ ↦
      let cleaned = maybe_cleanup at.cleaned s in
      (
        ok tt,
        record cleaned {
          digests =
              HashMap.insert digest (new_entry at.recorded session_id cleaned) cleaned.digests;
        },
      )
]

unfoldable pub clear : ReplayStore → ReplayStore
clear s = record s { nonces = []; digests = [] }
