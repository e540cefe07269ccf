-- ===== src/Freshness/Deadlines.antt =====
-- When a deadline is valid, and that its four readings agree.
use blind_overlap.Prelude.{ℕ, ◌+◌, ◌<◌, ◌≤◌, ◌≡◌, ◌↔◌, not, some, arith, ok, is_ok, is_some}
use blind_overlap.Freshness.{
  SessionDeadline, u64_max, new_deadline, is_expired, validate, remaining, ttl,
}

-- A deadline made at `now` accepts exactly the times before `now + ttl_secs`, or before the largest
-- `u64` where the sum saturates, and none if `ttl_secs` is 0 or `now` is the largest `u64`.
validate-new_deadline :
    (now ttl_secs t : ℕ)
    → now ≤ u64_max
    → (validate t (new_deadline now ttl_secs) ≡ ok tt)
      ↔ ((0 < ttl_secs) × (now < u64_max) × (t < now + ttl_secs) × (t < u64_max))
unfolding validate new_deadline
validate-new_deadline now ttl_secs t h = ground arith

-- For a deadline whose times are in order, validity, expiry and the remaining time agree.
deadline_readings :
    (now : ℕ) (d : SessionDeadline)
    → d.issued_at < d.expires_at
    → (is_ok (validate now d) ≡ not (is_expired now d))
      × (is_some (remaining now d) ≡ not (is_expired now d))
      × ((r : ℕ) → remaining now d ≡ some r → (0 < r) × (now + r ≡ d.expires_at))
      × (d.issued_at ≤ now → (r : ℕ) → remaining now d ≡ some r → r ≤ ttl d)
unfolding validate is_expired remaining ttl
deadline_readings now d h = (ground arith, ground arith, λ r e. ground arith, λ k r e. ground arith)
