-- ===== src/Lease/Verification.antt =====
-- Exactly which leases pass the full verification, that issued and renewed ones do, and what a chain
-- of renewals keeps.
use blind_overlap.Prelude.{
  ℕ, ◌+◌, ◌%◌, ◌^◌, ◌≤◌, ◌<◌, ◌≡◌, ◌≢◌, ◌↔◌, refl, ap, ◌∙◌, some, List, [], ◌∷◌, arith, length,
  Result, ok, err, ◌>>=◌,
}
use blind_overlap.Bytes.{Text, eqb_iff, eqb_of_ne}
use blind_overlap.Crypto.{Crypto, SignsSoundly}
use blind_overlap.Freshness.{wrapping_add}
use blind_overlap.Identity
use blind_overlap.Identity.{PublicIdentity, PartyIdentity, verify-sign}
use blind_overlap.Lease.{
  SessionLease, LeaseError, issuer_mismatch, payload_of, issue, lease_id, renewed, renew,
  verify_full,
}

-- The reading lies in the validity window of the lease, its ends included.
abbrev pub InWindow : SessionLease → ℕ → Type 0
InWindow l t = (l.issued_at ≤ t) × (t ≤ l.expires_at)

module _ ⦃c : Crypto⦄ where
  -- Full verification at three clock readings succeeds exactly if the issuer's key verifies the
  -- signature over the lease's fields, every reading lies in the validity window, and issuer, peer
  -- and session are those of the lease.
  verify_full_iff_lease :
      (t t' t'' : ℕ) (l : SessionLease) (issuer peer : PublicIdentity) (session_id : Text)
      → (verify_full t t' t'' l issuer peer session_id ≡ ok tt) ↔ (
          (Identity.verify l.issuer_pubkey (payload_of l) l.signature ≡ ok tt)
          × InWindow l t
          × InWindow l t'
          × InWindow l t''
          × (l.issuer_pubkey ≡ issuer)
          × (l.peer_pubkey ≡ peer)
          × (l.session_id ≡ session_id))
  unfolding verify_full
  verify_full_iff_lease t t' t'' l issuer peer session_id = (
    λ h. (
      ground arith,
      (ground arith, ground arith),
      (ground arith, ground arith),
      (ground arith, ground arith),
      ground (arith, eqb_iff l.issuer_pubkey issuer),
      ground (arith, eqb_iff l.peer_pubkey peer),
      ground (arith, eqb_iff l.session_id session_id),
    ),
    λ h. ground (
      arith,
      h.0,
      h.1,
      h.2,
      h.3,
      h.4,
      h.5,
      h.6,
      eqb_iff l.issuer_pubkey issuer,
      eqb_iff l.peer_pubkey peer,
      eqb_iff l.session_id session_id,
    ),
  )

  -- A lease whose signature is its issuer's own is verified in its window.
  pub IsAuthentic : SessionLease → Type 0
  IsAuthentic l = Identity.verify l.issuer_pubkey (payload_of l) l.signature ≡ ok tt

  pub issue-IsAuthentic :
      SignsSoundly c
      → (now ttl_secs : ℕ) (issuer : PartyIdentity) (session_id : Text) (peer : PublicIdentity)
      → IsAuthentic (issue now issuer session_id peer ttl_secs)
  unfolding IsAuthentic issue payload_of
  issue-IsAuthentic sound now ttl_secs issuer session_id peer = verify-sign sound issuer _

  -- What a renewal at `now` for `ttl_secs` makes of a lease.
  pub record Renewal (now ttl_secs : ℕ) (l k : SessionLease) : Type 0 where
    pub same_session : k.session_id ≡ l.session_id
    pub same_issuer : k.issuer_pubkey ≡ l.issuer_pubkey
    pub same_peer : k.peer_pubkey ≡ l.peer_pubkey
    pub issued : k.issued_at ≡ now
    pub expires : k.expires_at ≡ wrapping_add now ttl_secs
    pub counted : k.renew_count ≡ (l.renew_count + 1) % 2 ^ 32
    pub linked : k.parent_lease_id ≡ some (lease_id l)
    pub authentic : IsAuthentic k

  renewed-Renewal :
      SignsSoundly c
      → (now ttl_secs : ℕ) (l : SessionLease) (issuer : PartyIdentity)
      → l.issuer_pubkey ≡ Identity.public issuer
      → Renewal now ttl_secs l (renewed now l issuer ttl_secs)
  unfolding renewed IsAuthentic payload_of
  renewed-Renewal sound now ttl_secs l issuer own = record {
    same_session = refl;
    same_issuer = refl;
    same_peer = refl;
    issued = refl;
    expires = refl;
    counted = refl;
    linked = refl;
    authentic =
        let k = renewed now l issuer ttl_secs in
        ap (λ key. Identity.verify key (payload_of k) k.signature) own
        ∙ verify-sign sound issuer (payload_of k);
  }

  -- The issuer of a lease can always renew it, and everybody else is refused. The renewal keeps
  -- session, issuer and peer, starts now, counts one more, names the old lease as its parent, and
  -- carries a signature that verifies.
  renew_cases :
      SignsSoundly c
      → (now ttl_secs : ℕ) (l : SessionLease) (issuer : PartyIdentity)
      → (l.issuer_pubkey ≡ Identity.public issuer
          → (k : SessionLease) × (renew now l issuer ttl_secs ≡ ok k) × Renewal now ttl_secs l k)
        × (l.issuer_pubkey ≢ Identity.public issuer
            → renew now l issuer ttl_secs
              ≡ err (
                  issuer_mismatch
                    (c.hex_encode l.issuer_pubkey)
                    (c.hex_encode (Identity.public issuer))))
  unfolding renew
  renew_cases sound now ttl_secs l issuer = (
    λ own. (
      renewed now l issuer ttl_secs,
      ground (arith, eqb_iff l.issuer_pubkey (Identity.public issuer)),
      renewed-Renewal sound now ttl_secs l issuer own,
    ),
    λ other. ground (arith, eqb_of_ne l.issuer_pubkey (Identity.public issuer) other),
  )

  -- Renewals in a row, each at a time and for a time to live.
  pub renew_all : List (ℕ × ℕ) → PartyIdentity → SessionLease → Result LeaseError SessionLease
  renew_all [] issuer l = ok l
  renew_all ((now, ttl_secs) ∷ rest) issuer l = do
    k ← renew now l issuer ttl_secs
    renew_all rest issuer k

  -- What a chain of `n` renewals makes of a lease.
  pub record Chain (n : ℕ) (l k : SessionLease) : Type 0 where
    pub same_session : k.session_id ≡ l.session_id
    pub same_issuer : k.issuer_pubkey ≡ l.issuer_pubkey
    pub same_peer : k.peer_pubkey ≡ l.peer_pubkey
    pub counted : k.renew_count ≡ (l.renew_count + n) % 2 ^ 32
    pub authentic : IsAuthentic k

  -- From an authentic lease its issuer can renew any number of times in a row: each renewal
  -- succeeds, the last lease is authentic and grants the same session to the same peer, and its
  -- count has grown by the number of renewals, modulo 2 ^ 32. Provided that Ed25519 accepts its own
  -- signatures.
  pub renew-Chain :
      SignsSoundly c
      → (steps : List (ℕ × ℕ)) (l : SessionLease) (issuer : PartyIdentity)
      → l.issuer_pubkey ≡ Identity.public issuer
      → l.renew_count < 2 ^ 32
      → IsAuthentic l
      → (k : SessionLease) × (renew_all steps issuer l ≡ ok k) × Chain (length steps) l k
  unfolding renew_all
  renew-Chain sound [] l issuer own small valid = (
    l,
    refl,
    record {
      same_session = refl;
      same_issuer = refl;
      same_peer = refl;
      counted = omega arith;
      authentic = valid;
    },
  )
  renew-Chain sound ((now, ttl_secs) ∷ rest) l issuer own small valid =
      let (k, done, r) = (renew_cases sound now ttl_secs l issuer).0 own in
      let (m, all_done, chain) =
        renew-Chain sound rest k issuer (r.same_issuer ∙ own) (omega (arith, r.counted))
          r.authentic in
      (
        m,
        ground (arith, done, all_done),
        record {
          same_session = chain.same_session ∙ r.same_session;
          same_issuer = chain.same_issuer ∙ r.same_issuer;
          same_peer = chain.same_peer ∙ r.same_peer;
          counted = omega (arith, chain.counted, r.counted);
          authentic = chain.authentic;
        },
      )
