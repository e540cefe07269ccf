-- ===== src/Crypto.antt =====
-- The third-party crates that the library calls (sha2, hmac, x25519-dalek, ed25519-dalek, hex), as
-- an interface. No law is assumed here: a theorem that needs one takes it as a hypothesis.
use blind_overlap.Prelude.{◌≡◌, ◌<◌, ◌≤◌, Bool, true, Option, some, length, All}
use blind_overlap.Bytes.{Bytes, Text}

pub record Crypto : Type 0 where
  -- `Sha256::new().update(..).finalize()` of the concatenated updates
  pub sha256 : Bytes → Bytes
  -- `Hmac<Sha256>` under a key
  pub hmac_sha256 : Bytes → Bytes → Bytes
  -- `PublicKey::from(&StaticSecret::from(bytes))`
  pub x25519_public : Bytes → Bytes
  -- `secret.diffie_hellman(&point).to_bytes()`
  pub diffie_hellman : Bytes → Bytes → Bytes
  -- `SigningKey::from_bytes(seed).verifying_key().to_bytes()`
  pub ed25519_public : Bytes → Bytes
  -- `VerifyingKey::from_bytes(bytes).is_ok()`
  pub ed25519_valid : Bytes → Bool
  -- `signing_key.sign(message).to_bytes()`
  pub ed25519_sign : Bytes → Bytes → Bytes
  -- `verifying_key.verify(message, signature).is_ok()`
  pub ed25519_verify : Bytes → Bytes → Bytes → Bool
  pub hex_encode : Bytes → Text
  pub hex_decode : Text → Option Bytes

-- Not empty, and each byte from "0" to "f".
abbrev pub IsHexText : Text → Type 0
IsHexText s = (0 < length s) × All (λ d. (48 ≤ d) × (d ≤ 102)) s

module _ (c : Crypto) where
  -- X25519: the order in which two secrets are applied to a base point does not matter.
  abbrev pub Commutes : Type 0
  Commutes =
      (s t id : Bytes)
      → c.diffie_hellman s (c.diffie_hellman t (c.x25519_public id))
        ≡ c.diffie_hellman t (c.diffie_hellman s (c.x25519_public id))

  -- Ed25519: the key of a seed is a valid key, and accepts what the seed signs.
  pub record SignsSoundly : Type 0 where
    pub valid_public : (seed : Bytes) → c.ed25519_valid (c.ed25519_public seed) ≡ true
    pub verifies :
        (seed message : Bytes)
        → c.ed25519_verify (c.ed25519_public seed) message (c.ed25519_sign seed message) ≡ true

  -- hex: decoding inverts encoding.
  abbrev pub HexRoundTrips : Type 0
  HexRoundTrips = (b : Bytes) → c.hex_decode (c.hex_encode b) ≡ some b

  -- hex: what is printed of 32 bytes is not empty, and of digits and letters up to "f".
  abbrev pub PrintsDigits : Type 0
  PrintsDigits = (b : Bytes) → length b ≡ 32 → IsHexText (c.hex_encode b)

  -- SHA-256: a digest has 32 bytes.
  abbrev pub HashesTo32 : Type 0
  HashesTo32 = (b : Bytes) → length (c.sha256 b) ≡ 32
