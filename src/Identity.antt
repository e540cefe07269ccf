-- ===== src/Identity.antt =====
-- crates/blindoverlap/src/identity.rs: Ed25519 identities and domain-separated signatures.
use blind_overlap.Prelude.{
  ◌≡◌, none, some, ◌++◌, length, ◌==◌, if◌then◌else◌, Result, ok, err, ◌>>=◌, arith,
}
use blind_overlap.Bytes.{Bytes, Text, ascii}
use blind_overlap.Crypto.{Crypto, SignsSoundly}
use blind_overlap.Freshness.{FromHexError}

-- The texts of foreign errors are not kept.
pub data IdentityError : Type 0 where
  invalid_keypair invalid_public_key invalid_signature verification_failed json io : IdentityError
  hex_decode : FromHexError → IdentityError

-- A newtype of `[u8; 32]`
abbrev pub PublicIdentity : Type 0
PublicIdentity = Bytes

-- `[u8; 64]`
abbrev pub Signature : Type 0
Signature = Bytes

-- The signing key is the seed that it is made from.
pub record PartyIdentity : Type 0 where
  pub seed : Bytes

abbrev identity_domain : Bytes
identity_domain = ascii "BlindOverlap:PartyIdentity:v1"

module _ ⦃c : Crypto⦄ where
  from_bytes : Bytes → Result IdentityError PublicIdentity
  from_bytes bytes = if c.ed25519_valid bytes then ok bytes else err invalid_public_key

  -- `hex::decode(s)?.try_into().map_err(..)?`
  decode_32 : IdentityError → Text → Result IdentityError Bytes
  decode_32 wrong_length s = elim (c.hex_decode s) [
    | none ↦ err (hex_decode FromHexError.invalid_hex)
    | some b ↦ if length b == 32 then ok b else err wrong_length
  ]

  -- `PublicIdentity::from_hex`
  unfoldable pub public_from_hex : Text → Result IdentityError PublicIdentity
  unfolding decode_32 from_bytes
  public_from_hex s = do bytes ← decode_32 invalid_public_key s; from_bytes bytes

  unfoldable pub from_seed_hex : Text → Result IdentityError PartyIdentity
  unfolding decode_32
  from_seed_hex s = do seed ← decode_32 invalid_keypair s; ok (record { seed = seed })

  unfoldable pub public : PartyIdentity → PublicIdentity
  public p = c.ed25519_public p.seed

  unfoldable pub sign : PartyIdentity → Bytes → Signature
  sign p message = c.ed25519_sign p.seed (identity_domain ++ message)

  unfoldable pub verify : PublicIdentity → Bytes → Signature → Result IdentityError Unit
  verify key message signature =
      if c.ed25519_valid key
      then (if c.ed25519_verify key (identity_domain ++ message) signature
          then ok tt
          else err verification_failed)
      else err invalid_public_key

  -- What a party signs verifies under its public identity.
  pub verify-sign :
      SignsSoundly c
      → (p : PartyIdentity) (message : Bytes) → verify (public p) message (sign p message) ≡ ok tt
  unfolding verify public sign
  verify-sign sound p message =
      ground (arith, sound.valid_public p.seed, sound.verifies p.seed (identity_domain ++ message))
