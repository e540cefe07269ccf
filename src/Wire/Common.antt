-- ===== src/Wire/Common.antt =====
-- What the four wire messages of crates/blindoverlap/src/wire.rs share: errors, tags, helpers.
use blind_overlap.Prelude.{ℕ, ◌||◌, Option, none, some, ltb, Result, ok, err, refuse}
use blind_overlap.Bytes.{Text, ascii}
use blind_overlap.Freshness.{SessionDeadline}
use blind_overlap.Identity.{IdentityError}

pub data WireError : Type 0 where
  json hex_decode missing_signature : WireError
  invalid_tag : (expected got : Text) → WireError
  unsupported_version : ℕ → WireError
  missing_freshness : Text → WireError
  identity : IdentityError → WireError
  peer_mismatch : (expected got : Text) → WireError

abbrev pub masked_set_offer_v1 : Text
masked_set_offer_v1 = ascii "BlindOverlap:MaskedSetOffer:v1"

abbrev pub masked_set_offer_v2 : Text
masked_set_offer_v2 = ascii "BlindOverlap:MaskedSetOffer:v2"

abbrev pub masked_set_reply_v1 : Text
masked_set_reply_v1 = ascii "BlindOverlap:MaskedSetReply:v1"

abbrev pub masked_set_reply_v2 : Text
masked_set_reply_v2 = ascii "BlindOverlap:MaskedSetReply:v2"

abbrev pub intersection_reveal_v1 : Text
intersection_reveal_v1 = ascii "BlindOverlap:IntersectionReveal:v1"

abbrev pub intersection_reveal_v2 : Text
intersection_reveal_v2 = ascii "BlindOverlap:IntersectionReveal:v2"

abbrev pub abort_message_v1 : Text
abort_message_v1 = ascii "BlindOverlap:AbortMessage:v1"

-- `deadline()` of each message: both times, or nothing.
unfoldable pub deadline : Option ℕ → Option ℕ → Option SessionDeadline
deadline (some issued) (some expires) = some (record { issued_at = issued; expires_at = expires })
deadline _ _ = none

abbrev pub versions_1_2 : ℕ → Result WireError Unit
versions_1_2 version = refuse (ltb version 1 || ltb 2 version) (unsupported_version version)

-- `if field.is_none() { return Err(MissingFreshness(name)) }`
abbrev pub required {ℓ} : {A : Type ℓ} → Option A → Text → Result WireError Unit
required none name = err (missing_freshness name)
required (some a) name = ok tt
