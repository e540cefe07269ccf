-- ===== src/Tests/Common.antt =====
-- Small instances of the interfaces: third-party crates that are easy to compute.
use blind_overlap.Prelude.{
  ℕ, ◌+◌, ◌≡◌, inl, inr, Bool-cases, refl, ap, sym, ◌∙◌, true, none, some, [], ◌∷◌, ◌++◌, arith,
}
use blind_overlap.Bytes.{Bytes, eqb, eqb_refl, bytes_order}
use blind_overlap.Order.{same, eq_of_same}
use blind_overlap.Crypto.{Crypto, Commutes, SignsSoundly, HexRoundTrips}
use blind_overlap.OrdSet
use blind_overlap.Protocol.{mask}
use blind_overlap.Protocol.Exactness.{TellsApart}
use blind_overlap.Wire.Message.{WireCodec, session_id}

abbrev pub total : Bytes → ℕ
total [] = 0
total (a ∷ l) = a + total l

-- Hashes and encodings are the identity, a shared secret is a sum, and a signature names its key
-- and its message.
instance abbrev pub toy_crypto : Crypto
toy_crypto = record {
  sha256 = λ b. b;
  hmac_sha256 = λ k b. k ++ b;
  x25519_public = λ id. id;
  diffie_hellman = λ s p. (total s + total p) ∷ [];
  ed25519_public = λ seed. seed;
  ed25519_valid = λ key. true;
  ed25519_sign = λ seed message. seed ++ message;
  ed25519_verify = λ key message signature. eqb signature (key ++ message);
  hex_encode = λ b. b;
  hex_decode = λ t. some t;
}

pub toy-Commutes : Commutes toy_crypto
toy-Commutes s t id =
    let e : total s + (total t + total id + 0) ≡ total t + (total s + total id + 0) = omega arith in
    ap (λ n. n ∷ []) e

pub toy-SignsSoundly : SignsSoundly toy_crypto
toy-SignsSoundly = record {
  valid_public = λ seed. refl;
  verifies = λ seed message. eqb_refl (seed ++ message);
}

pub toy-HexRoundTrips : HexRoundTrips toy_crypto
toy-HexRoundTrips b = refl

-- Identifiers of one byte.
abbrev pub id_of : ℕ → Bytes
id_of n = n ∷ []

one_byte :
    (x : Bytes) (a b : ℕ)
    → OrdSet.contains x (id_of a ∷ id_of b ∷ []) ≡ true
    → (m : ℕ) × (x ≡ id_of m)
unfolding OrdSet.contains
one_byte x a b h = elim (Bool-cases (same bytes_order x (id_of a))) [
  | inl p ↦ (a, eq_of_same bytes_order x (id_of a) p)
  | inr p ↦ (b, eq_of_same bytes_order x (id_of b) (ground (arith, h, p)))
]

pub pairs-TellsApart :
    (s t : Bytes) (a b d e : ℕ) → TellsApart s t (id_of a ∷ id_of b ∷ []) (id_of d ∷ id_of e ∷ [])
unfolding mask
pairs-TellsApart s t a b d e x y p q h =
    let (m, x_is) = one_byte x a b p in
    let (n, y_is) = one_byte y d e q in
    let sums : total s + (total t + total x + 0) ≡ total s + (total t + total y + 0) =
      ap total_of h in
    let x_total : total x ≡ m + 0 = ap total x_is in
    let y_total : total y ≡ n + 0 = ap total y_is in
    let same_byte : m ≡ n = omega arith in x_is ∙ ap id_of same_byte ∙ sym y_is
  where
    total_of : Bytes → ℕ
    total_of [] = 0
    total_of (z ∷ l) = z

-- A codec that writes the session identifier and reads every text as an empty abort message.
instance abbrev pub toy_codec : WireCodec
toy_codec = record {
  to_string = session_id;
  from_str = λ t. none;
  signed_to_string = λ s. session_id s.message;
  signed_from_str = λ t. none;
}
