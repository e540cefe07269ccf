-- ===== src/Tests/Commands.antt =====
-- Instances of the interfaces for the commands: hex text that is made of digits, and two files.
use blind_overlap.Prelude.{
  ℕ, zero, suc, ◌+◌, ◌≡◌, ◌⊎◌, refl, ap, sym, ◌∙◌, inl, inr, Bool-cases, true, Option, none, some,
  [], ◌∷◌, ◌++◌, arith, All, ◌==◌, if◌then◌else◌, ok, ◌≤◌,
}
use blind_overlap.Bytes.{Bytes, Text, ascii, eqb, eqb_refl, bytes_order}
use blind_overlap.Order.{same, eq_of_same}
use blind_overlap.Crypto.{
  Crypto, Commutes, SignsSoundly, HexRoundTrips, PrintsDigits, HashesTo32, IsHexText,
}
use blind_overlap.OrdSet
use blind_overlap.FactSet.{FactSet, from_ids}
use blind_overlap.Protocol.{mask}
use blind_overlap.Protocol.Exactness.{TellsApart}
use blind_overlap.Cli.Common.{Files, StoredIdentity, Serde}
use blind_overlap.Cli.Lines.{unlines}
use blind_overlap.Cli.FactFile.{load_fact_set}

abbrev zeros_31 : Bytes
zeros_31 =
    0 ∷ 0 ∷ 0 ∷ 0 ∷ 0 ∷ 0 ∷ 0 ∷ 0 ∷ 0 ∷ 0 ∷ 0 ∷ 0 ∷ 0 ∷ 0 ∷ 0 ∷ 0 ∷ 0 ∷ 0 ∷ 0 ∷ 0 ∷ 0 ∷ 0 ∷ 0 ∷ 0
    ∷ 0 ∷ 0 ∷ 0 ∷ 0 ∷ 0 ∷ 0 ∷ 0 ∷ []

abbrev pub total : Bytes → ℕ
total [] = 0
total (a ∷ l) = a + total l

-- A number in unary, in front of more text.
abbrev unary : ℕ → Text → Text
unary zero s = s
unary (suc n) s = 97 ∷ unary n s

abbrev pub encode : Bytes → Text
encode [] = []
encode (n ∷ b) = unary n (98 ∷ encode b)

abbrev add_byte : ℕ → Option Bytes → Option Bytes
add_byte n none = none
add_byte n (some b) = some (n ∷ b)

abbrev decode_from : ℕ → Text → Option Bytes
decode_from zero [] = some []
decode_from (suc n) [] = none
decode_from n (d ∷ s) =
    let more = decode_from (suc n) s in
    let rest = add_byte n (decode_from zero s) in if d == 97 then more else rest

-- A digest has the sum of the bytes and 31 zeros, a shared secret is a sum, and a signature names its
-- key and its message.
instance abbrev pub unary_crypto : Crypto
unary_crypto = record {
  sha256 = λ b. total b ∷ zeros_31;
  hmac_sha256 = λ k b. k ++ b;
  x25519_public = λ id. id;
  diffie_hellman = λ s p. (total s + total p) ∷ [];
  ed25519_public = λ seed. seed;
  ed25519_valid = λ key. true;
  ed25519_sign = λ seed message. seed ++ message;
  ed25519_verify = λ key message signature. eqb signature (key ++ message);
  hex_encode = encode;
  hex_decode = decode_from 0;
}

pub unary-Commutes : Commutes unary_crypto
unary-Commutes s t id =
    let e : total s + (total t + total id + 0) ≡ total t + (total s + total id + 0) = omega arith in
    ap (λ n. n ∷ []) e

pub unary-SignsSoundly : SignsSoundly unary_crypto
unary-SignsSoundly = record {
  valid_public = λ seed. refl;
  verifies = λ seed message. eqb_refl (seed ++ message);
}

pub unary-HashesTo32 : HashesTo32 unary_crypto
unary-HashesTo32 b = refl

decode-unary :
    (k n : ℕ) (s : Text) → decode_from k (unary n (98 ∷ s)) ≡ add_byte (n + k) (decode_from 0 s)
decode-unary k zero s = ap (λ m. add_byte m (decode_from 0 s)) (omega arith)
decode-unary k (suc n) s =
    decode-unary (suc k) n s ∙ ap (λ m. add_byte m (decode_from 0 s)) (omega arith)

pub unary-HexRoundTrips : HexRoundTrips unary_crypto
unary-HexRoundTrips [] = refl
unary-HexRoundTrips (n ∷ b) =
    decode-unary 0 n (encode b)
    ∙ ap (add_byte (n + 0)) (unary-HexRoundTrips b)
    ∙ ap (λ m. some (m ∷ b)) (omega arith)

unary-IsHexText :
    (n : ℕ) (s : Text) → All (λ d. (48 ≤ d) × (d ≤ 102)) s → IsHexText (unary n (98 ∷ s))
unary-IsHexText zero s h = (omega arith, ((omega arith, omega arith), h))
unary-IsHexText (suc n) s h = (omega arith, ((omega arith, omega arith), (unary-IsHexText n s h).1))

encode_digits : (b : Bytes) → All (λ d. (48 ≤ d) × (d ≤ 102)) (encode b)
encode_digits [] = tt
encode_digits (n ∷ b) = (unary-IsHexText n (encode b) (encode_digits b)).1

pub unary-PrintsDigits : PrintsDigits unary_crypto
unary-PrintsDigits [] h = absurd (omega arith)
unary-PrintsDigits (n ∷ b) h = unary-IsHexText n (encode b) (encode_digits b)

-- Identifiers of 32 bytes.
abbrev pub id_of : ℕ → Bytes
id_of n = n ∷ zeros_31

pub total_id : (n : ℕ) → total (id_of n) ≡ n
total_id n = omega arith

pub one_of_two :
    (x : Bytes) (a b : ℕ)
    → OrdSet.contains x (id_of a ∷ id_of b ∷ []) ≡ true
    → (x ≡ id_of a) ⊎ (x ≡ id_of b)
unfolding OrdSet.contains
one_of_two x a b h = elim (Bool-cases (same bytes_order x (id_of a))) [
  | inl p ↦ inl (eq_of_same bytes_order x (id_of a) p)
  | inr p ↦ inr (eq_of_same bytes_order x (id_of b) (ground (arith, h, p)))
]

two_ids :
    (x : Bytes) (a b : ℕ)
    → OrdSet.contains x (id_of a ∷ id_of b ∷ []) ≡ true
    → (m : ℕ) × (x ≡ id_of m)
two_ids x a b h = elim (one_of_two x a b h) [ inl e ↦ (a, e) | inr e ↦ (b, e) ]

pub ids-TellsApart :
    (s t : Bytes) (a b d e : ℕ) → TellsApart s t (id_of a ∷ id_of b ∷ []) (id_of d ∷ id_of e ∷ [])
unfolding mask
ids-TellsApart s t a b d e x y p q h =
    let (m, x_is) = two_ids x a b p in
    let (n, y_is) = two_ids y d e q in
    let sums : total s + (total t + total x + 0) ≡ total s + (total t + total y + 0) =
      ap total_of h in
    let x_total : total x ≡ m = ap total x_is ∙ total_id m in
    let y_total : total y ≡ n = ap total y_is ∙ total_id n in
    let same_byte : m ≡ n = omega arith in x_is ∙ ap id_of same_byte ∙ sym y_is
  where
    total_of : Bytes → ℕ
    total_of [] = 0
    total_of (z ∷ l) = z

-- Two files with one identifier in common.
abbrev pub files : Files
files p =
    if eqb p (ascii "a.txt")
    then some (unlines (encode (id_of 1) ∷ encode (id_of 2) ∷ []))
    else if eqb p (ascii "b.txt")
    then some (unlines (encode (id_of 2) ∷ encode (id_of 3) ∷ []))
    else none

abbrev pub set_a : FactSet
set_a = from_ids (id_of 1 ∷ id_of 2 ∷ [])

abbrev pub set_b : FactSet
set_b = from_ids (id_of 2 ∷ id_of 3 ∷ [])

pub loads_a : load_fact_set files (ascii "a.txt") ≡ ok set_a
unfolding load_fact_set blind_overlap.Cli.FactFile.load_fact_ids
    blind_overlap.Cli.Common.read_to_string eqb ascii
    blind_overlap.Cli.FactFile.load_fact_ids_from_reader blind_overlap.Cli.Lines.lines unlines
    blind_overlap.Cli.Lines.trim blind_overlap.Cli.FactFile.load_line
    blind_overlap.Cli.Common.decode_arg
loads_a = refl

pub loads_b : load_fact_set files (ascii "b.txt") ≡ ok set_b
unfolding load_fact_set blind_overlap.Cli.FactFile.load_fact_ids
    blind_overlap.Cli.Common.read_to_string eqb ascii
    blind_overlap.Cli.FactFile.load_fact_ids_from_reader blind_overlap.Cli.Lines.lines unlines
    blind_overlap.Cli.Lines.trim blind_overlap.Cli.FactFile.load_line
    blind_overlap.Cli.Common.decode_arg
loads_b = refl
