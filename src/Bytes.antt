-- ===== src/Bytes.antt =====
-- Byte strings: `Vec<u8>`, `[u8; 32]` and `[u8; 64]`, and the UTF-8 bytes of a `String`. A byte is a
-- number, and a fixed length is a hypothesis where a statement needs it.
pub mod Encoding
pub mod Spaces
use Prim.Native.Char.{code}
use Prim.Native.String
use blind_overlap.Prelude.{
  ℕ, zero, suc, ◌≡◌, ◌≢◌, refl, ap, ◌↔◌, Bool, true, false, ◌&&◌, List, [], ◌∷◌, ◌++◌, arith,
  String, ◌==◌, ltb, if◌then◌else◌,
}
use blind_overlap.Order.{Order}

abbrev pub Bytes : Type 0
Bytes = List ℕ

-- A Rust `String` is its UTF-8 bytes.
abbrev pub Text : Type 0
Text = Bytes

-- The bytes of an ASCII literal, `b"…"` or `"…"`.
unfoldable pub ascii : String → Bytes
ascii String.[] = []
ascii (String.◌∷◌ c s) = code c ∷ ascii s

-- `==` on byte strings.
unfoldable pub eqb : Bytes → Bytes → Bool
eqb [] [] = true
eqb [] (b ∷ bs) = false
eqb (a ∷ as') [] = false
eqb (a ∷ as') (b ∷ bs) = a == b && eqb as' bs

pub eqb_refl : (a : Bytes) → eqb a a ≡ true
unfolding eqb
eqb_refl [] = refl
eqb_refl (a ∷ as') = ground (arith, eqb_refl as')

eq_of_eqb : (a b : Bytes) → eqb a b ≡ true → a ≡ b
unfolding eqb
eq_of_eqb [] [] h = refl
eq_of_eqb [] (b ∷ bs) h = cc
eq_of_eqb (a ∷ as') [] h = cc
eq_of_eqb (a ∷ as') (b ∷ bs) h = ground (arith, eq_of_eqb as' bs)

pub eqb_iff : (a b : Bytes) → (eqb a b ≡ true) ↔ (a ≡ b)
eqb_iff a b = (eq_of_eqb a b, λ e. ground (arith, e, eqb_refl a))

pub eqb_of_ne : (a b : Bytes) → a ≢ b → eqb a b ≡ false
eqb_of_ne a b h = ground (arith, eq_of_eqb a b)

-- The derived `Ord` of arrays and vectors: lexicographic, a prefix first.
unfoldable pub lex : Bytes → Bytes → Bool
lex [] [] = false
lex [] (b ∷ bs) = true
lex (a ∷ as') [] = false
lex (a ∷ as') (b ∷ bs) = let rest = lex as' bs in if ltb a b then true else a == b && rest

pub lex_irrefl : (a : Bytes) → lex a a ≡ false
unfolding lex
lex_irrefl [] = refl
lex_irrefl (a ∷ as') = ground (arith, lex_irrefl as')

pub lex_trans : (a b c : Bytes) → lex a b ≡ true → lex b c ≡ true → lex a c ≡ true
unfolding lex
lex_trans [] [] c p q = cc
lex_trans [] (b ∷ bs) [] p q = cc
lex_trans [] (b ∷ bs) (c ∷ cs) p q = refl
lex_trans (a ∷ as') [] c p q = cc
lex_trans (a ∷ as') (b ∷ bs) [] p q = cc
lex_trans (a ∷ as') (b ∷ bs) (c ∷ cs) p q = ground (arith, lex_trans as' bs cs)

pub lex-connected : (a b : Bytes) → lex a b ≡ false → lex b a ≡ false → a ≡ b
unfolding lex
lex-connected [] [] p q = refl
lex-connected [] (b ∷ bs) p q = cc
lex-connected (a ∷ as') [] p q = cc
lex-connected (a ∷ as') (b ∷ bs) p q = ground (arith, lex-connected as' bs)

instance abbrev pub bytes_order : Order Bytes
bytes_order = record {
  before = lex;
  irrefl = lex_irrefl;
  trans = lex_trans;
  connected = lex-connected;
}
