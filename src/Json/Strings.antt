-- ===== src/Json/Strings.antt =====
-- The canonical text of a string tells the string, and where it ends.
use blind_overlap.Prelude.{
  ℕ, ◌+◌, ◌-◌, ◌*◌, ◌/◌, ◌%◌, ◌<◌, ◌≡◌, refl, ap, sym, ◌∙◌, true, false, Option, none, some,
  append_assoc, [], ◌∷◌, ◌++◌, arith, ltb, ◌==◌, if◌then◌else◌, Bool-cases, inl, inr,
}
use blind_overlap.Bytes.{Text}
use blind_overlap.Json.{hex_digit, escape, escaped, canonical_string}

-- The value of a hexadecimal digit.
unhex : ℕ → ℕ
unhex d = if ltb d 58 then d - 48 else d - 87

-- The character of an escape that one letter names.
unescape : ℕ → ℕ
unescape d =
    if d == 98
    then 8
    else if d == 102
    then 12
    else if d == 110
    then 10
    else if d == 114
    then 13
    else if d == 116
    then 9
    else d

-- The characters up to the quote, and what follows it; `state` tells how far an escape is read.
data Escape : Type 0 where
  plain backslash u u0 u00 : Escape
  digit : ℕ → Escape

push : ℕ → Option (Text × Text) → Option (Text × Text)
push b none = none
push b (some (s, rest)) = some (b ∷ s, rest)

read_string : Escape → Text → Option (Text × Text)
unfolding push unescape unhex
read_string state [] = none
read_string plain (d ∷ t) = elim (d == 34) [
  | true ↦ some ([], t)
  | false ↦ elim (d == 92) [ true ↦ read_string backslash t | false ↦ push d (read_string plain t) ]
]
read_string backslash (d ∷ t) = elim (d == 117) [
  | true ↦ read_string u t
  | false ↦ push (unescape d) (read_string plain t)
]
read_string u (d ∷ t) = read_string u0 t
read_string u0 (d ∷ t) = read_string u00 t
read_string u00 (d ∷ t) = read_string (digit (unhex d)) t
read_string (digit h) (d ∷ t) = push (16 * h + unhex d) (read_string plain t)

unhex-hex_digit : (n : ℕ) → n < 16 → unhex (hex_digit n) ≡ n
unfolding unhex hex_digit
unhex-hex_digit n h = ground arith

read-escape : (b : ℕ) (t : Text) → read_string plain (escape b ++ t) ≡ push b (read_string plain t)
unfolding escape read_string
read-escape b t = elim (Bool-cases (ltb b 32)) [
  | inl low ↦
      let high_digit = unhex-hex_digit (b / 16) (ground (arith, low)) in
      let low_digit = unhex-hex_digit (b % 16) (omega arith) in
      let whole : 16 * (b / 16) + b % 16 ≡ b = omega arith in
      ground (arith, low, high_digit, low_digit, whole)
  | inr high ↦ ground (arith, high)
]

read-escaped : (s t : Text) → read_string plain (escaped s ++ t) ≡ some (s, t)
unfolding escaped read_string push
read-escaped [] t = refl
read-escaped (b ∷ s) t =
    ap (read_string plain) (append_assoc (escape b) (escaped s) t)
    ∙ read-escape b (escaped s ++ t)
    ∙ ap (push b) (read-escaped s t)

-- Where two texts begin with the canonical forms of two strings, the strings are the same and so is
-- what follows them.
pub canonical_string-injective :
    (s s' t t' : Text) → canonical_string s ++ t ≡ canonical_string s' ++ t' → (s ≡ s') × (t ≡ t')
unfolding canonical_string
canonical_string-injective s s' t t' e =
    let read : some (s, t) ≡ some (s', t') =
      sym (read-escaped s t) ∙ ap (read_rest) e ∙ read-escaped s' t' in
    (cc read, cc read)
  where
    read_rest : Text → Option (Text × Text)
    read_rest [] = none
    read_rest (q ∷ rest) = read_string plain rest
