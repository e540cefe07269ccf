-- ===== src/Bytes/Encoding.antt =====
-- `to_le_bytes`, and what a concatenation of fields of known width determines.
use native.Mathlib.Nat.{pow-suc}
use blind_overlap.Prelude.{
  ℕ, zero, suc, ◌+◌, ◌*◌, ◌/◌, ◌%◌, ◌^◌, ◌<◌, ◌≡◌, refl, ap, sym, ◌∙◌, List, [], ◌∷◌, ◌++◌, arith,
  length,
}

-- `n.to_le_bytes()` of an integer that is `w` bytes wide.
unfoldable pub to_le_bytes : ℕ → ℕ → List ℕ
to_le_bytes zero n = []
to_le_bytes (suc w) n = (n % 256) ∷ to_le_bytes w (n / 256)

pub length-to_le_bytes : (w n : ℕ) → length (to_le_bytes w n) ≡ w
unfolding to_le_bytes
length-to_le_bytes zero n = refl
length-to_le_bytes (suc w) n = ap suc (length-to_le_bytes w (n / 256))

-- The number that little-endian bytes stand for.
from_le_bytes : List ℕ → ℕ
from_le_bytes [] = 0
from_le_bytes (b ∷ bs) = b + 256 * from_le_bytes bs

from_le_bytes-to_le_bytes : (w n : ℕ) → n < 256 ^ w → from_le_bytes (to_le_bytes w n) ≡ n
unfolding from_le_bytes to_le_bytes
from_le_bytes-to_le_bytes zero n h = omega arith
from_le_bytes-to_le_bytes (suc w) n h =
    omega (arith, from_le_bytes-to_le_bytes w (n / 256) (quotient_bound w n h))
  where
    quotient_bound : (w n : ℕ) → n < 256 ^ suc w → n / 256 < 256 ^ w
    quotient_bound w n h = omega (arith, pow-suc 256 w)

-- Numbers that fit the width have different bytes.
pub to_le_bytes-injective :
    (w m n : ℕ) → m < 256 ^ w → n < 256 ^ w → to_le_bytes w m ≡ to_le_bytes w n → m ≡ n
to_le_bytes-injective w m n hm hn e =
    sym (from_le_bytes-to_le_bytes w m hm) ∙ ap from_le_bytes e ∙ from_le_bytes-to_le_bytes w n hn

pub append-cancel {ℓ} :
    {A : Type ℓ} (xs ys us vs : List A)
    → length xs ≡ length ys
    → xs ++ us ≡ ys ++ vs
    → (xs ≡ ys) × (us ≡ vs)
append-cancel [] [] us vs l e = (refl, e)
append-cancel [] (y ∷ ys) us vs l e = absurd (omega arith)
append-cancel (x ∷ xs) [] us vs l e = absurd (omega arith)
append-cancel (x ∷ xs) (y ∷ ys) us vs l e = ground (arith, append-cancel xs ys us vs)

-- No byte of the string is 0.
abbrev pub NoNul : List ℕ → Type 0
NoNul [] = Unit
NoNul (b ∷ bs) = (0 < b) × NoNul bs

-- A zero byte ends a field that holds none.
pub nul_split :
    (xs ys us vs : List ℕ)
    → NoNul xs
    → NoNul ys
    → xs ++ (0 ∷ us) ≡ ys ++ (0 ∷ vs)
    → (xs ≡ ys) × (us ≡ vs)
nul_split [] [] us vs p q e = ground arith
nul_split [] (y ∷ ys) us vs p q e = ground arith
nul_split (x ∷ xs) [] us vs p q e = ground arith
nul_split (x ∷ xs) (y ∷ ys) us vs p q e = ground (arith, nul_split xs ys us vs p.1 q.1)
