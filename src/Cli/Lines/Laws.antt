-- ===== src/Cli/Lines/Laws.antt =====
-- Lines that are written are read again, and trimming keeps a line between visible characters.
use blind_overlap.Prelude.{
  ℕ, zero, suc, ◌+◌, ◌*◌, ◌/◌, ◌%◌, ◌≤◌, ◌<◌, ◌≡◌, refl, ap, ap₂, ◌∙◌, List, [], ◌∷◌, ◌++◌, arith,
  append-nil, length, All, ltb, ◌^◌, some, Bool-cases, inl, inr,
}
use native.Mathlib.Nat.{pow-suc}
use blind_overlap.Bytes.{Text}
use blind_overlap.Cli.Lines.{
  newline, space_width, space_width_back, skip_spaces, reverse, trim, drop_return, lines_from,
  lines, unlines, digits, decimal, parse_digits, parse_usize,
}

-- No control character that ends a line.
abbrev pub IsLine : Text → Type 0
IsLine = All (λ b. 14 ≤ b)

-- Visible one-byte characters.
abbrev pub IsVisible : Text → Type 0
IsVisible = All (λ b. (33 ≤ b) × (b ≤ 127))

drop_return_of_line : (l : Text) → IsLine l → drop_return l ≡ l
unfolding drop_return
drop_return_of_line [] h = refl
drop_return_of_line (a ∷ []) h = ground arith
drop_return_of_line (a ∷ b ∷ s) h = ap (◌∷◌ a) (drop_return_of_line (b ∷ s) h.1)

reverse_twice : (s done more : Text) → reverse (reverse s done) more ≡ reverse done (s ++ more)
unfolding reverse
reverse_twice [] done more = refl
reverse_twice (a ∷ s) done more = reverse_twice s (a ∷ done) more

lines_from-line :
    (before l s : Text)
    → IsLine l
    → lines_from before (l ++ (newline ∷ s))
      ≡ drop_return (reverse (reverse l before) []) ∷ lines_from [] s
unfolding lines_from reverse
lines_from-line before [] s h = refl
lines_from-line before (a ∷ l) s h = ground (arith, lines_from-line (a ∷ before) l s h.1)

reverse-reverse : (s : Text) → reverse (reverse s []) [] ≡ s
unfolding reverse
reverse-reverse s = reverse_twice s [] [] ∙ append-nil s

pub lines-unlines : (ls : List Text) → All IsLine ls → lines (unlines ls) ≡ ls
unfolding lines unlines
lines-unlines [] h = refl
lines-unlines (l ∷ ls) h =
    lines_from-line [] l (unlines ls) h.0
    ∙ ap₂ ◌∷◌ (ap drop_return (reverse-reverse l) ∙ drop_return_of_line l h.0)
        (lines-unlines ls h.1)

-- Nothing is trimmed where neither end is white.
trim_of_ends : (s : Text) → space_width s ≡ 0 → space_width_back (reverse s []) ≡ 0 → trim s ≡ s
unfolding trim skip_spaces reverse
trim_of_ends s front back =
    ap (λ t. reverse (skip_spaces space_width_back 0 (reverse t [])) [])
      (skip_none space_width s front)
    ∙ ap (λ t. reverse t []) (skip_none space_width_back (reverse s []) back)
    ∙ reverse-reverse s
  where
    skip_none : (width : Text → ℕ) (t : Text) → width t ≡ 0 → skip_spaces width 0 t ≡ t
    skip_none width [] h = refl
    skip_none width (a ∷ t) h = ground (arith, h)

visible_front : (a : ℕ) (s : Text) → 33 ≤ a → a ≤ 127 → space_width (a ∷ s) ≡ 0
unfolding space_width
visible_front a [] lo hi = ground arith
visible_front a (b ∷ []) lo hi = ground arith
visible_front a (b ∷ d ∷ s) lo hi = ground arith

-- The last byte decides, and a visible one is below every last byte of a wide space or no space.
visible_back :
    (a : ℕ) (s done : Text) → IsVisible (a ∷ s) → space_width_back (reverse (a ∷ s) done) ≡ 0
unfolding reverse space_width_back
visible_back a [] [] h = ground arith
visible_back a [] (b ∷ []) h = ground arith
visible_back a [] (b ∷ d ∷ done) h = ground arith
visible_back a (b ∷ s) done h = visible_back b s (a ∷ done) h.1

-- A line of a visible character, any text, and a word at its end.
pub trim-word :
    (a : ℕ) (s w : Text)
    → (33 ≤ a) × (a ≤ 127)
    → 0 < length w
    → IsVisible w
    → trim (a ∷ (s ++ w)) ≡ a ∷ (s ++ w)
unfolding reverse
trim-word a s [] h pos vis = absurd (omega arith)
trim-word a s (b ∷ w) h pos vis =
    trim_of_ends (a ∷ (s ++ (b ∷ w))) (visible_front a _ h.0 h.1)
      (ap space_width_back (reverse-append s (b ∷ w) (a ∷ [])) ∙ visible_back b w _ vis)
  where
    reverse-append : (s t done : Text) → reverse (s ++ t) done ≡ reverse t (reverse s done)
    reverse-append [] t done = refl
    reverse-append (x ∷ s) t done = reverse-append s t (x ∷ done)

pub trim_of_word : (w : Text) → IsVisible w → trim w ≡ w
unfolding reverse space_width space_width_back
trim_of_word [] vis = trim_of_ends [] refl refl
trim_of_word (b ∷ w) vis =
    trim_of_ends (b ∷ w) (visible_front b w vis.0.0 vis.0.1) (visible_back b w [] vis)

-- A number is printed by decimal digits, of which there is at least one.
abbrev IsDecimal : Text → Type 0
IsDecimal = All (λ b. (48 ≤ b) × (b ≤ 57))

pub decimal-IsDecimal : (n : ℕ) → (0 < length (decimal n)) × IsDecimal (decimal n)
unfolding decimal digits
decimal-IsDecimal n = (some_digit 19 n [], all_digits 20 n [] tt)
  where
    all_digits : (fuel n : ℕ) (done : Text) → IsDecimal done → IsDecimal (digits fuel n done)
    all_digits zero n done h = h
    all_digits (suc fuel) n done h =
        ground (arith, all_digits fuel (n / 10) ((48 + n % 10) ∷ done) (omega arith, h))

    length-digits-le : (fuel n : ℕ) (done : Text) → length done ≤ length (digits fuel n done)
    length-digits-le zero n done = omega arith
    length-digits-le (suc fuel) n done =
        ground (arith, length-digits-le fuel (n / 10) ((48 + n % 10) ∷ done))

    some_digit : (fuel n : ℕ) (done : Text) → 0 < length (digits (suc fuel) n done)
    some_digit fuel n done = ground (arith, length-digits-le fuel (n / 10) ((48 + n % 10) ∷ done))

-- Within 64 bits the digits are read as the number, before what follows.
parse_digits-digits :
    (fuel n : ℕ) (done : Text)
    → n < 10 ^ suc fuel
    → n < 2 ^ 64
    → parse_digits 0 (digits (suc fuel) n done) ≡ parse_digits n done
unfolding digits parse_digits
parse_digits-digits zero n done h k = ground arith
parse_digits-digits (suc fuel) n done h k = elim (Bool-cases (ltb n 10)) [
  | inl one ↦ ground (arith, one)
  | inr more ↦
      let value : n / 10 * 10 + n % 10 ≡ n = omega arith in
      ground (
        arith,
        more,
        value,
        parse_digits-digits fuel (n / 10) ((48 + n % 10) ∷ done)
            (omega (arith, pow-suc 10 (suc fuel))) (omega arith),
      )
]

parse_usize-digits : (s : Text) → 0 < length s → IsDecimal s → parse_usize s ≡ parse_digits 0 s
unfolding parse_usize
parse_usize-digits [] pos h = absurd (omega arith)
parse_usize-digits (d ∷ []) pos h = refl
parse_usize-digits (d ∷ e ∷ s) pos h = ground arith

-- Every number of 64 bits, printed in decimal and parsed as a `usize`, is the number: the twenty digits
-- that the printing may take are enough, and the parser never overflows on the way.
pub parse_usize-decimal : (n : ℕ) → n < 2 ^ 64 → parse_usize (decimal n) ≡ some n
unfolding decimal parse_digits
parse_usize-decimal n h =
    parse_usize-digits (decimal n) (decimal-IsDecimal n).0 (decimal-IsDecimal n).1
    ∙ parse_digits-digits 19 n [] (omega arith) h
