-- ===== src/Cli/Lines.antt =====
-- Text as the commands of crates/blindoverlap-cli/src/main.rs read and print it: lines, `str::trim`
-- and decimal numbers.
pub mod Laws
use blind_overlap.Prelude.{
  ℕ, zero, suc, ◌+◌, ◌-◌, ◌*◌, ◌/◌, ◌%◌, Bool, true, false, not, ◌&&◌, ◌||◌, Option, none, some,
  List, [], ◌∷◌, ◌++◌, ltb, leb, ◌==◌, if◌then◌else◌,
}
use blind_overlap.Bytes.{Bytes, Text, ascii}
use blind_overlap.Bytes.Spaces.{space_1, space_2, space_3}

abbrev pub newline : ℕ
newline = 10

-- The width in bytes of the first character of the text if it is white, and else 0.
unfoldable pub space_width : Text → ℕ
space_width [] = 0
space_width (a ∷ []) = if space_1 a then 1 else 0
space_width (a ∷ b ∷ []) = if space_1 a then 1 else if space_2 a b then 2 else 0
space_width (a ∷ b ∷ d ∷ s) =
    if space_1 a then 1 else if space_2 a b then 2 else if space_3 a b d then 3 else 0

-- The same, on the last character of text that is given from its end.
unfoldable pub space_width_back : Text → ℕ
space_width_back [] = 0
space_width_back (a ∷ []) = if space_1 a then 1 else 0
space_width_back (a ∷ b ∷ []) = if space_1 a then 1 else if space_2 b a then 2 else 0
space_width_back (a ∷ b ∷ d ∷ s) =
    if space_1 a then 1 else if space_2 b a then 2 else if space_3 d b a then 3 else 0

-- Skips `pending` bytes of a character, and then white characters, each of the width that `width`
-- finds.
unfoldable pub skip_spaces : (Text → ℕ) → ℕ → Text → Text
skip_spaces width pending [] = []
skip_spaces width (suc pending) (a ∷ s) = skip_spaces width pending s
skip_spaces width zero (a ∷ s) = elim (width (a ∷ s)) [
  | zero ↦ a ∷ s
  | suc k ↦ skip_spaces width k s
]

unfoldable pub reverse : Text → Text → Text
reverse [] done = done
reverse (a ∷ s) done = reverse s (a ∷ done)

-- `str::trim`
unfoldable pub trim : Text → Text
unfolding skip_spaces space_width space_width_back reverse
trim s = reverse (skip_spaces space_width_back 0 (reverse (skip_spaces space_width 0 s) [])) []

-- A line that is read by `BufRead::lines` ends without its "\n" or "\r\n".
unfoldable pub drop_return : Text → Text
drop_return [] = []
drop_return (a ∷ []) = if a == 13 then [] else a ∷ []
drop_return (a ∷ b ∷ s) = a ∷ drop_return (b ∷ s)

-- The last line, if no newline ends it.
unfoldable pub last_line : Text → List Text
unfolding reverse
last_line [] = []
last_line (b ∷ before) = reverse (b ∷ before) [] ∷ []

-- `before` is what stands before the rest of the text in its line, in reverse.
unfoldable pub lines_from : Text → Text → List Text
unfolding drop_return reverse last_line
lines_from before [] = last_line before
lines_from before (a ∷ s) =
    if a == newline
    then drop_return (reverse before []) ∷ lines_from [] s
    else lines_from (a ∷ before) s

-- `BufRead::lines`
unfoldable pub lines : Text → List Text
unfolding lines_from
lines s = lines_from [] s

-- The texts of `writeln!`, one after the other.
unfoldable pub unlines : List Text → Text
unlines [] = []
unlines (l ∷ ls) = l ++ (newline ∷ unlines ls)

-- The digits of a number below `10 ^ fuel`, in front of `done`.
unfoldable pub digits : ℕ → ℕ → Text → Text
digits zero n done = done
digits (suc fuel) n done =
    let more = digits fuel (n / 10) ((48 + n % 10) ∷ done) in
    if ltb n 10 then (48 + n) ∷ done else more

-- `{n}` of a `usize` or a `u64`, which has 20 digits at most.
unfoldable pub decimal : ℕ → Text
unfolding digits
decimal n = digits 20 n []

-- The loop of `usize::from_str` over the digits, which fails where the number leaves 64 bits.
unfoldable pub parse_digits : ℕ → Text → Option ℕ
parse_digits value [] = some value
parse_digits value (d ∷ s) =
    let next = value * 10 + (d - 48) in
    let rest = parse_digits next s in
    if leb 48 d && leb d 57 && leb next 18446744073709551615 then rest else none

-- `s.parse::<usize>()`: a "+" may stand in front, and a digit must follow.
unfoldable pub parse_usize : Text → Option ℕ
unfolding parse_digits
parse_usize [] = none
parse_usize (d ∷ []) = parse_digits 0 (d ∷ [])
parse_usize (d ∷ e ∷ s) = if d == 43 then parse_digits 0 (e ∷ s) else parse_digits 0 (d ∷ e ∷ s)
