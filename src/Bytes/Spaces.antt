-- ===== src/Bytes/Spaces.antt =====
-- `char::is_whitespace` on UTF-8 text: the white characters of one, two and three bytes.
use blind_overlap.Prelude.{ℕ, Bool, ◌&&◌, ◌||◌, leb, ◌==◌}

-- Tab to carriage return, and the space.
abbrev pub space_1 : ℕ → Bool
space_1 a = a == 32 || leb 9 a && leb a 13

-- U+0085 and U+00A0.
abbrev pub space_2 : ℕ → ℕ → Bool
space_2 a b = a == 0xC2 && (b == 0x85 || b == 0xA0)

-- U+1680, U+2000 to U+200A, U+2028, U+2029, U+202F, U+205F and U+3000.
abbrev pub space_3 : ℕ → ℕ → ℕ → Bool
space_3 a b c =
    a == 0xE1 && b == 0x9A && c == 0x80
    || a == 0xE2 && b == 0x80 && (leb 0x80 c && leb c 0x8A || c == 0xA8 || c == 0xA9 || c == 0xAF)
    || a == 0xE2 && b == 0x81 && c == 0x9F
    || a == 0xE3 && b == 0x80 && c == 0x80
