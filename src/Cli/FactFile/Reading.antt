-- ===== src/Cli/FactFile/Reading.antt =====
-- What `intersect` writes is read back as the identifiers that it found.
use blind_overlap.Prelude.{
  ◌<◌, ◌≡◌, refl, false, List, [], ◌∷◌, ◌++◌, map, arith, length, All, ok, err, Result,
}
use blind_overlap.Bytes.{Text, bytes_order}
use blind_overlap.Crypto.{Crypto, HexRoundTrips, PrintsDigits, IsHexText}
use blind_overlap.FactSet.{FactId}
use blind_overlap.Cli.Common.{CliError, decode_arg}
use blind_overlap.Cli.Lines.Laws.{IsVisible, trim-word, trim_of_word}
use blind_overlap.Cli.FactFile.{is_skipped, load_line, load_lines}

abbrev pub Are32 : List FactId → Type 0
Are32 = All (λ id. length id ≡ 32)

-- Weaker conditions on each byte.
pub All-weaken {ℓ κ} :
    {A : Type ℓ} {P Q : A → Type κ} → ((a : A) → P a → Q a) → (xs : List A) → All P xs → All Q xs
All-weaken f [] h = tt
All-weaken f (x ∷ xs) h = (f x h.0, All-weaken f xs h.1)

pub All-append {ℓ κ} :
    {A : Type ℓ} (P : A → Type κ) (xs ys : List A) → All P xs → All P ys → All P (xs ++ ys)
All-append P [] ys h k = k
All-append P (x ∷ xs) ys h k = (h.0, All-append P xs ys h.1 k)

module _ ⦃c : Crypto⦄ where
  -- Every identifier that is loaded has 32 bytes.
  abbrev pub LoadsOnly32 : Result CliError (List FactId) → Type 0
  LoadsOnly32 (ok ids) = Are32 ids
  LoadsOnly32 (err e) = Unit

  pub load_lines-Are32 : (ls : List Text) → LoadsOnly32 (load_lines ls)
  unfolding load_lines load_line decode_arg
  load_lines-Are32 [] = tt
  load_lines-Are32 (l ∷ ls) = ground (arith, load_lines-Are32 ls)

  -- A comment is skipped, and the printed form of an identifier is read as the identifier.
  pub load_lines-comment :
      (s w : Text) (ls : List Text)
      → 0 < length w
      → IsVisible w
      → load_lines ((35 ∷ (s ++ w)) ∷ ls) ≡ load_lines ls
  unfolding load_lines is_skipped
  load_lines-comment s w ls pos vis =
      ground (arith, trim-word 35 s w (omega arith, omega arith) pos vis)

  pub hex-IsVisible : (s : Text) → IsHexText s → IsVisible s
  hex-IsVisible s h = All-weaken (λ d k. (omega arith, omega arith)) s h.1

  not_skipped : (s : Text) → IsHexText s → is_skipped s ≡ false
  unfolding is_skipped
  not_skipped [] h = absurd (omega arith)
  not_skipped (d ∷ s) h = ground arith

  pub load_lines-hex :
      HexRoundTrips c
      → PrintsDigits c
      → (ids : List FactId) → Are32 ids
      → load_lines (map c.hex_encode ids) ≡ ok ids
  unfolding load_lines load_line decode_arg is_skipped
  load_lines-hex reads digits [] h = refl
  load_lines-hex reads digits (id ∷ ids) h =
      let word = digits id h.0 in
      ground (
        arith,
        trim_of_word (c.hex_encode id) (hex-IsVisible _ word),
        not_skipped (c.hex_encode id) word,
        reads id,
        load_lines-hex reads digits ids h.1,
      )
