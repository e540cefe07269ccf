-- ===== src/Cli/FactFile/Written.antt =====
-- The file that `intersect` writes, loaded again: its comments are skipped and its identifiers read.
use blind_overlap.Prelude.{
  ◌≤◌, ◌<◌, ◌≡◌, refl, ap, sym, ◌∙◌, subst, append_assoc, Bool, true, ◌&&◌, List, [], ◌∷◌, ◌++◌,
  map, arith, length, leb, All, ok,
}
use blind_overlap.Bytes.{Bytes, Text, ascii}
use blind_overlap.Crypto.{Crypto, HexRoundTrips, PrintsDigits, HashesTo32}
use blind_overlap.FactSet.{FactId, from_ids, compute_set_root}
use blind_overlap.Protocol.{PsiResult}
use blind_overlap.Cli.Lines.{unlines, decimal}
use blind_overlap.Cli.Lines.Laws.{IsLine, IsVisible, lines-unlines, decimal-IsDecimal}
use blind_overlap.Cli.FactFile.{load_lines, load_fact_ids_from_reader, result_lines, root_lines}
use blind_overlap.Cli.FactFile.Reading.{
  Are32, All-weaken, All-append, hex-IsVisible, load_lines-comment, load_lines-hex,
}

abbrev all_printable : Text → Bool
all_printable [] = true
all_printable (b ∷ s) = leb 14 b && all_printable s

IsLine-of_test : (s : Text) → all_printable s ≡ true → IsLine s
IsLine-of_test [] h = tt
IsLine-of_test (b ∷ s) h = ground (arith, IsLine-of_test s)

visible-IsLine : (s : Text) → IsVisible s → IsLine s
visible-IsLine s h = All-weaken (λ b k. omega arith) s h

-- A comment that ends in a word.
abbrev pub IsComment : Text → Type 0
IsComment l =
    (s w : Text) × (l ≡ 35 ∷ (s ++ w)) × (all_printable s ≡ true) × (0 < length w) × IsVisible w

comment-IsLine : (l : Text) → IsComment l → IsLine l
comment-IsLine l (s, w, e, printable, pos, vis) =
    subst IsLine (sym e) (
      omega arith,
      All-append (λ b. 14 ≤ b) s w (IsLine-of_test s printable) (visible-IsLine w vis),
    )

module _ ⦃c : Crypto⦄ where
  skip_comments :
      (comments rest : List Text)
      → All IsComment comments
      → load_lines (comments ++ rest) ≡ load_lines rest
  skip_comments [] rest h = refl
  skip_comments (l ∷ ls) rest ((s, w, e, printable, pos, vis), h) =
      ap (λ t. load_lines (t ∷ (ls ++ rest))) e
      ∙ load_lines-comment s w (ls ++ rest) pos vis
      ∙ skip_comments ls rest h

  pub hex_lines :
      PrintsDigits c → (ids : List FactId) → Are32 ids → All IsLine (map c.hex_encode ids)
  hex_lines digits [] h = tt
  hex_lines digits (id ∷ ids) h =
      (visible-IsLine _ (hex-IsVisible _ (digits id h.0)), hex_lines digits ids h.1)

  comments_of : (extra : List Text) (ids : List FactId) (root : Bytes) → List Text
  comments_of extra ids root =
      (ascii "# intersection_root: " ++ c.hex_encode root)
      ∷ (extra ++ ((ascii "# count: " ++ decimal (length ids)) ∷ []))

  comments_are :
      PrintsDigits c
      → (extra : List Text) (ids : List FactId) (root : Bytes) → All IsComment extra
      → length root ≡ 32
      → All IsComment (comments_of extra ids root)
  unfolding comments_of ascii
  comments_are digits extra ids root h size = (
    (
      ascii " intersection_root: ",
      c.hex_encode root,
      refl,
      refl,
      (digits root size).0,
      hex-IsVisible _ (digits root size),
    ),
    All-append IsComment extra _ h (
      (
        ascii " count: ",
        decimal (length ids),
        refl,
        refl,
        (decimal-IsDecimal (length ids)).0,
        All-weaken (λ b k. (omega arith, omega arith)) _ (decimal-IsDecimal (length ids)).1,
      ),
      tt,
    ),
  )

  -- What is written of an intersection is read as its identifiers.
  pub load-result_lines :
      HexRoundTrips c
      → PrintsDigits c
      → (extra : List Text) (ids : List FactId) (root : Bytes) → All IsComment extra
      → length root ≡ 32
      → Are32 ids
      → load_fact_ids_from_reader (unlines (result_lines extra (PsiResult.intersection ids root)))
        ≡ ok ids
  unfolding load_fact_ids_from_reader result_lines comments_of
  load-result_lines reads digits extra ids root h size all32 =
      let first = ascii "# intersection_root: " ++ c.hex_encode root in
      let count = (ascii "# count: " ++ decimal (length ids)) ∷ [] in
      let comments = comments_of extra ids root in
      ap (λ ls. load_fact_ids_from_reader (unlines ls))
        (ap (◌∷◌ first) (sym (append_assoc extra count (map c.hex_encode ids))))
      ∙ ap load_lines (
          lines-unlines (comments ++ map c.hex_encode ids) (
            All-append IsLine comments _
              (All-weaken comment-IsLine comments (comments_are digits extra ids root h size))
              (hex_lines digits ids all32)))
      ∙ skip_comments comments _ (comments_are digits extra ids root h size)
      ∙ load_lines-hex reads digits ids all32

  pub root_lines-IsComment :
      PrintsDigits c
      → HashesTo32 c
      → (xs ys : List FactId) → All IsComment (root_lines (from_ids xs) (from_ids ys))
  unfolding root_lines ascii from_ids compute_set_root
  root_lines-IsComment digits hashes xs ys = (
    (
      ascii " set_root_a: ",
      c.hex_encode (from_ids xs).root,
      refl,
      refl,
      (digits _ (hashes _)).0,
      hex-IsVisible _ (digits _ (hashes _)),
    ),
    (
      (
        ascii " set_root_b: ",
        c.hex_encode (from_ids ys).root,
        refl,
        refl,
        (digits _ (hashes _)).0,
        hex-IsVisible _ (digits _ (hashes _)),
      ),
      tt,
    ),
  )
