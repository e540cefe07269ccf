-- ===== src/Cli/FactFile.antt =====
-- The files of identifiers of crates/blindoverlap-cli/src/main.rs, and the commands `intersect` and
-- `card` on them.
pub mod Reading
pub mod Written
pub mod Intersecting
use blind_overlap.Prelude.{
  Bool, true, false, ◌||◌, Option, none, some, List, [], ◌∷◌, ◌++◌, map, length, ◌==◌,
  if◌then◌else◌, Result, ok, err, ◌>>=◌, map_err,
}
use blind_overlap.Bytes.{Bytes, Text, ascii, eqb}
use blind_overlap.Crypto.{Crypto}
use blind_overlap.FactSet
use blind_overlap.FactSet.{FactId, FactSet}
use blind_overlap.Protocol.{IntersectionMode, PsiResult, intersect}
use blind_overlap.Cli.Common.{
  CliError, psi, Files, Effect, write_out, read_to_string, decode_arg, message, print,
}
use blind_overlap.Cli.Lines.{trim, lines, unlines, decimal}

-- `trimmed.is_empty() || trimmed.starts_with('#')`
unfoldable pub is_skipped : Text → Bool
is_skipped [] = true
is_skipped (a ∷ s) = a == 35

module _ ⦃c : Crypto⦄ where
  unfoldable pub load_line : Text → Result CliError FactId
  load_line trimmed = decode_arg (ascii "fact ID must be 32 bytes") trimmed

  -- The loop over the lines.
  unfoldable pub load_lines : List Text → Result CliError (List FactId)
  unfolding is_skipped
  load_lines [] = ok []
  load_lines (line ∷ rest) = elim (is_skipped (trim line)) [
    | true ↦ load_lines rest
    | false ↦ do id ← load_line (trim line); ids ← load_lines rest; ok (id ∷ ids)
  ]

  unfoldable pub load_fact_ids_from_reader : Text → Result CliError (List FactId)
  unfolding load_lines
  load_fact_ids_from_reader content = load_lines (lines content)

  unfoldable pub load_fact_ids : Files → Text → Result CliError (List FactId)
  load_fact_ids files path = do
    content ← read_to_string files path
    load_fact_ids_from_reader content

  unfoldable pub load_fact_set : Files → Text → Result CliError FactSet
  load_fact_set files path = do ids ← load_fact_ids files path; ok (FactSet.from_ids ids)

  -- The lines that tell a result; `extra` are the lines on the roots of the two sets, which only
  -- `intersect` prints.
  unfoldable pub result_lines : List Text → PsiResult → List Text
  result_lines extra (PsiResult.cardinality count) = (ascii "cardinality: " ++ decimal count) ∷ []
  result_lines extra (PsiResult.intersection ids root) =
      (ascii "# intersection_root: " ++ c.hex_encode root)
      ∷ (extra ++ ((ascii "# count: " ++ decimal (length ids)) ∷ map c.hex_encode ids))

  unfoldable pub root_lines : FactSet → FactSet → List Text
  root_lines set_a set_b =
      (ascii "# set_root_a: " ++ c.hex_encode set_a.root)
      ∷ (ascii "# set_root_b: " ++ c.hex_encode set_b.root)
      ∷ []

  -- `cmd_intersect`; the secrets are what the two parties draw.
  unfoldable pub cmd_intersect :
      (secret_a secret_b : Bytes)
      → Files
      → (set_a_path set_b_path : Text) → (cardinality_only : Bool) → (output : Option Text)
      → Result CliError (List Effect)
  cmd_intersect secret_a secret_b files set_a_path set_b_path cardinality_only output = do
    set_a ← load_fact_set files set_a_path
    set_b ← load_fact_set files set_b_path
    let mode =
        if cardinality_only then IntersectionMode.cardinality else IntersectionMode.intersection
    result ← map_err psi (intersect secret_a secret_b set_a set_b mode)
    ok (write_out output (unlines (result_lines (root_lines set_a set_b) result)) ∷ [])

  -- `cmd_card`; the input is a file, or "-" for standard input.
  unfoldable pub cmd_card : (stdin : Text) → Files → (input : Text) → Result CliError (List Effect)
  cmd_card stdin files input = do
    ids ←
        if eqb input (ascii "-") then load_fact_ids_from_reader stdin else load_fact_ids files input
    let set = FactSet.from_ids ids
    ok (
        print (
          unlines (
            (ascii "count: " ++ decimal (FactSet.len set))
            ∷ (ascii "set_root: " ++ c.hex_encode set.root)
            ∷ []))
        ∷ [])
