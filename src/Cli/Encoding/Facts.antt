-- ===== src/Cli/Encoding/Facts.antt =====
-- What `encode` prints is a file of identifiers, and what `identity-gen` saves is the identity that
-- `identity-show` shows.
use blind_overlap.Prelude.{
  ◌≡◌, refl, ap, ◌∙◌, true, false, if◌then◌else◌, Option, none, some, List, [], ◌∷◌, ◌++◌, map,
  arith, length, Result, ok,
}
use blind_overlap.Bytes.{Bytes, Text, ascii, eqb, eqb_refl}
use blind_overlap.Crypto.{Crypto, HexRoundTrips, PrintsDigits, HashesTo32}
use blind_overlap.FactSet.{FactId}
use blind_overlap.Identity
use blind_overlap.Json.{Json, JsonLibrary, canonical_json, fact_id_from_str, fact_id_from_json}
use blind_overlap.Cli.Common.{
  CliError, Files, print, perform, Serde, ReadsBack, StoredIdentity, load_identity, save_identity,
}
use blind_overlap.Cli.Lines.{trim, lines, unlines}
use blind_overlap.Cli.Lines.Laws.{lines-unlines}
use blind_overlap.Cli.FactFile.{is_skipped, load_lines, load_fact_ids_from_reader}
use blind_overlap.Cli.FactFile.Reading.{Are32, load_lines-hex}
use blind_overlap.Cli.FactFile.Written.{hex_lines}
use blind_overlap.Cli.Encoding.{
  encode_id, encode_line, encode_lines, cmd_encode, cmd_identity_gen, cmd_identity_show,
}

module _ ⦃c : Crypto⦄ ⦃l : JsonLibrary⦄ where
  -- The identifiers of the JSON values on the lines, up to the first line that is not JSON.
  pub facts : List Text → List FactId
  facts [] = []
  facts (line ∷ rest) =
      let more = facts rest in
      elim (is_skipped (trim line)) [
        | true ↦ more
        | false ↦ elim (l.parse (trim line)) [
          | none ↦ []
          | some value ↦ fact_id_from_json value ∷ more
        ]
      ]

  facts-Are32 : HashesTo32 c → (ls : List Text) → Are32 (facts ls)
  unfolding facts fact_id_from_json
  facts-Are32 hashes [] = tt
  facts-Are32 hashes (line ∷ ls) = ground (
    arith,
    facts-Are32 hashes ls,
    with_value (l.parse (trim line)) (facts ls) (facts-Are32 hashes ls),
  )
    where
      with_value :
          (o : Option Json) (ids : List FactId)
          → Are32 ids
          → Are32 (elim o [ none ↦ [] | some value ↦ c.sha256 (canonical_json value) ∷ ids ])
      with_value none ids h = tt
      with_value (some v) ids h = (hashes (canonical_json v), h)

  encode_lines-facts :
      (base64 : Bytes → Text) (ls : List Text)
      → (encode_lines base64 (ascii "hex") ls).0 ≡ map c.hex_encode (facts ls)
  unfolding facts encode_lines encode_line encode_id fact_id_from_str
  encode_lines-facts base64 [] = refl
  encode_lines-facts base64 (line ∷ ls) =
      ground (arith, eqb_refl (ascii "hex"), encode_lines-facts base64 ls)

  -- What `encode` prints in hex of standard input, up to its first error, is a file of identifiers: it
  -- is loaded as the identifiers of the JSON values that it read, provided that hex text is decoded as
  -- what it encodes and is made of digits, and that a SHA-256 digest has 32 bytes.
  pub cmd_encode-load :
      HexRoundTrips c
      → PrintsDigits c
      → HashesTo32 c
      → (base64 : Bytes → Text) (stdin : Text) (files : Files)
      → load_fact_ids_from_reader
          (unlines (cmd_encode base64 stdin files (ascii "-") (ascii "hex")).0)
        ≡ ok (facts (lines stdin))
  unfolding cmd_encode load_fact_ids_from_reader
  cmd_encode-load reads digits hashes base64 stdin files =
      let ids = facts (lines stdin) in
      let all32 = facts-Are32 hashes (lines stdin) in
      ap (λ ts. load_lines (lines (unlines ts)))
        (from_stdin (encode_lines base64 (ascii "hex") (lines stdin)) _
          ∙ encode_lines-facts base64 (lines stdin))
      ∙ ap load_lines (lines-unlines (map c.hex_encode ids) (hex_lines digits ids all32))
      ∙ load_lines-hex reads digits ids all32
    where
      from_stdin :
          (x y : List Text × Result CliError Unit)
          → (if eqb (ascii "-") (ascii "-") then x else y).0 ≡ x.0
      from_stdin x y = ground (arith, eqb_refl (ascii "-"))

module _ ⦃c : Crypto⦄ ⦃i : Serde StoredIdentity⦄ where
  -- The identity that `identity-gen` makes of a seed and saves, also where it writes the public key to
  -- another file, is the one of which `identity-show` prints the public key, provided that the seed has
  -- 32 bytes, that hex text is decoded as what it encodes and that the JSON is read back.
  cmd_identity_gen-cmd_identity_show :
      HexRoundTrips c
      → (seed : Bytes) (files : Files) (output pubkey_out : Text) → length seed ≡ 32
      → eqb output pubkey_out ≡ false
      → ReadsBack i (record {
        version = 1;
        public_key_hex = c.hex_encode (Identity.public (record { seed = seed }));
        seed_hex = c.hex_encode seed;
      })
      → cmd_identity_show (perform (cmd_identity_gen seed output (some pubkey_out)) files) output
        ≡ ok (print (c.hex_encode (Identity.public (record { seed = seed })) ++ (10 ∷ [])) ∷ [])
  unfolding cmd_identity_show cmd_identity_gen load_identity save_identity perform
      Identity.from_seed_hex
  cmd_identity_gen-cmd_identity_show reads seed files output pubkey_out size apart back =
      ground (arith, reads seed, size, apart, back, eqb_refl output)
