-- ===== src/Tests/Pipelines.antt =====
-- The commands on files of two identifiers each.
use blind_overlap.Prelude.{
  ℕ, ◌≤◌, ◌^◌, ◌≡◌, ◌≢◌, refl, true, false, none, some, List, [], ◌∷◌, arith, length, ok,
}
use blind_overlap.Bytes.{ascii, lex}
use blind_overlap.FactSet.{from_ids}
use blind_overlap.Json
use blind_overlap.Json.{Json, JsonLibrary, canonical_string, fact_id_from_json}
use blind_overlap.Json.Strings.{canonical_string-injective}
use blind_overlap.Json.Order.{fact_id_from_json-Alike, objects, swap}
use blind_overlap.Padding.{next_power_of_two}
use blind_overlap.Padding.Laws.{next_power_of_two_least}
use blind_overlap.Protocol.{max_set_size}
use blind_overlap.Receipt.{ReceiptSigner}
use blind_overlap.Receipt.Basic.{IntersectionReceipt}
use blind_overlap.Cli.Common.{Effect, perform, Serde}
use blind_overlap.Cli.Lines.{lines, unlines}
use blind_overlap.Cli.FactFile.{cmd_intersect, load_fact_ids_from_reader}
use blind_overlap.Cli.Encoding.{cmd_encode}
use blind_overlap.Cli.Encoding.Facts.{facts, cmd_encode-load}
use blind_overlap.Cli.Receipts.{cmd_receipt_sign, cmd_receipt_verify, signer_of}
use blind_overlap.Cli.Receipts.Pipeline.{overlap_receipt, intersect_sign_verify}
use blind_overlap.Tests.Commands.{
  unary_crypto, unary-Commutes, unary-SignsSoundly, unary-HashesTo32, unary-HexRoundTrips,
  unary-PrintsDigits, id_of, ids-TellsApart, encode, files, set_a, set_b, loads_a, loads_b,
}

abbrev signer : ReceiptSigner
signer = record { seed = id_of 9 }

-- JSON that knows one receipt.
instance abbrev one_receipt : Serde IntersectionReceipt
one_receipt = record {
  to_string_pretty = λ r. ascii "receipt";
  from_str = λ t. some (
      overlap_receipt ⦃j = record { to_string_pretty = λ r. []; from_str = λ t. none }⦄ signer
        (id_of 4) (id_of 5) set_a set_b);
}

size_a : length set_a.ids ≤ max_set_size
unfolding from_ids blind_overlap.OrdSet.collect lex
size_a = omega arith

size_b : length set_b.ids ≤ max_set_size
unfolding from_ids blind_overlap.OrdSet.collect lex
size_b = omega arith

intersect_sign_verify_example :
    (effects receipt_effects : List Effect) × (cmd_intersect
        (id_of 10)
        (id_of 20)
        files
        (ascii "a.txt")
        (ascii "b.txt")
        false
        (some (ascii "out.txt"))
      ≡ ok effects)
    × (cmd_receipt_sign
          (id_of 9)
          (λ p. true)
          (perform effects files)
          (encode (id_of 4))
          (encode (id_of 5))
          (ascii "out.txt")
          (ascii "intersection")
          none
          (some (ascii "receipt.json"))
        ≡ ok receipt_effects)
    × (cmd_receipt_verify
          (perform receipt_effects (perform effects files))
          (ascii "receipt.json")
          (some (encode (id_of 4)))
          (some (encode (id_of 5)))
        ≡ ok (overlap_receipt signer (id_of 4) (id_of 5) set_a set_b))
unfolding signer_of from_ids blind_overlap.OrdSet.collect lex
intersect_sign_verify_example =
    intersect_sign_verify (id_of 10) (id_of 20) (id_of 9) (λ p. true) files (ascii "a.txt")
      (ascii "b.txt") (ascii "out.txt") (ascii "receipt.json") (encode (id_of 4)) (encode (id_of 5))
      none set_a set_b (id_of 4) (id_of 5) signer unary-Commutes unary-HexRoundTrips
      unary-PrintsDigits unary-HashesTo32 unary-SignsSoundly loads_a loads_b size_a size_b
      (ids-TellsApart (id_of 20) (id_of 10) 1 2 2 3) refl refl refl refl refl refl refl

-- A parser that reads every text as the same object, and prints floats as nothing.
instance abbrev one_object : JsonLibrary
one_object = record {
  display_f64 = λ bits. [];
  parse = λ t. some (Json.object (Json.field (ascii "a") Json.null Json.no_fields));
}

cmd_encode-load_example :
    load_fact_ids_from_reader (
      unlines
        (cmd_encode encode
          (unlines (ascii "x" ∷ ascii "#" ∷ []))
          files
          (ascii "-")
          (ascii "hex")).0)
    ≡ ok (facts (lines (unlines (ascii "x" ∷ ascii "#" ∷ []))))
cmd_encode-load_example =
    cmd_encode-load unary-HexRoundTrips unary-PrintsDigits unary-HashesTo32 encode
      (unlines (ascii "x" ∷ ascii "#" ∷ [])) files

canonical_string-injective_example :
    (ascii "say \"a\"" ≡ ascii "say \"a\"") × (ascii "b" ≡ ascii "b")
canonical_string-injective_example =
    canonical_string-injective (ascii "say \"a\"") (ascii "say \"a\"") (ascii "b") (ascii "b") refl

keys_differ : ascii "a" ≢ ascii "b"
unfolding ascii
keys_differ e = ground (arith, e)

abbrev a_then_b : Json
a_then_b =
    Json.object
      (Json.field (ascii "a") Json.null (Json.field (ascii "b") (Json.boolean true) Json.no_fields))

abbrev b_then_a : Json
b_then_a =
    Json.object
      (Json.field (ascii "b") (Json.boolean true) (Json.field (ascii "a") Json.null Json.no_fields))

fact_id_from_json-Alike_example : fact_id_from_json a_then_b ≡ fact_id_from_json b_then_a
fact_id_from_json-Alike_example = fact_id_from_json-Alike a_then_b b_then_a (
    objects _ _
      (swap (ascii "a") (ascii "b") Json.null (Json.boolean true) Json.no_fields keys_differ))

next_power_of_two_least_example :
    (j : ℕ) × (next_power_of_two 5 ≡ 2 ^ j) × (5 ≤ 2 ^ j) × ((i : ℕ) → 5 ≤ 2 ^ i → 2 ^ j ≤ 2 ^ i)
next_power_of_two_least_example = next_power_of_two_least 5 (omega arith)
