-- ===== src/Cli/Receipts/Pipeline.antt =====
-- `intersect`, `receipt-sign` and `receipt-verify`, one after the other.
use blind_overlap.Prelude.{
  ◌≤◌, ◌≡◌, Bool, true, false, Option, some, List, [], ◌∷◌, arith, length, ok,
}
use blind_overlap.Bytes.{Bytes, Text, ascii, eqb_refl}
use blind_overlap.Crypto.{Crypto, Commutes, HexRoundTrips, PrintsDigits, HashesTo32, SignsSoundly}
use blind_overlap.FactSet.{FactSet}
use blind_overlap.Protocol.{IntersectionMode, PsiResult, max_set_size}
use blind_overlap.Protocol.Exactness.{overlap, result_of, TellsApart}
use blind_overlap.Receipt.{ReceiptSigner, verify_bytes, public_key}
use blind_overlap.Receipt.Basic
use blind_overlap.Receipt.Basic.{IntersectionReceipt, sign}
use blind_overlap.Cli.Common.{
  Files, Effect, emit, perform, write_file, Serde, ReadsBack, parse_mode, decode_arg, read_json,
  read_to_string, read-write,
}
use blind_overlap.Cli.FactFile.{load_fact_set, cmd_intersect}
use blind_overlap.Cli.FactFile.Intersecting.{cmd_intersect-load}
use blind_overlap.Cli.Receipts.{
  parse_result, ids_if_exists, signer_of, cmd_receipt_sign, check_receipt, cmd_receipt_verify,
}

module _ ⦃c : Crypto⦄ ⦃j : Serde IntersectionReceipt⦄ where
  -- The receipt for the identifiers that two sets share.
  abbrev pub overlap_receipt :
      ReceiptSigner → Bytes → Bytes → FactSet → FactSet → IntersectionReceipt
  overlap_receipt signer root_a root_b a b =
      sign signer root_a root_b (result_of (overlap a.ids b.ids) IntersectionMode.intersection)
        IntersectionMode.intersection

  signed_verifies :
      SignsSoundly c
      → (signer : ReceiptSigner) (root_a root_b : Bytes) (result : PsiResult)
        (mode : IntersectionMode)
      → Basic.verify_with_roots (sign signer root_a root_b result mode) root_a root_b ≡ ok tt
  unfolding Basic.verify_with_roots Basic.verify Basic.message_bytes sign verify_bytes public_key
  signed_verifies sound signer root_a root_b result mode = ground (
    arith,
    sound.valid_public signer.seed,
    sound.verifies signer.seed (Basic.message_bytes (sign signer root_a root_b result mode)),
    eqb_refl root_a,
    eqb_refl root_b,
  )

  -- Two files of identifiers that can be loaded, within the size limit, and two roots and a key that
  -- can be read: `intersect` writes a file of which `receipt-sign` makes a receipt that commits to the
  -- exact overlap of the two sets, and `receipt-verify` with the same roots accepts it. Provided that
  -- Diffie-Hellman commutes and the masks tell the identifiers apart, that hex text is decoded as what
  -- it encodes and is made of digits, that a SHA-256 digest has 32 bytes, that Ed25519 accepts its own
  -- signatures, and that the JSON of the receipt is read back.
  pub intersect_sign_verify :
      (secret_a secret_b random : Bytes) (exists : Text → Bool) (files : Files)
      (path_a path_b out receipt_out root_a_hex root_b_hex : Text) (key_seed : Option Text)
      (a b : FactSet) (root_a root_b : Bytes) (signer : ReceiptSigner)
      → Commutes c
      → HexRoundTrips c
      → PrintsDigits c
      → HashesTo32 c
      → SignsSoundly c
      → load_fact_set files path_a ≡ ok a
      → load_fact_set files path_b ≡ ok b
      → length a.ids ≤ max_set_size
      → length b.ids ≤ max_set_size
      → TellsApart secret_b secret_a a.ids b.ids
      → exists out ≡ true
      → c.hex_decode root_a_hex ≡ some root_a
      → c.hex_decode root_b_hex ≡ some root_b
      → length root_a ≡ 32
      → length root_b ≡ 32
      → signer_of random key_seed ≡ ok signer
      → ReadsBack j (overlap_receipt signer root_a root_b a b)
      → (effects receipt_effects : List Effect) × (cmd_intersect secret_a secret_b files path_a
            path_b false
            (some out)
          ≡ ok effects)
        × (cmd_receipt_sign random exists
              (perform effects files)
              root_a_hex
              root_b_hex
              out
              (ascii "intersection")
              key_seed
              (some receipt_out)
            ≡ ok receipt_effects)
        × (cmd_receipt_verify
              (perform receipt_effects (perform effects files))
              receipt_out
              (some root_a_hex)
              (some root_b_hex)
            ≡ ok (overlap_receipt signer root_a root_b a b))
  unfolding cmd_receipt_sign cmd_receipt_verify parse_result ids_if_exists emit decode_arg read_json
      read_to_string check_receipt parse_mode
  intersect_sign_verify sa sb random exists files path_a path_b out receipt_out ra_hex rb_hex
        key_seed a b root_a root_b signer comm reads digits hashes sound ea eb la lb apart there
        dec_a dec_b size_a size_b signer_is back =
      let (effects, made, loads) =
        cmd_intersect-load sa sb files path_a path_b out a b comm reads digits hashes ea eb la lb
          apart in
      let receipt = overlap_receipt signer root_a root_b a b in
      let content = j.to_string_pretty receipt in
      (
        effects,
        write_file receipt_out content ∷ [],
        made,
        ground (
          arith,
          loads,
          there,
          dec_a,
          dec_b,
          size_a,
          size_b,
          signer_is,
          eqb_refl (ascii "intersection"),
        ),
        ground (
          arith,
          read-write receipt_out content (perform effects files),
          back,
          dec_a,
          dec_b,
          size_a,
          size_b,
          signed_verifies sound signer root_a root_b
              (result_of (overlap a.ids b.ids) IntersectionMode.intersection)
              IntersectionMode.intersection,
        ),
      )
