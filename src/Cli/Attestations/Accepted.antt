-- ===== src/Cli/Attestations/Accepted.antt =====
-- What `attest-verify` accepts where a co-signature is asked for in vain.
use blind_overlap.Prelude.{ℕ, ◌≡◌, true, false, Option, some, arith}
use blind_overlap.Bytes.{Text}
use blind_overlap.Crypto.{Crypto}
use blind_overlap.Attestation.{OverlapAttestation, is_dual_signed}
use blind_overlap.Cli.Common.{Files, Serde, read_json, read_to_string}
use blind_overlap.Cli.Attestations.{check_co_signature, cmd_attest_verify}

module _ ⦃c : Crypto⦄ where
  -- An attestation without both parts of a co-signature: asking for the co-signature makes no
  -- difference to what `attest-verify` returns.
  cmd_attest_verify_without_co_signature :
      ⦃j : Serde OverlapAttestation⦄
      → (now : ℕ) (files : Files) (path text : Text) (issuer session : Option Text)
        (a : OverlapAttestation)
      → files path ≡ some text
      → j.from_str text ≡ some a
      → is_dual_signed a ≡ false
      → cmd_attest_verify now files path issuer session true
        ≡ cmd_attest_verify now files path issuer session false
  unfolding cmd_attest_verify check_co_signature read_json read_to_string
  cmd_attest_verify_without_co_signature now files path text issuer session a read parsed single =
      ground (arith, read, parsed, single)
