-- ===== src/Padding.antt =====
-- crates/blindoverlap/src/padding.rs: padding lists to a target size by keyed dummies.
pub mod Laws
use blind_overlap.Prelude.{
  ℕ, zero, suc, ◌+◌, ◌-◌, ◌*◌, Bool, List, [], ◌∷◌, ◌++◌, length, take, ltb, leb, ◌==◌,
  if◌then◌else◌, Result, ok, err,
}
use blind_overlap.Bytes.{Bytes, ascii}
use blind_overlap.Bytes.Encoding.{to_le_bytes}
use blind_overlap.Crypto.{Crypto}
use blind_overlap.FactSet.{FactId}
use blind_overlap.Protocol.{MaskedElement}

pub data PaddingError : Type 0 where
  target_too_small : (current target : ℕ) → PaddingError
  target_too_large : (target maximum : ℕ) → PaddingError

pub record PaddingConfig : Type 0 where
  pub target_size : ℕ
  pub padding_secret : Bytes

abbrev pub padding_domain : Bytes
padding_domain = ascii "BlindOverlap:Padding:v1"

module _ ⦃c : Crypto⦄ where
  -- `(from..from + count).map(..)` over one keyed prefix.
  pub dummies : Bytes → Bytes → ℕ → ℕ → List Bytes
  dummies key prefix from zero = []
  dummies key prefix from (suc count) =
      c.hmac_sha256 key (prefix ++ to_le_bytes 8 from) ∷ dummies key prefix (from + 1) count

  pub generate_dummy_fact_ids : Bytes → Bytes → ℕ → List FactId
  unfolding dummies
  generate_dummy_fact_ids secret context count =
      dummies secret (padding_domain ++ (ascii ":dummy_ids:" ++ context)) 0 count

  pub generate_dummy_masked_elements : Bytes → Bytes → ℕ → List MaskedElement
  unfolding dummies
  generate_dummy_masked_elements secret context count =
      dummies secret (padding_domain ++ (ascii ":masked_elements:" ++ context)) 0 count

  pub pad_fact_ids : List FactId → PaddingConfig → Bytes → Result PaddingError (List FactId)
  pad_fact_ids fact_ids config context =
      if ltb config.target_size (length fact_ids)
      then err (target_too_small (length fact_ids) config.target_size)
      else ok (
          fact_ids
          ++ generate_dummy_fact_ids config.padding_secret context
              (config.target_size - length fact_ids))

  unfoldable pub pad_masked_elements :
      List MaskedElement → PaddingConfig → Bytes → Result PaddingError (List MaskedElement)
  pad_masked_elements elements config context =
      if ltb config.target_size (length elements)
      then err (target_too_small (length elements) config.target_size)
      else ok (
          elements
          ++ generate_dummy_masked_elements config.padding_secret context
              (config.target_size - length elements))

pub strip_padding {ℓ} : {A : Type ℓ} → List A → ℕ → List A
strip_padding padded original_count = take original_count padded

-- `usize::next_power_of_two` for `n` of at most 2 ^ 63: doubling `p` until it reaches `n`.
pub double_until : ℕ → ℕ → ℕ → ℕ
double_until zero p n = p
double_until (suc fuel) p n = let next = double_until fuel (2 * p) n in if leb n p then p else next

pub next_power_of_two : ℕ → ℕ
next_power_of_two n = if n == 0 then 1 else double_until 63 1 n
