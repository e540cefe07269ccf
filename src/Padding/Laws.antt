-- ===== src/Padding/Laws.antt =====
-- Padding reaches the target, keeps the real items in front, and is undone by stripping.
use blind_overlap.Prelude.{
  ℕ, zero, suc, ◌+◌, ◌-◌, ◌*◌, ◌^◌, ◌≤◌, ◌<◌, ◌≡◌, refl, ap, List, ◌++◌, arith, length, ltb,
  length-append, take-append, leb, ok, err, Bool-cases, inl, inr,
}
use native.Mathlib.Nat.{pow-suc}
use blind_overlap.Bytes.{Bytes, ascii}
use blind_overlap.Crypto.{Crypto}
use blind_overlap.Padding.{
  target_too_small, padding_domain, PaddingConfig, dummies, generate_dummy_fact_ids,
  generate_dummy_masked_elements, pad_fact_ids, pad_masked_elements, strip_padding, double_until,
  next_power_of_two,
}

module _ ⦃c : Crypto⦄ where
  length-dummies :
      (key prefix : Bytes) (from count : ℕ) → length (dummies key prefix from count) ≡ count
  unfolding dummies
  length-dummies key prefix from zero = refl
  length-dummies key prefix from (suc count) = ap suc (length-dummies key prefix (from + 1) count)

  padded_length :
      (xs : List Bytes) (key prefix : Bytes) (target : ℕ)
      → length xs ≤ target
      → length (xs ++ dummies key prefix 0 (target - length xs)) ≡ target
  padded_length xs key prefix target h = omega (
    arith,
    length-append xs (dummies key prefix 0 (target - length xs)),
    length-dummies key prefix 0 (target - length xs),
  )

  pub length-pad_masked_elements :
      (xs : List Bytes) (config : PaddingConfig) (context : Bytes) (padded : List Bytes)
      → pad_masked_elements xs config context ≡ ok padded
      → length padded ≡ config.target_size
  unfolding pad_masked_elements generate_dummy_masked_elements
  length-pad_masked_elements xs config context padded e =
      elim (Bool-cases (ltb config.target_size (length xs))) [
        | inl small ↦ absurd (ground (arith, e, small))
        | inr enough ↦ ground (
          arith,
          e,
          enough,
          padded_length xs config.padding_secret
              (padding_domain ++ (ascii ":masked_elements:" ++ context)) config.target_size
              (ground (arith, enough)),
        )
      ]

  -- Padding either kind of list succeeds exactly up to the target size. Then the result has the
  -- target size, and stripping it to the original count gives the original list.
  pad-strip :
      (xs : List Bytes) (config : PaddingConfig) (context : Bytes)
      → (length xs ≤ config.target_size
          → (padded : List Bytes) × (pad_fact_ids xs config context ≡ ok padded)
            × (length padded ≡ config.target_size)
            × (strip_padding padded (length xs) ≡ xs))
        × (length xs ≤ config.target_size
            → (padded : List Bytes) × (pad_masked_elements xs config context ≡ ok padded)
              × (length padded ≡ config.target_size)
              × (strip_padding padded (length xs) ≡ xs))
        × (config.target_size < length xs
            → (pad_fact_ids xs config context
                ≡ err (target_too_small (length xs) config.target_size))
              × (pad_masked_elements xs config context
                  ≡ err (target_too_small (length xs) config.target_size)))
  unfolding pad_fact_ids pad_masked_elements generate_dummy_fact_ids generate_dummy_masked_elements
      strip_padding
  pad-strip xs config context =
      let count = config.target_size - length xs in
      let ids = generate_dummy_fact_ids config.padding_secret context count in
      let elements = generate_dummy_masked_elements config.padding_secret context count in
      (
        λ h. (
          xs ++ ids,
          ground arith,
          padded_length xs _ _ config.target_size h,
          take-append xs ids,
        ),
        λ h. (
          xs ++ elements,
          ground arith,
          padded_length xs _ _ config.target_size h,
          take-append xs elements,
        ),
        λ h. (ground arith, ground arith),
      )

-- From a power below twice `n`, enough doublings reach the least power that is `n` or more.
double_until_least :
    (fuel k n : ℕ)
    → 2 ^ k < 2 * n
    → n ≤ 2 ^ fuel * 2 ^ k
    → (j : ℕ) × (double_until fuel (2 ^ k) n ≡ 2 ^ j) × (n ≤ 2 ^ j) × (2 ^ j < 2 * n)
unfolding double_until
double_until_least zero k n below reach = (k, refl, omega arith, below)
double_until_least (suc fuel) k n below reach = elim (Bool-cases (leb n (2 ^ k))) [
  | inl enough ↦ (k, ground arith, ground arith, below)
  | inr more ↦
      let double : 2 * 2 ^ k ≡ 2 ^ suc k = omega (arith, pow-suc 2 k) in
      let (j, e, lo, hi) = double_until_least fuel (suc k) n (ground (arith, double)) (
        omega (
          arith,
          ap (λ (t : ℕ). 2 ^ fuel * t) double,
          ap (λ (t : ℕ). t * 2 ^ k) (pow-suc 2 fuel),
        )) in
      (j, ground (arith, double, e, more), lo, hi)
]

pow_pos : (n : ℕ) → 0 < 2 ^ n
pow_pos zero = omega arith
pow_pos (suc n) = omega (arith, pow-suc 2 n, pow_pos n)

-- No power of two lies strictly between a power and its double.
pow_gap : (j i : ℕ) → 2 ^ j < 2 * 2 ^ i → 2 ^ j ≤ 2 ^ i
pow_gap j zero h = omega arith
pow_gap zero (suc i) h = pow_pos (suc i)
pow_gap (suc j) (suc i) h = omega (arith, pow-suc 2 i, pow-suc 2 j, pow_gap j i)

-- For every `n` from 1 to 2 ^ 63 the result is the least power of two that is `n` or more; for 0 it
-- is 1.
pub next_power_of_two_least :
    (n : ℕ)
    → n ≤ 2 ^ 63
    → (j : ℕ) × (next_power_of_two n ≡ 2 ^ j) × (n ≤ 2 ^ j) × ((i : ℕ) → n ≤ 2 ^ i → 2 ^ j ≤ 2 ^ i)
unfolding next_power_of_two
next_power_of_two_least zero h = (0, refl, omega arith, λ i k. pow_pos i)
next_power_of_two_least (suc n) h =
    let (j, e, lo, hi) = double_until_least 63 0 (suc n) (omega arith) (omega arith) in
    (j, ground (arith, e), lo, λ i k. pow_gap j i (omega arith))
