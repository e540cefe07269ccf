-- ===== src/Order.antt =====
-- `Ord` of the standard library: a strict total order, as an interface.
use blind_overlap.Prelude.{◌≡◌, Bool, true, false, not, ◌&&◌, subst, arith}

pub record Order {ℓ} (A : Type ℓ) : Type ℓ where
  pub before : A → A → Bool
  pub irrefl : (a : A) → before a a ≡ false
  pub trans : (a b c : A) → before a b ≡ true → before b c ≡ true → before a c ≡ true
  pub connected : (a b : A) → before a b ≡ false → before b a ≡ false → a ≡ b

module _ {ℓ} {A : Type ℓ} (o : Order A) where
  open o use {before, irrefl, trans, connected}

  -- Equality, as the order decides it.
  abbrev pub same : A → A → Bool
  same a b = not (before a b) && not (before b a)

  pub same_refl : (a : A) → same a a ≡ true
  same_refl a = ground (arith, irrefl a)

  pub eq_of_same : (a b : A) → same a b ≡ true → a ≡ b
  eq_of_same a b h = connected a b (ground arith) (ground arith)

  pub asymm : (a b : A) → before a b ≡ true → before b a ≡ false
  asymm a b h = ground (arith, irrefl a, trans a b a)

  pub same_of_eq : (a b : A) → a ≡ b → same a b ≡ true
  same_of_eq a b e = subst (λ z. same a z ≡ true) e (same_refl a)
