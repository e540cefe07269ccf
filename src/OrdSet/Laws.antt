-- ===== src/OrdSet/Laws.antt =====
-- The set operations keep the order, and a set is determined by its members.
use blind_overlap.Prelude.{
  ◌≡◌, refl, ap, sym, ◌∙◌, Bool, true, false, ◌||◌, List, [], ◌∷◌, arith, Bool-cases, inl, inr,
  subst, ap₂,
}
use mathlib.Core.Bool.{false≢true}
use blind_overlap.Order.{Order, same, same_refl, eq_of_same, asymm}
use blind_overlap.OrdSet.{insert, contains, collect, After, IsAscending}

module _ {ℓ} {A : Type ℓ} ⦃o : Order A⦄ where
  After-insert : (a b : A) (xs : List A) → o.before a b ≡ true → After a xs → After a (insert b xs)
  unfolding insert
  After-insert a b [] h k = (h, tt)
  After-insert a b (x ∷ xs) h k = ground (arith, After-insert a b xs)

  After-trans : (a b : A) (xs : List A) → o.before a b ≡ true → After b xs → After a xs
  After-trans a b [] h k = tt
  After-trans a b (x ∷ xs) h k = (o.trans a b x h k.0, After-trans a b xs h k.1)

  pub insert-IsAscending : (a : A) (xs : List A) → IsAscending xs → IsAscending (insert a xs)
  unfolding insert
  insert-IsAscending a [] h = (tt, tt)
  insert-IsAscending a (x ∷ xs) h =
      ground (arith, After-trans a x xs, After-insert x a xs, insert-IsAscending a xs)

  pub collect-IsAscending : (xs : List A) → IsAscending (collect xs)
  unfolding collect
  collect-IsAscending [] = tt
  collect-IsAscending (x ∷ xs) = insert-IsAscending x (collect xs) (collect-IsAscending xs)

  same-cases : (a b c : A) → same o a b ≡ true → same o c a ≡ same o c b
  same-cases a b c h = ap (same o c) (eq_of_same o a b h)

  pub contains-insert :
      (a b : A) (xs : List A) → contains b (insert a xs) ≡ (same o b a || contains b xs)
  unfolding insert contains
  contains-insert a b [] = ground arith
  contains-insert a b (x ∷ xs) = ground (arith, contains-insert a b xs, same-cases a x b)

  -- Collecting into a set keeps exactly the members.
  pub contains-collect : (a : A) (xs : List A) → contains a (collect xs) ≡ contains a xs
  unfolding collect contains
  contains-collect a [] = refl
  contains-collect a (x ∷ xs) =
      contains-insert x a (collect xs) ∙ ap (◌||◌ (same o a x)) (contains-collect a xs)

  After-contains : (a b : A) (xs : List A) → After a xs → contains b xs ≡ true → o.before a b ≡ true
  unfolding contains
  After-contains a b [] h m = cc
  After-contains a b (x ∷ xs) h m = ground (arith, After-contains a b xs, eq_of_same o b x)

  contains-head :
      (a b : A) (xs : List A) → o.before a b ≡ true → After b xs → contains a (b ∷ xs) ≡ false
  unfolding contains
  contains-head a b [] h k = ground (arith, asymm o a b)
  contains-head a b (x ∷ xs) h k =
      ground (arith, o.trans a b x, asymm o a b, contains-head a b xs h k.1)

  not-contains-After : (a : A) (xs : List A) → After a xs → contains a xs ≡ false
  not-contains-After a xs h = elim (Bool-cases (contains a xs)) [
    | inl m ↦ ground (arith, o.irrefl a, After-contains a a xs h m)
    | inr n ↦ n
  ]

  -- The heads of two ascending lists with the same members are equal.
  same_heads :
      (x y : A) (xs ys : List A)
      → After x xs
      → After y ys
      → ((a : A) → contains a (x ∷ xs) ≡ contains a (y ∷ ys))
      → x ≡ y
  same_heads x y xs ys p q h = eq_of_same o x y (go (o.before x y) (o.before y x) refl refl)
    where
      head_in : (z : A) (zs : List A) → contains z (z ∷ zs) ≡ true
      head_in z zs = unfold contains in ground (arith, same_refl o z)

      go : (b c : Bool) → o.before x y ≡ b → o.before y x ≡ c → same o x y ≡ true
      go true c e f =
          absurd (false≢true (sym (contains-head x y ys e q) ∙ sym (h x) ∙ head_in x xs))
      go false true e f = absurd (false≢true (sym (contains-head y x xs f p) ∙ h y ∙ head_in y ys))
      go false false e f = ground arith

  same_tails :
      (x a : A) (xs ys : List A)
      → After x xs
      → After x ys
      → contains a (x ∷ xs) ≡ contains a (x ∷ ys)
      → contains a xs ≡ contains a ys
  unfolding contains
  same_tails x a xs ys p q h = elim (Bool-cases (same o a x)) [
    | inl e ↦
        subst (λ z. contains z xs ≡ contains z ys) (sym (eq_of_same o a x e))
          (not-contains-After x xs p ∙ sym (not-contains-After x ys q))
    | inr e ↦ ground (arith, e, h)
  ]

  -- Two ascending lists with the same members are the same list.
  pub ascending_ext :
      (xs ys : List A)
      → IsAscending xs
      → IsAscending ys
      → ((a : A) → contains a xs ≡ contains a ys)
      → xs ≡ ys
  ascending_ext [] [] p q h = refl
  ascending_ext [] (y ∷ ys) p q h =
      absurd (false≢true (unfold contains in ground (arith, h y, same_refl o y)))
  ascending_ext (x ∷ xs) [] p q h =
      absurd (false≢true (unfold contains in ground (arith, h x, same_refl o x)))
  ascending_ext (x ∷ xs) (y ∷ ys) p q h =
      let e : x ≡ y = same_heads x y xs ys p.0 q.0 h in
      let q' : After x ys = subst (λ z. After z ys) (sym e) q.0 in
      let h' : (a : A) → contains a (x ∷ xs) ≡ contains a (x ∷ ys) =
        λ a. h a ∙ ap (λ z. contains a (z ∷ ys)) (sym e) in
      ap₂ (◌∷◌) e (ascending_ext xs ys p.1 q.1 (λ a. same_tails x a xs ys p.0 q' (h' a)))

  insert-last : (a : A) (xs : List A) → After a xs → insert a xs ≡ a ∷ xs
  unfolding insert
  insert-last a [] h = refl
  insert-last a (x ∷ xs) h = ground arith

  -- Collecting an ascending list changes nothing.
  collect_of_ascending : (xs : List A) → IsAscending xs → collect xs ≡ xs
  unfolding collect
  collect_of_ascending [] h = refl
  collect_of_ascending (x ∷ xs) h =
      ap (insert x) (collect_of_ascending xs h.1) ∙ insert-last x xs h.0
