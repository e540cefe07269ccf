-- ===== src/FactSet/Commitment.antt =====
-- The root commits to the set: its preimage determines the identifiers.
use blind_overlap.Prelude.{
  ◌^◌, ◌<◌, ◌≡◌, refl, ap₂, sym, ◌∙◌, List, [], ◌∷◌, arith, length, All, String,
}
use blind_overlap.Bytes.{Bytes, ascii}
use blind_overlap.Bytes.Encoding.{
  to_le_bytes, length-to_le_bytes, to_le_bytes-injective, append-cancel,
}
use blind_overlap.Crypto.{Crypto}
use blind_overlap.FactSet.{FactId, FactSet, concat, set_root_input, compute_set_root}
use blind_overlap.FactSet.Laws.{IsValid}

-- Every identifier has its 32 bytes.
abbrev pub Is32 : Bytes → Type 0
Is32 b = length b ≡ 32

pub concat-injective :
    (xs ys : List Bytes)
    → All Is32 xs
    → All Is32 ys
    → length xs ≡ length ys
    → concat xs ≡ concat ys
    → xs ≡ ys
unfolding concat
concat-injective [] [] p q l e = refl
concat-injective [] (y ∷ ys) p q l e = absurd (omega arith)
concat-injective (x ∷ xs) [] p q l e = absurd (omega arith)
concat-injective (x ∷ xs) (y ∷ ys) p q l e =
    let split = append-cancel x y (concat xs) (concat ys) (p.0 ∙ sym q.0) e in
    ap₂ (◌∷◌) split.0 (concat-injective xs ys p.1 q.1 (omega arith) split.1)

-- The hashed bytes determine the identifiers, for sets of at most 2 ^ 64 - 1 identifiers.
set_root_input-injective :
    (xs ys : List FactId)
    → All Is32 xs
    → All Is32 ys
    → length xs < 2 ^ 64
    → length ys < 2 ^ 64
    → set_root_input xs ≡ set_root_input ys
    → xs ≡ ys
unfolding set_root_input
set_root_input-injective xs ys p q lx ly e =
    let body = append-cancel (ascii domain) (ascii domain) _ _ refl e in
    let parts =
      append-cancel (to_le_bytes 8 (length xs)) (to_le_bytes 8 (length ys)) (concat xs) (concat ys)
        (length-to_le_bytes 8 (length xs) ∙ sym (length-to_le_bytes 8 (length ys))) body.1 in
    concat-injective xs ys p q (to_le_bytes-injective 8 (length xs) (length ys) lx ly parts.0)
      parts.1
  where
    domain : String
    domain = "BlindOverlap:SetRoot:v1"

module _ ⦃c : Crypto⦄ where
  -- Unless the hash collides on the two sets, valid sets with one root are one set.
  pub root_commits :
      (s t : FactSet)
      → IsValid s
      → IsValid t
      → All Is32 s.ids
      → All Is32 t.ids
      → length s.ids < 2 ^ 64
      → length t.ids < 2 ^ 64
      → (c.sha256 (set_root_input s.ids) ≡ c.sha256 (set_root_input t.ids)
          → set_root_input s.ids ≡ set_root_input t.ids)
      → s.root ≡ t.root
      → s ≡ t
  unfolding compute_set_root
  root_commits s t p q ws wt ls lt collision_free e =
      let hashes = sym p.committed ∙ e ∙ q.committed in
      let ids = set_root_input-injective s.ids t.ids ws wt ls lt (collision_free hashes) in
      ground (arith, ids, e)
