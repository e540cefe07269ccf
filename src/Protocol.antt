-- ===== src/Protocol.antt =====
-- crates/blindoverlap/src/protocol.rs: the parties of the DH-based intersection, in one process.
pub mod Matching
pub mod Exactness
use blind_overlap.Prelude.{
  ℕ, suc, Bool, true, false, Option, none, some, List, [], ◌∷◌, ◌++◌, map, length, get_elem?, keep,
  ltb, if◌then◌else◌, Result, ok, err, ◌>>=◌,
}
use blind_overlap.Bytes.{Bytes, ascii, lex, bytes_order}
use blind_overlap.Bytes.Encoding.{to_le_bytes}
use blind_overlap.Crypto.{Crypto}
use blind_overlap.OrdSet
use blind_overlap.FactSet
use blind_overlap.FactSet.{FactId, FactSet}

abbrev pub max_set_size : ℕ
max_set_size = 4096

pub data PsiError : Type 0 where
  set_too_large : ℕ → PsiError

pub data IntersectionMode : Type 0 where
  intersection cardinality : IntersectionMode

pub data PsiResult : Type 0 where
  intersection : List FactId → Bytes → PsiResult
  cardinality : ℕ → PsiResult

-- `[u8; 32]`
abbrev pub MaskedElement : Type 0
MaskedElement = Bytes

pub record PsiParty : Type 0 where
  pub secret : Bytes
  pub fact_set : FactSet
  pub mode : IntersectionMode
  pub original_ids : List FactId

-- `ids.sort()`
place : FactId → List FactId → List FactId
place a [] = a ∷ []
place a (x ∷ xs) = let rest = place a xs in if lex x a then x ∷ rest else a ∷ x ∷ xs

unfoldable pub sort : List FactId → List FactId
unfolding place
sort [] = []
sort (x ∷ xs) = place x (sort xs)

-- `if let Some(id) = original_ids.get(idx) { ids.push(*id) }`, in front of what the later rounds push.
push_if_some : Option FactId → List FactId → List FactId
push_if_some none ids = ids
push_if_some (some id) ids = id ∷ ids

-- The loop over `our_elements_doubly_masked.iter().enumerate()`, from index `idx` on.
unfoldable pub matching_ids :
    List FactId → List MaskedElement → ℕ → List MaskedElement → List FactId
unfolding push_if_some
matching_ids original_ids their_set idx [] = []
matching_ids original_ids their_set idx (masked ∷ rest) =
    let ids = matching_ids original_ids their_set (suc idx) rest in
    if OrdSet.contains masked their_set then push_if_some (get_elem? original_ids idx) ids else ids

module _ ⦃c : Crypto⦄ where
  -- The body that `PsiParty::find_intersection` and `compute_intersection` of session.rs share.
  unfoldable pub compute_intersection :
      List MaskedElement → List MaskedElement → List FactId → IntersectionMode → PsiResult
  compute_intersection ours theirs original_ids IntersectionMode.cardinality =
      let their_set = OrdSet.collect theirs in
      PsiResult.cardinality (length (keep (λ m. OrdSet.contains m their_set) ours))
  compute_intersection ours theirs original_ids IntersectionMode.intersection =
      let their_set = OrdSet.collect theirs in
      let ids = sort (matching_ids original_ids their_set 0 ours) in
      PsiResult.intersection ids (FactSet.from_ids ids).root

  unfoldable pub commitment : PsiResult → Bytes
  commitment (PsiResult.intersection ids root) = root
  commitment (PsiResult.cardinality count) =
      c.sha256 (ascii "BlindOverlap:Cardinality:v1" ++ to_le_bytes 8 count)

  -- `secret` is what `StaticSecret::random_from_rng` draws.
  new_party : Bytes → FactSet → IntersectionMode → Result PsiError PsiParty
  unfolding FactSet.len
  new_party secret fact_set mode =
      if ltb max_set_size (FactSet.len fact_set)
      then err (set_too_large (FactSet.len fact_set))
      else ok (record {
        secret = secret;
        fact_set = fact_set;
        mode = mode;
        original_ids = fact_set.ids;
      })

  -- `self.secret.diffie_hellman(&hash_to_public_key(id)).to_bytes()`
  unfoldable pub mask : Bytes → FactId → MaskedElement
  mask secret id = c.diffie_hellman secret (c.x25519_public id)

  compute_masked_set : PsiParty → List MaskedElement
  unfolding mask
  compute_masked_set p = map (mask p.secret) p.original_ids

  unfoldable pub apply_mask : Bytes → List MaskedElement → List MaskedElement
  apply_mask secret received = map (c.diffie_hellman secret) received

  apply_mask_to_received : PsiParty → List MaskedElement → List MaskedElement
  unfolding apply_mask
  apply_mask_to_received p received = apply_mask p.secret received

  find_intersection : PsiParty → List MaskedElement → List MaskedElement → PsiResult
  find_intersection p ours theirs = compute_intersection ours theirs p.original_ids p.mode

  -- `PsiProtocol::intersect`, with the secrets that the two parties draw.
  unfoldable pub intersect :
      Bytes → Bytes → FactSet → FactSet → IntersectionMode → Result PsiError PsiResult
  unfolding new_party compute_masked_set apply_mask_to_received find_intersection
  intersect secret_a secret_b set_a set_b mode = do
    party_a ← new_party secret_a set_a mode
    party_b ← new_party secret_b set_b mode
    let masked_a = compute_masked_set party_a
    let masked_b = compute_masked_set party_b
    let doubly_masked_a = apply_mask_to_received party_b masked_a
    let doubly_masked_b = apply_mask_to_received party_a masked_b
    ok (find_intersection party_a doubly_masked_a doubly_masked_b)
