-- ===== src/FactSet.antt =====
-- `FactSet` of crates/blindoverlap/src/fact_id.rs: a set of fact identifiers and its root.
pub mod Laws
pub mod Commitment
use blind_overlap.Prelude.{ℕ, Bool, List, [], ◌∷◌, ◌++◌, length, ◌==◌}
use blind_overlap.Bytes.{Bytes, ascii, bytes_order}
use blind_overlap.Bytes.Encoding.{to_le_bytes}
use blind_overlap.Crypto.{Crypto}
use blind_overlap.OrdSet

-- `[u8; 32]`
abbrev pub FactId : Type 0
FactId = Bytes

pub record FactSet : Type 0 where
  pub ids : List FactId
  pub root : Bytes

-- The bytes of all items, one after the other.
unfoldable pub concat : List Bytes → Bytes
concat [] = []
concat (b ∷ bs) = b ++ concat bs

-- What `compute_set_root` feeds to the hasher.
unfoldable pub set_root_input : List FactId → Bytes
unfolding concat
set_root_input ids = ascii "BlindOverlap:SetRoot:v1" ++ (to_le_bytes 8 (length ids) ++ concat ids)

module _ ⦃c : Crypto⦄ where
  unfoldable pub compute_set_root : List FactId → Bytes
  compute_set_root ids = c.sha256 (set_root_input ids)

  pub empty : FactSet
  empty = record { ids = []; root = compute_set_root [] }

  unfoldable pub from_ids : List FactId → FactSet
  from_ids ids =
      let collected = OrdSet.collect ids in
      record { ids = collected; root = compute_set_root collected }

  unfoldable pub insert : FactSet → FactId → FactSet
  insert s id =
      let inserted = OrdSet.insert id s.ids in
      record { ids = inserted; root = compute_set_root inserted }

unfoldable pub len : FactSet → ℕ
len s = length s.ids

unfoldable pub is_empty : FactSet → Bool
is_empty s = length s.ids == 0

unfoldable pub contains : FactSet → FactId → Bool
contains s id = OrdSet.contains id s.ids
