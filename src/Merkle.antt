-- ===== src/Merkle.antt =====
-- The distribution tree: programs/cols/src/utils.rs, `compute_distribution_leaf`,
-- `verify_merkle_proof` and the module `offchain_merkle`. The hash (`keccak::hash`, of a package)
-- is a parameter. Every array of 32 bytes is a list; a buffer that is filled half by half is the
-- two halves appended.
pub mod Steps
pub mod Completeness
pub mod Forest
pub mod Entries
pub mod Soundness
pub mod Membership
pub mod Termination
use kolz_protocol.Base.{
  ℕ, zero, suc, ◌+◌, ◌-◌, ◌/◌, ◌%◌, Bool, Option, none, some, List, [], ◌∷◌, ◌++◌, ltb, ◌==◌,
  if◌then◌else◌, length, get_elem?, take, get_last?, head?,
}
use kolz_protocol.Bytes.{Bytes, Pubkey, bytes_eq, bytes_le, to_le_bytes}

-- The 48 bytes that a leaf hashes: the holder, the epoch and the amount.
unfoldable pub leaf_preimage : Pubkey → ℕ → ℕ → Bytes
leaf_preimage holder epoch amount = holder ++ (to_le_bytes 8 epoch ++ to_le_bytes 8 amount)

-- The 64 bytes that two siblings hash, the smaller first.
unfoldable pub pair_preimage : Bytes → Bytes → Bytes
pair_preimage a b = if bytes_le a b then a ++ b else b ++ a

-- The index of the other half of the pair.
unfoldable pub sibling_index : ℕ → ℕ
sibling_index idx = if idx % 2 == 0 then idx + 1 else idx - 1

module _ (keccak : Bytes → Bytes) where
  unfoldable pub compute_distribution_leaf : Pubkey → ℕ → ℕ → Bytes
  compute_distribution_leaf holder epoch amount = keccak (leaf_preimage holder epoch amount)

  -- The loop of the verifier, over the siblings.
  unfoldable pub rebuild_root : Bytes → List Bytes → Bytes
  rebuild_root current [] = current
  rebuild_root current (sibling ∷ proof) =
      rebuild_root (keccak (pair_preimage current sibling)) proof

  unfoldable pub verify_merkle_proof : Bytes → List Bytes → Bytes → Bool
  unfolding rebuild_root
  verify_merkle_proof leaf proof root = bytes_eq (rebuild_root leaf proof) root

  unfoldable pub hash_pair : Bytes → Bytes → Bytes
  hash_pair a b = keccak (pair_preimage a b)

  -- One round of the builder, over `current.chunks(2)`: an odd last node is carried up unhashed.
  unfoldable pub next_level : List Bytes → List Bytes
  unfolding hash_pair
  next_level [] = []
  next_level (a ∷ []) = a ∷ []
  next_level (a ∷ b ∷ rest) = hash_pair a b ∷ next_level rest

  -- `while current.len() > 1`, with the rounds bounded by fuel.
  unfoldable pub build_levels : ℕ → List Bytes → List (List Bytes)
  unfolding next_level
  build_levels zero current = current ∷ []
  build_levels (suc fuel) current =
      let rest = build_levels fuel (next_level current) in
      if ltb 1 (length current) then current ∷ rest else current ∷ []

  unfoldable pub build_tree : List Bytes → List (List Bytes)
  unfolding build_levels
  build_tree [] = []
  build_tree (a ∷ leaves) = build_levels (length (a ∷ leaves)) (a ∷ leaves)

  unfoldable pub root : List Bytes → Option Bytes
  unfolding build_tree
  root leaves = elim (get_last? (build_tree leaves)) [ none ↦ none | some level ↦ head? level ]

  -- The loop of `proof_for` over the levels below the root.
  unfoldable pub proof_from : List (List Bytes) → ℕ → List Bytes
  unfolding sibling_index
  proof_from [] idx = []
  proof_from (level ∷ levels) idx =
      let rest = proof_from levels (idx / 2) in
      elim (get_elem? level (sibling_index idx)) [ some sibling ↦ sibling ∷ rest | none ↦ rest ]

  unfoldable pub proof_for : List Bytes → ℕ → List Bytes
  unfolding build_tree proof_from
  proof_for leaves index =
      let levels = build_tree leaves in proof_from (take (length levels - 1) levels) index
