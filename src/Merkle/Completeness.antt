-- ===== src/Merkle/Completeness.antt =====
-- `offchain_merkle::proof_for` against `verify_merkle_proof` in programs/cols/src/utils.rs.
use kolz_protocol.Base.{
  ℕ, zero, suc, ◌-◌, ◌/◌, ◌≤◌, ◌≡◌, refl, inl, inr, Option, none, some, true, List, [], ◌∷◌, ltb,
  ltb→lt, length, get_elem?, take, get_last?, head?, arith, Bool-cases, Option-cases,
}
use kolz_protocol.Bytes.{Bytes}
use kolz_protocol.Bytes.Order.{bytes_eq_refl}
use kolz_protocol.Merkle.{
  verify_merkle_proof, rebuild_root, next_level, build_levels, build_tree, root, proof_from,
  proof_for, sibling_index,
}
use kolz_protocol.Merkle.Steps.{parent, next_level-parent, length-next_level}

-- The levels below the root, and the root.
abbrev below_root : List (List Bytes) → List (List Bytes)
below_root levels = take (length levels - 1) levels

abbrev top : List (List Bytes) → Option Bytes
top levels = elim (get_last? levels) [ none ↦ none | some level ↦ head? level ]

below_root-cons :
    (level next : List Bytes) (rest : List (List Bytes))
    → below_root (level ∷ next ∷ rest) ≡ level ∷ below_root (next ∷ rest)
below_root-cons level next rest =
    rw (suc_sub_one (suc (length rest)), suc_sub_one (length rest)) refl
  where
    suc_sub_one : (n : ℕ) → suc n - 1 ≡ n
    suc_sub_one n = omega arith

module _ (keccak : Bytes → Bytes) where
  -- A level's share of the proof leads the verifier to the node above.
  rebuild_root-proof_from :
      (x : Bytes) (level : List Bytes) (levels : List (List Bytes)) (i : ℕ)
      → rebuild_root keccak x (proof_from keccak (level ∷ levels) i)
        ≡ rebuild_root keccak
            (parent keccak x (get_elem? level (sibling_index i)))
            (proof_from keccak levels (i / 2))
  unfolding proof_from rebuild_root
  rebuild_root-proof_from x level levels i =
      elim (Option-cases (get_elem? level (sibling_index i))) [
        | inl e ↦ rw (e, proof_from) refl
        | inr (s, e) ↦ rw (e, proof_from) refl
      ]

  build_levels-cons :
      (fuel : ℕ) (level : List Bytes)
      → (rest : List (List Bytes)) × (build_levels keccak fuel level ≡ level ∷ rest)
  unfolding build_levels
  build_levels-cons zero level = ([], refl)
  build_levels-cons (suc fuel) level = elim (Bool-cases (ltb 1 (length level))) [
    | inl more ↦ (build_levels keccak fuel (next_level keccak level), rw more refl)
    | inr done ↦ ([], rw done refl)
  ]

  -- On a level of one node, the node is the top and the proof is empty.
  single :
      (level : List Bytes) (i : ℕ) (x : Bytes)
      → length level ≤ 1
      → get_elem? level i ≡ some x
      → head? level ≡ some (rebuild_root keccak x (proof_from keccak [] i))
  unfolding rebuild_root proof_from
  single [] i x h e = cc
  single (a ∷ []) zero x h e = e
  single (a ∷ []) (suc i) x h e = cc
  single (a ∷ b ∷ level) i x h e = absurd (omega arith)

  shrinks :
      (fuel : ℕ) (level : List Bytes)
      → length level ≤ suc (suc fuel)
      → ltb 1 (length level) ≡ true
      → length (next_level keccak level) ≤ suc fuel
  shrinks fuel level h more =
      omega (arith, ltb→lt 1 (length level) more, length-next_level keccak level)

  -- One level more below levels for which the claim holds.
  climb :
      (level : List Bytes) (i : ℕ) (x : Bytes) (above : List (List Bytes)) {next : List Bytes}
      → (rest : List (List Bytes)) × (above ≡ next ∷ rest)
      → top above
        ≡ some (
            rebuild_root keccak
              (parent keccak x (get_elem? level (sibling_index i)))
              (proof_from keccak (below_root above) (i / 2)))
      → top (level ∷ above)
        ≡ some (rebuild_root keccak x (proof_from keccak (below_root (level ∷ above)) i))
  climb level i x above {next} (rest, e) h = rw e (
      rw
        (
          below_root-cons level next rest,
          rebuild_root-proof_from x level (below_root (next ∷ rest)) i,
        )
        (rw e at h))

  -- From a node of a level, the proof out of the levels above leads to the top.
  rebuild_root-build_levels :
      (fuel : ℕ) (level : List Bytes) (i : ℕ) (x : Bytes)
      → length level ≤ suc fuel
      → get_elem? level i ≡ some x
      → top (build_levels keccak fuel level)
        ≡ some (
            rebuild_root keccak x
              (proof_from keccak (below_root (build_levels keccak fuel level)) i))
  unfolding build_levels
  rebuild_root-build_levels zero level i x h e = single level i x h e
  rebuild_root-build_levels (suc fuel) level i x h e = elim (Bool-cases (ltb 1 (length level))) [
    | inl more ↦ rw more (
        climb level i x (build_levels keccak fuel (next_level keccak level))
          (build_levels-cons fuel (next_level keccak level))
          (rebuild_root-build_levels fuel (next_level keccak level) (i / 2)
            (parent keccak x (get_elem? level (sibling_index i))) (shrinks fuel level h more)
            (next_level-parent keccak i x level e)))
    | inr done ↦ rw done (single level i x (ground arith) e)
  ]

-- The builder's proof for any leaf of a tree verifies against the tree's root.
pub verify-proof_for :
    (keccak : Bytes → Bytes) (leaves : List Bytes) (index : ℕ) (leaf : Bytes)
    → get_elem? leaves index ≡ some leaf
    → (r : Bytes) × (root keccak leaves ≡ some r)
      × (verify_merkle_proof keccak leaf (proof_for keccak leaves index) r ≡ true)
unfolding root build_tree verify_merkle_proof proof_for
verify-proof_for keccak [] index leaf e = cc
verify-proof_for keccak (a ∷ leaves) index leaf e = (
  rebuild_root keccak leaf (proof_for keccak (a ∷ leaves) index),
  rebuild_root-build_levels keccak (length (a ∷ leaves)) (a ∷ leaves) index leaf (omega arith) e,
  bytes_eq_refl _,
)
