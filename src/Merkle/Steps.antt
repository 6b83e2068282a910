-- ===== src/Merkle/Steps.antt =====
-- One level of `offchain_merkle::build_tree` in programs/cols/src/utils.rs.
use kolz_protocol.Base.{
  ℕ, zero, suc, ◌+◌, ◌/◌, ◌≡◌, refl, Option, none, some, List, [], ◌∷◌, length, get_elem?, arith,
}
use kolz_protocol.Bytes.{Bytes}
use kolz_protocol.Bytes.Order.{bytes_le_total, bytes_le_antisymm}
use kolz_protocol.Merkle.{pair_preimage, next_level, sibling_index}

pub pair_preimage_comm : (a b : Bytes) → pair_preimage a b ≡ pair_preimage b a
unfolding pair_preimage
pair_preimage_comm a b = ground (arith, bytes_le_total a b, bytes_le_antisymm a b)

half_two : (i : ℕ) → suc (suc i) / 2 ≡ suc (i / 2)
half_two i = omega arith

sibling_index_two : (i : ℕ) → sibling_index (suc (suc i)) ≡ suc (suc (sibling_index i))
unfolding sibling_index
sibling_index_two i = ground arith

module _ (keccak : Bytes → Bytes) where
  -- What the verifier's round makes of a node and its sibling.
  abbrev pub parent : Bytes → Option Bytes → Bytes
  parent x none = x
  parent x (some s) = keccak (pair_preimage x s)

  pub next_level-parent :
      (i : ℕ) (x : Bytes) (level : List Bytes)
      → get_elem? level i ≡ some x
      → get_elem? (next_level keccak level) (i / 2)
        ≡ some (parent x (get_elem? level (sibling_index i)))
  unfolding next_level sibling_index
  next_level-parent i x [] e = cc
  next_level-parent zero x (a ∷ []) e = cc
  next_level-parent (suc i) x (a ∷ []) e = cc
  next_level-parent zero x (a ∷ b ∷ level) e = ground arith
  next_level-parent (suc zero) x (a ∷ b ∷ level) e = ground (arith, pair_preimage_comm a b)
  next_level-parent (suc (suc i)) x (a ∷ b ∷ level) e =
      rw (half_two i, sibling_index_two i) (next_level-parent i x level e)

  -- A level that is not the root shrinks, and none becomes empty.
  pub length-next_level :
      (level : List Bytes) → length (next_level keccak level) ≡ (length level + 1) / 2
  unfolding next_level
  length-next_level [] = refl
  length-next_level (a ∷ []) = refl
  length-next_level (a ∷ b ∷ level) = omega (arith, length-next_level level)
