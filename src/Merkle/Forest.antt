-- ===== src/Merkle/Forest.antt =====
-- The builder's levels (`offchain_merkle` in programs/cols/src/utils.rs) seen as trees, with the byte
-- strings that it hashes.
use kolz_protocol.Base.{
  ℕ, zero, suc, ◌+◌, ◌/◌, ◌≤◌, ◌≡◌, refl, ap, ◌∙◌, inl, inr, Option, none, some, List, [], ◌∷◌,
  ◌++◌, map, ltb, ltb→lt, if◌then◌else◌, length, get_last?, head?, In, In-append_left,
  In-append_right, In-append, arith, Bool-cases,
}
use kolz_protocol.Bytes.{Bytes}
use kolz_protocol.Merkle.{pair_preimage, hash_pair, next_level, build_levels}

-- A leaf is given by the bytes that it hashes.
pub data Tree : Type 0 where
  tip : Bytes → Tree
  node : Tree → Tree → Tree

-- The leaves of the trees of a forest, in order.
abbrev pub tips : Tree → List Bytes
tips (tip p) = p ∷ []
tips (node l r) = tips l ++ tips r

abbrev pub all_tips : List Tree → List Bytes
all_tips [] = []
all_tips (t ∷ ts) = tips t ++ all_tips ts

-- One round of the builder.
unfoldable pub pair_up : List Tree → List Tree
pair_up [] = []
pair_up (a ∷ []) = a ∷ []
pair_up (a ∷ b ∷ ts) = node a b ∷ pair_up ts

-- All its rounds.
unfoldable pub grow : ℕ → List Tree → List Tree
unfolding pair_up
grow zero ts = ts
grow (suc fuel) ts = let rest = grow fuel (pair_up ts) in if ltb 1 (length ts) then rest else ts

-- The node that stands last.
abbrev pub top : List (List Bytes) → Option Bytes
top levels = elim (get_last? levels) [ none ↦ none | some level ↦ head? level ]

module _ (keccak : Bytes → Bytes) where
  unfoldable pub root_of : Tree → Bytes
  root_of (tip p) = keccak p
  root_of (node l r) = hash_pair keccak (root_of l) (root_of r)

  -- Every byte string that is hashed to make a tree.
  unfoldable pub preimages : Tree → List Bytes
  unfolding root_of
  preimages (tip p) = p ∷ []
  preimages (node l r) = pair_preimage (root_of l) (root_of r) ∷ preimages l ++ preimages r

  map-pair_up : (ts : List Tree) → next_level keccak (map root_of ts) ≡ map root_of (pair_up ts)
  unfolding next_level pair_up root_of
  map-pair_up [] = refl
  map-pair_up (a ∷ []) = refl
  map-pair_up (a ∷ b ∷ ts) = ap (◌∷◌ (hash_pair keccak (root_of a) (root_of b))) (map-pair_up ts)

  length-map : (ts : List Tree) → length (map root_of ts) ≡ length ts
  length-map [] = refl
  length-map (t ∷ ts) = ap suc (length-map ts)

  length-pair_up : (ts : List Tree) → length (pair_up ts) ≡ (length ts + 1) / 2
  unfolding pair_up
  length-pair_up [] = refl
  length-pair_up (a ∷ []) = refl
  length-pair_up (a ∷ b ∷ ts) = omega (arith, length-pair_up ts)

  -- Enough rounds leave one tree.
  pub length-grow : (fuel : ℕ) (ts : List Tree) → length ts ≤ suc fuel → length (grow fuel ts) ≤ 1
  unfolding grow
  length-grow zero ts h = h
  length-grow (suc fuel) ts h = elim (Bool-cases (ltb 1 (length ts))) [
    | inl more ↦ rw more (
        length-grow fuel (pair_up ts) (omega (arith, ltb→lt 1 (length ts) more, length-pair_up ts)))
    | inr done ↦ rw done (ground arith)
  ]

  top-cons :
      (level : List Bytes) (fuel : ℕ) (next : List Bytes)
      → top (level ∷ build_levels keccak fuel next) ≡ top (build_levels keccak fuel next)
  unfolding build_levels
  top-cons level zero next = refl
  top-cons level (suc fuel) next = ground arith

  pub top-build_levels :
      (fuel : ℕ) (ts : List Tree)
      → top (build_levels keccak fuel (map root_of ts)) ≡ head? (map root_of (grow fuel ts))
  unfolding build_levels grow
  top-build_levels zero ts = refl
  top-build_levels (suc fuel) ts = elim (Bool-cases (ltb 1 (length ts))) [
    | inl more ↦
        rw (length-map ts, more, map-pair_up ts)
          (top-cons (map root_of ts) fuel (map root_of (pair_up ts))
            ∙ top-build_levels fuel (pair_up ts))
    | inr done ↦ rw (length-map ts, done) refl
  ]

all_tips-pair_up : (ts : List Tree) (p : Bytes) → In p (all_tips (pair_up ts)) → In p (all_tips ts)
unfolding pair_up
all_tips-pair_up [] p h = h
all_tips-pair_up (a ∷ []) p h = h
all_tips-pair_up (a ∷ b ∷ ts) p h = elim (In-append p (tips a ++ tips b) _ h) [
  | inl here ↦ elim (In-append p (tips a) (tips b) here) [
    | inl left ↦ In-append_left p (tips a) _ left
    | inr right ↦ In-append_right p (tips a) _ (In-append_left p (tips b) _ right)
  ]
  | inr later ↦
      In-append_right p (tips a) _ (In-append_right p (tips b) _ (all_tips-pair_up ts p later))
]

pub all_tips-grow :
    (fuel : ℕ) (ts : List Tree) (p : Bytes) → In p (all_tips (grow fuel ts)) → In p (all_tips ts)
unfolding grow
all_tips-grow zero ts p h = h
all_tips-grow (suc fuel) ts p h = elim (Bool-cases (ltb 1 (length ts))) [
  | inl more ↦ all_tips-pair_up ts p (all_tips-grow fuel (pair_up ts) p (rw more at h))
  | inr done ↦ rw done at h
]
