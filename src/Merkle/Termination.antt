-- ===== src/Merkle/Termination.antt =====
-- The loop `while current.len() > 1` of `build_tree` in programs/cols/src/utils.rs, without fuel.
use kolz_protocol.Base.{
  ℕ, zero, suc, ◌-◌, ◌^◌, ◌/◌, ◌≤◌, ◌<◌, ◌≡◌, ◌≢◌, refl, ap, List, [], ◌∷◌, length, take, arith,
}
use kolz_protocol.Bytes.{Bytes}
use kolz_protocol.Merkle.{next_level, build_levels, build_tree, proof_from, proof_for}
use kolz_protocol.Merkle.Steps.{length-next_level}
use native.Mathlib.Nat.{pow-suc}

module _ (keccak : Bytes → Bytes) where
  -- A run of the loop from a level to its end, with the levels that it pushes.
  pub data Runs : List Bytes → List (List Bytes) → Type 0 where
    ends : {current : List Bytes} → length current ≤ 1 → Runs current (current ∷ [])
    goes_round :
        {current : List Bytes} {levels : List (List Bytes)}
        → 1 < length current
        → Runs (next_level keccak current) levels
        → Runs current (current ∷ levels)

  build_levels-round :
      (fuel : ℕ) (a b : Bytes) (rest : List Bytes)
      → build_levels keccak (suc fuel) (a ∷ b ∷ rest)
        ≡ (a ∷ b ∷ rest) ∷ build_levels keccak fuel (next_level keccak (a ∷ b ∷ rest))
  unfolding build_levels
  build_levels-round fuel a b rest = ground arith

  build_levels-Runs :
      (fuel : ℕ) (current : List Bytes)
      → length current ≤ suc fuel
      → Runs current (build_levels keccak fuel current)
  unfolding build_levels
  build_levels-Runs zero current h = ends h
  build_levels-Runs (suc fuel) [] h = ends (omega arith)
  build_levels-Runs (suc fuel) (a ∷ []) h = ends (omega arith)
  build_levels-Runs (suc fuel) (a ∷ b ∷ rest) h = rw (build_levels-round fuel a b rest) (
      goes_round (omega arith) (
        build_levels-Runs fuel (next_level keccak (a ∷ b ∷ rest))
          (omega (arith, length-next_level keccak (a ∷ b ∷ rest)))))

  Runs-unique :
      {current : List Bytes} {x y : List (List Bytes)} → Runs current x → Runs current y → x ≡ y
  Runs-unique (ends h) (ends h') = refl
  Runs-unique (ends h) (goes_round h' r) = absurd (omega arith)
  Runs-unique (goes_round h r) (ends h') = absurd (omega arith)
  Runs-unique {current} (goes_round h r) (goes_round h' r') = ap (◌∷◌ current) (Runs-unique r r')

  -- From leaves that are not empty the loop of the builder ends, and the levels that it leaves are
  -- those of `build_tree` and no others.
  pub build_tree-Runs :
      (leaves : List Bytes)
      → leaves ≢ []
      → Runs leaves (build_tree keccak leaves)
        × ((levels : List (List Bytes)) → Runs leaves levels → levels ≡ build_tree keccak leaves)
  unfolding build_tree
  build_tree-Runs [] h = absurd (h refl)
  build_tree-Runs (a ∷ leaves) h =
      let run = build_levels-Runs (length (a ∷ leaves)) (a ∷ leaves) (omega arith) in
      (run, λ levels other. Runs-unique other run)

  Runs-length :
      {current : List Bytes} {levels : List (List Bytes)} (k : ℕ)
      → length current ≤ 2 ^ k
      → Runs current levels
      → length levels ≤ suc k
  Runs-length k h (ends e) = omega arith
  Runs-length zero h (goes_round e r) = absurd (omega arith)
  Runs-length {current} (suc k) h (goes_round e r) =
      let rest = Runs-length k (omega (arith, length-next_level keccak current, pow-suc 2 k)) r in
      omega arith

  length-proof_from :
      (levels : List (List Bytes)) (idx : ℕ) → length (proof_from keccak levels idx) ≤ length levels
  unfolding proof_from
  length-proof_from [] idx = omega arith
  length-proof_from (level ∷ levels) idx = ground (arith, length-proof_from levels (idx / 2))

  length-take : (n : ℕ) (levels : List (List Bytes)) → length (take n levels) ≤ n
  length-take zero levels = omega arith
  length-take (suc n) [] = omega arith
  length-take (suc n) (x ∷ levels) = omega (arith, length-take n levels)

  -- The proof of any leaf of a tree of at most 2 ^ k leaves has at most k siblings.
  pub length-proof_for :
      (leaves : List Bytes) (k i : ℕ)
      → length leaves ≤ 2 ^ k
      → length (proof_for keccak leaves i) ≤ k
  unfolding proof_for build_tree
  length-proof_for [] k i h = omega (arith, length-proof_from (take 0 []) i)
  length-proof_for (a ∷ leaves) k i h =
      let levels = build_tree keccak (a ∷ leaves) in
      let run =
        Runs-length k h (build_levels-Runs (length (a ∷ leaves)) (a ∷ leaves) (omega arith)) in
      omega (
        arith,
        run,
        length-proof_from (take (length levels - 1) levels) i,
        length-take (length levels - 1) levels,
      )
