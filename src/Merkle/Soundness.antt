-- ===== src/Merkle/Soundness.antt =====
-- The walk of `verify_merkle_proof` (programs/cols/src/utils.rs) through a tree that was built.
use kolz_protocol.Base.{
  ◌≡◌, refl, sym, ap, subst, ◌≢◌, ◌⊎◌, inl, inr, List, [], ◌∷◌, length, In, In-append_left,
  In-append_right, length-append, append-injective, arith,
}
use kolz_protocol.Bytes.{Bytes}
use kolz_protocol.Bytes.Order.{bytes_cases}
use kolz_protocol.Merkle.{pair_preimage, rebuild_root, hash_pair}
use kolz_protocol.Merkle.Forest.{Tree, tip, node, tips, root_of, preimages}

-- The type `[[u8; 32]]` of a proof.
abbrev pub AllLength32 : List Bytes → Type 0
AllLength32 [] = Unit {0}
AllLength32 (b ∷ bs) = (length b ≡ 32) × AllLength32 bs

-- Two byte strings, one from each list, that differ and have one hash.
abbrev pub Clash : (Bytes → Bytes) → List Bytes → List Bytes → Type 0
Clash keccak xs ys = (x : Bytes) × (y : Bytes) × In x xs × In y ys × (x ≢ y) × (keccak x ≡ keccak y)

length-pair_preimage :
    (a b : Bytes) → length a ≡ 32 → length b ≡ 32 → length (pair_preimage a b) ≡ 64
unfolding pair_preimage
length-pair_preimage a b p q = ground (arith, length-append a b, length-append b a)

-- A node's preimage shows its two children.
pair_preimage_left :
    (a b c d : Bytes)
    → length a ≡ 32
    → length b ≡ 32
    → length c ≡ 32
    → length d ≡ 32
    → pair_preimage a b ≡ pair_preimage c d
    → (a ≡ c) ⊎ (a ≡ d)
unfolding pair_preimage
pair_preimage_left a b c d p q r s h = ground (
  arith,
  append-injective a b c d,
  append-injective a b d c,
  append-injective b a c d,
  append-injective b a d c,
)

module _ (keccak : Bytes → Bytes) where
  -- The strings that the verifier hashes above the leaf.
  unfoldable pub verifier_preimages : Bytes → List Bytes → List Bytes
  verifier_preimages current [] = []
  verifier_preimages current (sibling ∷ proof) =
      pair_preimage current sibling
      ∷ verifier_preimages (keccak (pair_preimage current sibling)) proof

  module _ (keccak32 : (b : Bytes) → length (keccak b) ≡ 32) where
    length-root_of : (t : Tree) → length (root_of keccak t) ≡ 32
    unfolding root_of hash_pair
    length-root_of (tip p) = keccak32 p
    length-root_of (node l r) = keccak32 _

    -- `u` stands in `t`.
    abbrev pub Within : Tree → Tree → Type 0
    Within u t =
        ((x : Bytes) → In x (preimages keccak u) → In x (preimages keccak t))
        × ((p : Bytes) → In p (tips u) → In p (tips t))

    descend :
        (t u : Tree) (c : Bytes) (s : Bytes) (rest : List Bytes)
        → ((p : Bytes) → In p (tips t) → length p ≡ 48)
        → length c ≡ 32
        → length s ≡ 32
        → Within u t
        → keccak (pair_preimage c s) ≡ root_of keccak u
        → ((v : Tree) × (c ≡ root_of keccak v) × Within v t)
          ⊎ Clash keccak (preimages keccak t) (pair_preimage c s ∷ rest)
    unfolding root_of preimages hash_pair
    descend t (tip q) c s rest tips48 lc ls w h = inr (
      q,
      pair_preimage c s,
      w.0 q (inl refl),
      inl refl,
      λ e.
          absurd (
            omega
              (arith, ap length e, tips48 q (w.1 q (inl refl)), length-pair_preimage c s lc ls)),
      sym h,
    )
    descend t (node l r) c s rest tips48 lc ls w h =
        elim (bytes_cases (pair_preimage (root_of keccak l) (root_of keccak r))
          (pair_preimage c s)) [
            | inr differ ↦ inr (_, _, w.0 _ (inl refl), inl refl, differ, sym h)
            | inl same ↦
                elim (pair_preimage_left c s _ _ lc ls (length-root_of l) (length-root_of r)
                  (sym same)) [
                    | inl left ↦ inl (
                      l,
                      left,
                      (
                        λ x m. w.0 x (inr (In-append_left x _ _ m)),
                        λ p m. w.1 p (In-append_left p _ _ m),
                      ),
                    )
                    | inr right ↦ inl (
                      r,
                      right,
                      (
                        λ x m. w.0 x (inr (In-append_right x (preimages keccak l) _ m)),
                        λ p m. w.1 p (In-append_right p (tips l) _ m),
                      ),
                    )
                  ]
          ]

    -- A node from which a proof leads to the root of `t` stands in `t`.
    rebuild_root-Within :
        (t : Tree) (c : Bytes) (proof : List Bytes)
        → ((p : Bytes) → In p (tips t) → length p ≡ 48)
        → length c ≡ 32
        → AllLength32 proof
        → rebuild_root keccak c proof ≡ root_of keccak t
        → ((v : Tree) × (c ≡ root_of keccak v) × Within v t)
          ⊎ Clash keccak (preimages keccak t) (verifier_preimages c proof)
    unfolding rebuild_root verifier_preimages
    rebuild_root-Within t c [] tips48 lc ls h = inl (t, h, (λ x m. m, λ p m. m))
    rebuild_root-Within t c (s ∷ proof) tips48 lc ls h =
        elim (rebuild_root-Within t (keccak (pair_preimage c s)) proof tips48 (keccak32 _) ls.1 h) [
          | inl (u, e, w) ↦ descend t u c s _ tips48 lc ls.0 w e
          | inr (x, y, mx, my, ne, e) ↦ inr (x, y, mx, inr my, ne, e)
        ]

    -- The same from a leaf's hash: the leaf is a tip of `t`.
    pub rebuild_root-tips :
        (t : Tree) (q : Bytes) (proof : List Bytes)
        → ((p : Bytes) → In p (tips t) → length p ≡ 48)
        → length q ≡ 48
        → AllLength32 proof
        → rebuild_root keccak (keccak q) proof ≡ root_of keccak t
        → In q (tips t)
          ⊎ Clash keccak (preimages keccak t) (q ∷ verifier_preimages (keccak q) proof)
    unfolding root_of preimages hash_pair
    rebuild_root-tips t q proof tips48 lq ls h =
        elim (rebuild_root-Within t (keccak q) proof tips48 (keccak32 q) ls h) [
          | inl (u, e, w) ↦ at_node u e w
          | inr (x, y, mx, my, ne, e) ↦ inr (x, y, mx, inr my, ne, e)
        ]
      where
        at_node :
            (u : Tree)
            → keccak q ≡ root_of keccak u
            → Within u t
            → In q (tips t)
              ⊎ Clash keccak (preimages keccak t) (q ∷ verifier_preimages (keccak q) proof)
        at_node (tip p) e w = elim (bytes_cases p q) [
          | inl same ↦ inl (subst (λ b. In b (tips t)) same (w.1 p (inl refl)))
          | inr differ ↦ inr (p, q, w.0 p (inl refl), inl refl, differ, sym e)
        ]
        at_node (node l r) e w = inr (
          pair_preimage (root_of keccak l) (root_of keccak r),
          q,
          w.0 _ (inl refl),
          inl refl,
          λ same. absurd (
              omega (
                arith,
                lq,
                ap length same,
                length-pair_preimage _ _ (length-root_of l) (length-root_of r),
              )),
          sym e,
        )
