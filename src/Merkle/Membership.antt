-- ===== src/Merkle/Membership.antt =====
-- `verify_merkle_proof` against the root that `offchain_merkle::root` builds from the payouts of an
-- epoch (programs/cols/src/utils.rs).
use kolz_protocol.Base.{
  suc, ◌≤◌, ◌≡◌, refl, sym, ap, ◌∙◌, subst, ◌⊎◌, inl, inr, some, List, [], ◌∷◌, ◌++◌, map, true,
  length, head?, In, In-append_left, arith,
}
use kolz_protocol.Bytes.{Bytes}
use kolz_protocol.Bytes.Order.{bytes_eq→≡}
use kolz_protocol.Merkle.{
  compute_distribution_leaf, rebuild_root, verify_merkle_proof, build_levels, build_tree, root,
}
use kolz_protocol.Merkle.Forest.{
  top, Tree, tip, tips, all_tips, grow, root_of, preimages, length-grow, top-build_levels,
  all_tips-grow,
}
use kolz_protocol.Merkle.Soundness.{AllLength32, Clash, verifier_preimages, rebuild_root-tips}
use kolz_protocol.Merkle.Entries.{
  Entry, IsTyped, AllTyped, entry_preimage, length-leaf_preimage, entry_preimage_injective,
}

-- The leaf of an entry.
unfoldable pub entry_leaf : (Bytes → Bytes) → Entry → Bytes
unfolding compute_distribution_leaf
entry_leaf keccak e = compute_distribution_leaf keccak e.holder e.epoch e.amount

all_preimages : (Bytes → Bytes) → List Tree → List Bytes
all_preimages keccak [] = []
all_preimages keccak (t ∷ ts) = preimages keccak t ++ all_preimages keccak ts

entry_tip : Entry → Tree
entry_tip e = tip (entry_preimage e)

-- The strings that the builder hashes for an epoch's entries, the leaves' included.
pub builder_preimages : (Bytes → Bytes) → List Entry → List Bytes
unfolding all_preimages entry_tip
builder_preimages keccak entries =
    all_preimages keccak (grow (length entries) (map entry_tip entries))

leaves-roots :
    (keccak : Bytes → Bytes) (entries : List Entry)
    → map (root_of keccak) (map entry_tip entries) ≡ map (entry_leaf keccak) entries
unfolding root_of entry_tip entry_leaf
leaves-roots keccak [] = refl
leaves-roots keccak (e ∷ es) = ap (◌∷◌ (entry_leaf keccak e)) (leaves-roots keccak es)

length-leaves :
    (keccak : Bytes → Bytes) (entries : List Entry)
    → length (map (entry_leaf keccak) entries) ≡ length entries
length-leaves keccak [] = refl
length-leaves keccak (e ∷ es) = ap suc (length-leaves keccak es)

length-entry_tip : (entries : List Entry) → length (map entry_tip entries) ≡ length entries
length-entry_tip [] = refl
length-entry_tip (e ∷ es) = ap suc (length-entry_tip es)

all_tips-entries :
    (entries : List Entry) → all_tips (map entry_tip entries) ≡ map entry_preimage entries
unfolding entry_tip
all_tips-entries [] = refl
all_tips-entries (e ∷ es) = ap (◌∷◌ (entry_preimage e)) (all_tips-entries es)

entries48 :
    (entries : List Entry)
    → AllTyped entries
    → (p : Bytes) → In p (map entry_preimage entries)
    → length p ≡ 48
entries48 [] t p m = absurd m
entries48 (e ∷ es) t p (inl h) = ap length h ∙ length-leaf_preimage e t.0
entries48 (e ∷ es) t p (inr m) = entries48 es t.1 p m

find_entry :
    (e : Entry) (entries : List Entry)
    → IsTyped e
    → AllTyped entries
    → In (entry_preimage e) (map entry_preimage entries)
    → In e entries
find_entry e [] s t m = m
find_entry e (d ∷ es) s t (inl h) = inl (entry_preimage_injective e d s t.0 h)
find_entry e (d ∷ es) s t (inr m) = inr (find_entry e es s t.1 m)

one_tree :
    (keccak : Bytes → Bytes) (ts : List Tree) (r : Bytes)
    → length ts ≤ 1
    → head? (map (root_of keccak) ts) ≡ some r
    → (t : Tree) × (ts ≡ t ∷ []) × (r ≡ root_of keccak t)
one_tree keccak [] r h e = cc
one_tree keccak (t ∷ []) r h e = (t, refl, cc)
one_tree keccak (t ∷ u ∷ ts) r h e = absurd (omega arith)

root-levels :
    (keccak : Bytes → Bytes) (leaves : List Bytes) (r : Bytes)
    → root keccak leaves ≡ some r
    → top (build_levels keccak (length leaves) leaves) ≡ some r
unfolding root build_tree
root-levels keccak [] r h = cc
root-levels keccak (a ∷ leaves) r h = h

root-forest :
    (keccak : Bytes → Bytes) (entries : List Entry) (r : Bytes)
    → root keccak (map (entry_leaf keccak) entries) ≡ some r
    → head? (map (root_of keccak) (grow (length entries) (map entry_tip entries))) ≡ some r
root-forest keccak entries r h =
    sym (top-build_levels keccak (length entries) (map entry_tip entries))
    ∙ subst (λ ls. top (build_levels keccak (length entries) ls) ≡ some r)
        (sym (leaves-roots keccak entries))
        (rw (length-leaves keccak entries) at
          (root-levels keccak (map (entry_leaf keccak) entries) r h))

module _ (keccak : Bytes → Bytes) (keccak32 : (b : Bytes) → length (keccak b) ≡ 32) where
  -- The claim for a forest that has come down to one tree over the entries.
  from_forest :
      (entries : List Entry) (e : Entry) (proof : List Bytes) (r : Bytes) (ts : List Tree)
      → AllTyped entries
      → IsTyped e
      → AllLength32 proof
      → ((p : Bytes) → In p (all_tips ts) → In p (map entry_preimage entries))
      → (t : Tree) × (ts ≡ t ∷ []) × (r ≡ root_of keccak t)
      → rebuild_root keccak (keccak (entry_preimage e)) proof ≡ r
      → In e entries
        ⊎ Clash keccak
            (all_preimages keccak ts)
            (entry_preimage e ∷ verifier_preimages keccak (keccak (entry_preimage e)) proof)
  unfolding all_preimages
  from_forest entries e proof r ts typed t ps covers (tree, single, re) h =
      elim (rebuild_root-tips keccak keccak32 tree (entry_preimage e) proof tips48
        (length-leaf_preimage e t) ps (h ∙ re)) [
          | inl m ↦ inl (find_entry e entries t typed (in_entries _ m))
          | inr (x, y, mx, my, ne, eq) ↦ inr (x, y, rw single (In-append_left x _ _ mx), my, ne, eq)
        ]
    where
      in_entries : (p : Bytes) → In p (tips tree) → In p (map entry_preimage entries)
      in_entries p m = covers p (rw single (In-append_left p (tips tree) [] m))

      tips48 : (p : Bytes) → In p (tips tree) → length p ≡ 48
      tips48 p m = entries48 entries typed p (in_entries p m)

-- The verifier accepts a typed entry and a typed proof against the root of the leaves of a list of
-- typed entries only if the entry is in the list, or a string that the builder hashed and a
-- different one that the verifier hashed have one hash. The hash gives 32 bytes.
pub verify_sound :
    (keccak : Bytes → Bytes)
    → ((b : Bytes) → length (keccak b) ≡ 32)
    → (entries : List Entry) (e : Entry) (proof : List Bytes) (r : Bytes) → AllTyped entries
    → IsTyped e
    → AllLength32 proof
    → root keccak (map (entry_leaf keccak) entries) ≡ some r
    → verify_merkle_proof keccak (entry_leaf keccak e) proof r ≡ true
    → In e entries
      ⊎ Clash keccak
          (builder_preimages keccak entries)
          (entry_preimage e ∷ verifier_preimages keccak (entry_leaf keccak e) proof)
unfolding root build_tree verify_merkle_proof builder_preimages entry_leaf
verify_sound keccak keccak32 [] e proof r ts t ps er ev = cc
verify_sound keccak keccak32 (d ∷ ds) e proof r ts t ps er ev =
    let entries = d ∷ ds in
    let n = length entries in
    let forest = map entry_tip entries in
    from_forest keccak keccak32 entries e proof r (grow n forest) ts t ps
      (λ p m. subst (In p) (all_tips-entries entries) (all_tips-grow n forest p m))
      (one_tree keccak (grow n forest) r
        (length-grow keccak n forest (omega (arith, length-entry_tip entries)))
        (root-forest keccak entries r er))
      (bytes_eq→≡ _ r ev)
