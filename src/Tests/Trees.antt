-- ===== src/Tests/Trees.antt =====
-- The tree of the scenario.
use kolz_protocol.Base.{◌≡◌, refl, ◌⊎◌, true, some, List, ◌∷◌, map, In}
use kolz_protocol.Bytes.{Bytes, bytes_eq, bytes_le, to_le_bytes}
use kolz_protocol.Merkle
use kolz_protocol.Merkle.Entries.{Entry}
use kolz_protocol.Merkle.Membership.{entry_leaf, builder_preimages}
use kolz_protocol.Tests.World
use kolz_protocol.Tests.World.{World, toy, toy_hash, length-toy_hash}
use kolz_protocol.Tests.Scenario
use kolz_protocol.Merkle.Completeness.{verify-proof_for}
use kolz_protocol.Merkle.Soundness.{Clash, verifier_preimages}
use kolz_protocol.Merkle.Entries.{entry_preimage}
use kolz_protocol.Merkle.Membership.{verify_sound}
use kolz_protocol.Tests.Payouts.{entries_typed, alice-IsTyped, proof_typed, root_built}

abbrev leaves : List Bytes
leaves = map (entry_leaf toy_hash) Scenario.entries

abbrev alice_entry : Entry
alice_entry = record { holder = Scenario.alice; epoch = 3; amount = 500 }

alice_proved :
    Merkle.verify_merkle_proof toy_hash
      (entry_leaf toy_hash alice_entry)
      Scenario.alice_proof
      Scenario.the_root
    ≡ true
unfolding Merkle.verify_merkle_proof Merkle.proof_for Merkle.root bytes_eq entry_leaf
    Merkle.compute_distribution_leaf Merkle.leaf_preimage Merkle.pair_preimage bytes_le to_le_bytes
    World.roll
alice_proved = refl

verify-proof_for_example :
    (r : Bytes) × (Merkle.root toy_hash leaves ≡ some r)
    × (Merkle.verify_merkle_proof toy_hash
          (entry_leaf toy_hash (record { holder = Scenario.kol_owner; epoch = 3; amount = 7 }))
          (Merkle.proof_for toy_hash leaves 2)
          r
        ≡ true)
verify-proof_for_example = verify-proof_for toy_hash leaves 2 _ refl

verify_sound_example :
    In alice_entry Scenario.entries
    ⊎ Clash toy_hash (builder_preimages toy_hash Scenario.entries) (
        entry_preimage alice_entry
        ∷ verifier_preimages toy_hash (entry_leaf toy_hash alice_entry) Scenario.alice_proof)
verify_sound_example =
    verify_sound toy_hash length-toy_hash Scenario.entries alice_entry Scenario.alice_proof
      Scenario.the_root entries_typed alice-IsTyped proof_typed root_built alice_proved
