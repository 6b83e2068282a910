-- ===== src/Merkle/Entries.antt =====
-- The payouts of an epoch, and the bytes that their leaves hash (`compute_distribution_leaf` in
-- programs/cols/src/utils.rs).
use kolz_protocol.Base.{
  ℕ, ◌^◌, ◌<◌, ◌≡◌, sym, ◌∙◌, List, [], ◌∷◌, ◌++◌, length, length-append, append-injective, arith,
}
use kolz_protocol.Bytes.{Bytes, Pubkey, to_le_bytes}
use kolz_protocol.Bytes.LittleEndian.{length-to_le_bytes, to_le_bytes_injective}
use kolz_protocol.Merkle.{leaf_preimage}

-- One payout of an epoch, as the leaf's preimage lists it.
pub record Entry : Type 0 where
  pub holder : Pubkey
  pub epoch : ℕ
  pub amount : ℕ

-- The types `Pubkey`, `u64` and `u64`.
pub record IsTyped (e : Entry) : Type 0 where
  pub key : length e.holder ≡ 32
  pub epoch_fits : e.epoch < 2 ^ 64
  pub amount_fits : e.amount < 2 ^ 64

abbrev pub AllTyped : List Entry → Type 0
AllTyped [] = Unit {0}
AllTyped (e ∷ es) = IsTyped e × AllTyped es

abbrev pub entry_preimage : Entry → Bytes
entry_preimage e = leaf_preimage e.holder e.epoch e.amount

pub length-leaf_preimage : (e : Entry) → IsTyped e → length (entry_preimage e) ≡ 48
unfolding leaf_preimage
length-leaf_preimage e t = omega (
  arith,
  t.key,
  length-append e.holder (to_le_bytes 8 e.epoch ++ to_le_bytes 8 e.amount),
  length-append (to_le_bytes 8 e.epoch) (to_le_bytes 8 e.amount),
  length-to_le_bytes 8 e.epoch,
  length-to_le_bytes 8 e.amount,
)

-- The preimage determines the entry.
pub entry_preimage_injective :
    (d e : Entry) → IsTyped d → IsTyped e → entry_preimage d ≡ entry_preimage e → d ≡ e
unfolding leaf_preimage
entry_preimage_injective d e s t h =
    record_eq keys.0 (to_le_bytes_injective 8 d.epoch e.epoch s.epoch_fits t.epoch_fits words.0)
      (to_le_bytes_injective 8 d.amount e.amount s.amount_fits t.amount_fits words.1)
  where
    keys :
        (d.holder ≡ e.holder)
        × (to_le_bytes 8 d.epoch ++ to_le_bytes 8 d.amount
            ≡ to_le_bytes 8 e.epoch ++ to_le_bytes 8 e.amount)
    keys =
        append-injective d.holder (to_le_bytes 8 d.epoch ++ to_le_bytes 8 d.amount) e.holder
          (to_le_bytes 8 e.epoch ++ to_le_bytes 8 e.amount) (s.key ∙ sym t.key) h

    words :
        (to_le_bytes 8 d.epoch ≡ to_le_bytes 8 e.epoch)
        × (to_le_bytes 8 d.amount ≡ to_le_bytes 8 e.amount)
    words =
        append-injective (to_le_bytes 8 d.epoch) _ (to_le_bytes 8 e.epoch) _
          (length-to_le_bytes 8 d.epoch ∙ sym (length-to_le_bytes 8 e.epoch)) keys.1

    record_eq : d.holder ≡ e.holder → d.epoch ≡ e.epoch → d.amount ≡ e.amount → d ≡ e
    record_eq p q r = λ i. record { holder = p i; epoch = q i; amount = r i }
