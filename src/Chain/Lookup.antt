-- ===== src/Chain/Lookup.antt =====
-- Reading the account store after a write.
use kolz_protocol.Base.{◌≡◌, refl, some, [], ◌∷◌, if◌then◌else◌, arith}
use kolz_protocol.Bytes.{Pubkey, bytes_eq}
use kolz_protocol.Bytes.Order.{bytes_eq_refl, bytes_eq→≡}
use kolz_protocol.Chain.{Account, Store, lookup, insert}

pub lookup-insert :
    (key k : Pubkey) (account : Account) (store : Store)
    → lookup k (insert key account store)
      ≡ (if bytes_eq key k then some account else lookup k store)
unfolding lookup insert
lookup-insert key k account [] = refl
lookup-insert key k account ((j, old) ∷ store) = ground (
  arith,
  bytes_eq→≡ j key,
  bytes_eq→≡ j k,
  bytes_eq→≡ key k,
  bytes_eq_refl k,
  lookup-insert key k account store,
)
