-- ===== src/Program/History.antt =====
-- Histories of the program (programs/cols/src/lib.rs) from the empty store.
use kolz_protocol.Base.{◌≡◌, some, [], arith, subst}
use kolz_protocol.Runtime.{Runtime}
use kolz_protocol.Chain.{
  Chain, Account, config_account, pet_account, launch_account, king_account, distribution_account,
  holder_claim_account, lookup,
}
use kolz_protocol.Program.{Reach, here, next}
use kolz_protocol.Program.Throne
use kolz_protocol.Program.Accounts.{Evolves, AllSound, Evolves-refl}
use kolz_protocol.Program.Evolution.{IsKept, Step-IsKept}

some_injective : {x y : Account} → some x ≡ some y → x ≡ y
some_injective e = cc

Evolves-trans : (x y z : Account) → Evolves x y → Evolves y z → Evolves x z
Evolves-trans (config_account c) y z p q = subst (λ w. Evolves w z) p q
Evolves-trans (distribution_account d) y z p q = subst (λ w. Evolves w z) p q
Evolves-trans (holder_claim_account r) y z p q = subst (λ w. Evolves w z) p q
Evolves-trans (pet_account x) y z (p', e, p) q =
    let (p'', e', q') = subst (λ w. Evolves w z) e q in (p'', e', ground arith)
Evolves-trans (launch_account x) y z (l', e, p) q =
    let (l'', e', q') = subst (λ w. Evolves w z) e q in (l'', e', ground arith)
Evolves-trans (king_account x) y z (k', e, p) q =
    let (k'', e', q') = subst (λ w. Evolves w z) e q in
    (k'', e', Throne.Evolves-trans x k' k'' p q')

-- The store before the first instruction.
abbrev pub genesis : {Ext : Type 0} → Ext → Chain Ext
genesis ext = record { accounts = []; ext = ext }

module _ {Ext : Type 0} {rt : Runtime Ext} where
  pub Reach-IsKept :
      {chain chain' : Chain Ext}
      → Reach rt chain chain'
      → AllSound rt chain
      → IsKept rt chain chain'
  Reach-IsKept here valid = record {
    keeps = λ key old h. (old, h, Evolves-refl old);
    sound = valid;
  }
  Reach-IsKept (next r s) valid =
      let first = Reach-IsKept r valid in
      let second = Step-IsKept s first.sound in
      record {
        keeps = λ key old h.
            let (mid, found, e) = first.keeps key old h in
            let (new, found', e') = second.keeps key mid found in
            (new, found', Evolves-trans old mid new e e');
        sound = second.sound;
      }

  -- In every history from the empty store each account stands at its derived address, and each
  -- throne is well-formed.
  pub genesis-AllSound :
      (ext : Ext) {chain : Chain Ext} → Reach rt (genesis ext) chain → AllSound rt chain
  unfolding lookup
  genesis-AllSound ext r = (Reach-IsKept r (λ key k h. absurd (ground arith))).sound
