-- ===== src/Program/Oracle.antt =====
-- The registered oracle over histories: programs/cols/src/instructions/init_config.rs and the
-- instructions that ask for its signature.
use kolz_protocol.Base.{ℕ, ◌≡◌, ◌≢◌, ◌∙◌, sym, ap, true, some, [], ◌∷◌, subst}
use kolz_protocol.Bytes.{Pubkey, bytes_eq}
use kolz_protocol.Bytes.Order.{bytes_eq→≡}
use kolz_protocol.Constants.{config_seed}
use kolz_protocol.Errors.{ok}
use kolz_protocol.Events.{Event}
use kolz_protocol.Runtime.{Runtime}
use kolz_protocol.State.Config
use kolz_protocol.State.Config.{Config}
use kolz_protocol.Chain.{
  Chain, Tx, config_account, lookup, contains, load_config, find_bump, is_fresh,
}
use kolz_protocol.Chain.Checks.{load_config-lookup}
use kolz_protocol.Program.{
  Instruction, Reach, next, executes, process, oracle_bind_pumpfun_launch, mint_kol_nft,
  take_throne, settle_throne, commit_distribution_root, claim_holder_fees,
}
use kolz_protocol.Program
use kolz_protocol.Program.Accounts.{AllSound}
use kolz_protocol.Program.Stored.{stores, find_bump_unique, not-fresh-after}
use kolz_protocol.Program.History.{Reach-IsKept, genesis, genesis-AllSound}
use kolz_protocol.Instructions.InitConfig
use kolz_protocol.Instructions.InitConfig.{init_config}
use kolz_protocol.Instructions.InitConfig.Facts.{init_config-Inits}
use kolz_protocol.Instructions.BindLaunch.Facts.{oracle_bind_pumpfun_launch-Binds}
use kolz_protocol.Instructions.MintKolNft.Facts.{mint_kol_nft-Mints}
use kolz_protocol.Instructions.SettleThrone.Facts.{settle_throne-Settles}
use kolz_protocol.Instructions.CommitDistributionRoot.Facts.{commit_distribution_root-Commits}

-- The instructions that the program documents as the oracle's.
abbrev pub IsPrivileged : Instruction → Type 0
IsPrivileged (oracle_bind_pumpfun_launch _ _) = Unit {0}
IsPrivileged (mint_kol_nft _ _ _ _) = Unit {0}
IsPrivileged (settle_throne _) = Unit {0}
IsPrivileged (commit_distribution_root _ _ _ _) = Unit {0}
IsPrivileged (Program.init_config _ _ _) = ⊥
IsPrivileged (take_throne _) = ⊥
IsPrivileged (claim_holder_fees _ _ _ _) = ⊥

config_injective : (c d : Config) → some (config_account c) ≡ some (config_account d) → c ≡ d
config_injective c d e = cc

module _ {Ext : Type 0} (rt : Runtime Ext) where
  -- The oracle of the config that is loaded, if that is the one that was stored at `at`.
  configured_signer :
      (later : Chain Ext) (tx : Tx) (at key oracle : Pubkey) (bump : ℕ) (stored config : Config)
      → AllSound rt later
      → lookup at later.accounts ≡ some (config_account stored)
      → find_bump rt (config_seed ∷ []) at ≡ ok bump
      → load_config later key ≡ ok config
      → bytes_eq config.oracle oracle ≡ true
      → contains tx.signers oracle ≡ true
      → contains tx.signers stored.oracle ≡ true
  configured_signer later tx at key oracle bump stored config sound found derived loaded is signed =
      let here : lookup key later.accounts ≡ some (config_account config) =
        load_config-lookup later key loaded in
      let same : key ≡ at =
        find_bump_unique rt (config_seed ∷ []) key at (sound key (config_account config) here)
          derived in
      let e : config ≡ stored =
        config_injective config stored
          (sym here ∙ ap (λ k. lookup k later.accounts) same ∙ found) in
      subst (λ k. contains tx.signers k ≡ true)
        (sym (bytes_eq→≡ config.oracle oracle is) ∙ ap (λ (c : Config). c.oracle) e) signed

  privileged_signer :
      (later after : Chain Ext) (event : Event) (tx : Tx) (i : Instruction) (at : Pubkey) (bump : ℕ)
      (stored : Config)
      → IsPrivileged i
      → AllSound rt later
      → lookup at later.accounts ≡ some (config_account stored)
      → find_bump rt (config_seed ∷ []) at ≡ ok bump
      → process rt tx i later ≡ ok (after, event)
      → contains tx.signers stored.oracle ≡ true
  unfolding process
  privileged_signer later after event tx (oracle_bind_pumpfun_launch a name) at bump stored p sound
        found derived h =
      let (l, config, slot, pet, launch, f) =
        oracle_bind_pumpfun_launch-Binds rt tx a name later after event h in
      configured_signer later tx at a.config a.oracle bump stored config sound found derived
        f.checked.configured f.checked.oracle f.checked.signed
  privileged_signer later after event tx (mint_kol_nft a n s u) at bump stored p sound found derived
        h =
      let (l, config, ext, f) = mint_kol_nft-Mints rt tx a n s u later after event h in
      configured_signer later tx at a.config a.oracle bump stored config sound found derived
        f.checked.configured f.checked.oracle f.checked.signed
  privileged_signer later after event tx (settle_throne a) at bump stored p sound found derived h =
      let (k, config, nft, slot, signers, revoked, f) =
        settle_throne-Settles rt tx a later after event h in
      configured_signer later tx at a.config a.oracle bump stored config sound found derived
        f.checked.configured f.checked.oracle f.checked.signed
  privileged_signer later after event tx (commit_distribution_root a e r q) at bump stored p sound
        found derived h =
      let (config, b, slot, ext, f) =
        commit_distribution_root-Commits rt tx a e r q later after event h in
      configured_signer later tx at a.config a.oracle bump stored config sound found derived
        f.checked.configured f.checked.oracle f.checked.signed
  privileged_signer later after event tx (Program.init_config a o q) at bump stored p sound found
        derived h =
      absurd p
  privileged_signer later after event tx (take_throne a) at bump stored p sound found derived h =
      absurd p
  privileged_signer later after event tx (claim_holder_fees a e q r) at bump stored p sound found
        derived h =
      absurd p

  -- In any history from the empty store, after `init_config` with an oracle, each binding, mint,
  -- settlement and commit that goes through is signed by that oracle.
  pub only_oracle :
      (ext : Ext) {chain chain' later : Chain Ext} {event : Event} (tx tx' : Tx)
      (a : InitConfig.Accounts) (oracle : Pubkey) (fee : ℕ) (i : Instruction) (after : Chain Ext)
      (event' : Event)
      → Reach rt (genesis ext) chain
      → init_config rt tx a oracle fee chain ≡ ok (chain', event)
      → Reach rt chain' later
      → IsPrivileged i
      → process rt tx' i later ≡ ok (after, event')
      → contains tx'.signers oracle ≡ true
  unfolding process
  only_oracle ext {chain} {chain'} {later} {event} tx tx' a oracle fee i after event' r h s p h' =
      let (bump, ext', f) = init_config-Inits rt tx a oracle fee chain chain' event h in
      let config : Config = Config.initialize Config.default a.admin oracle fee bump in
      let start = next r (executes tx (Program.init_config a oracle fee) event h) in
      let stored =
        stores rt (record chain { ext = ext' }) chain' a.config (config_account config) f.result in
      let kept = Reach-IsKept s (genesis-AllSound ext start) in
      let (new, found, e) = kept.keeps a.config (config_account config) stored in
      privileged_signer later after event' tx' i a.config bump config p kept.sound
        (found ∙ ap some e) f.checked.derived h'

  -- In any history from the empty store `init_config` goes through at most once.
  pub init_once :
      (ext : Ext) {chain chain' later : Chain Ext} {event : Event} (tx tx' : Tx)
      (a b : InitConfig.Accounts) (oracle oracle' : Pubkey) (fee fee' : ℕ) (after : Chain Ext)
      (event' : Event)
      → Reach rt (genesis ext) chain
      → init_config rt tx a oracle fee chain ≡ ok (chain', event)
      → Reach rt chain' later
      → init_config rt tx' b oracle' fee' later ≢ ok (after, event')
  unfolding process
  init_once ext {chain} {chain'} {later} {event} tx tx' a b oracle oracle' fee fee' after event' r h
        s h' =
      let (bump, ext', f) = init_config-Inits rt tx a oracle fee chain chain' event h in
      let (bump', ext'', f') = init_config-Inits rt tx' b oracle' fee' later after event' h' in
      let config : Config = Config.initialize Config.default a.admin oracle fee bump in
      not-fresh-after rt a.config (config_account config)
        (genesis-AllSound ext (next r (executes tx (Program.init_config a oracle fee) event h))) s
        (stores rt (record chain { ext = ext' }) chain' a.config (config_account config) f.result)
        (subst (λ k. is_fresh later k ≡ true)
          (find_bump_unique rt (config_seed ∷ []) b.config a.config f'.checked.derived
            f.checked.derived)
          f'.checked.fresh)
