-- ===== src/Cli/Submit/Misplaced.antt =====
-- The commands of cli/src/cmd that name the accounts in another order than the program takes them.
use kolz_protocol.Base.{ℕ, ◌≡◌, ◌≢◌, List, arith, false, true, [], ◌∷◌}
use kolz_protocol.Bytes.{Bytes, Pubkey}
use kolz_protocol.Bytes.Order.{bytes_eq→≡}
use kolz_protocol.Constants.{system_program_id}
use kolz_protocol.Errors.{ok}
use kolz_protocol.Events.{Event}
use kolz_protocol.Runtime.{Runtime}
use kolz_protocol.Chain.{Chain, Tx, check_program, check_mut, contains}
use kolz_protocol.Instructions.BindLaunch
use kolz_protocol.Instructions.CommitDistributionRoot
use kolz_protocol.Program.Wire.{
  receive_bind, receive_commit, bind_accounts, commit_accounts, take_next,
}
use kolz_protocol.Cli.Text.{Text}
use kolz_protocol.Cli.Error.{done}
use kolz_protocol.Cli.Output.{Report}
use kolz_protocol.Cli.Host.{Host, RawInstruction, writable, readonly}
use kolz_protocol.Cli.Rpc.{Cli, parse_pubkey}
use kolz_protocol.Cli.Pdas
use kolz_protocol.Cli.Submit.{keys_of, tx_of}
use kolz_protocol.Cli.Cmd.Shared.{kol_name_bytes}
use kolz_protocol.Cli.Cmd.Bind
use kolz_protocol.Cli.Cmd.CommitRoot

-- An instruction that names another key than the system program's in its place.
commit-program :
    {Ext : Type 0} (rt : Runtime Ext) (tx : Tx) (a : CommitDistributionRoot.Accounts) (epoch : ℕ)
    (root : Bytes) (pool : ℕ) (chain : Chain Ext) (r : Chain Ext × Event)
    → CommitDistributionRoot.commit_distribution_root rt tx a epoch root pool chain ≡ ok r
    → a.system_program ≡ system_program_id
unfolding CommitDistributionRoot.commit_distribution_root check_program
commit-program rt tx a epoch root pool chain r h =
    ground (arith, bytes_eq→≡ a.system_program system_program_id)

bind-writable :
    {Ext : Type 0} (rt : Runtime Ext) (tx : Tx) (a : BindLaunch.Accounts) (name : Bytes)
    (chain : Chain Ext) (r : Chain Ext × Event)
    → BindLaunch.oracle_bind_pumpfun_launch rt tx a name chain ≡ ok r
    → contains tx.writable a.pet ≡ true
unfolding BindLaunch.oracle_bind_pumpfun_launch check_mut
bind-writable rt tx a name chain r h = ground arith

-- The accounts of the instructions.
commit-accounts :
    (host : Host) (cli : Cli) (ix : RawInstruction) (report : Text → Report)
    (args : CommitRoot.Args)
    → CommitRoot.prepare host cli args ≡ done (ix, report)
    → ix.accounts
      ≡ writable cli.payer.pubkey true
        ∷ readonly (Pdas.config host.find_program_address cli.program_id).0 false
        ∷ writable (Pdas.distribution host.find_program_address cli.program_id args.epoch).0 false
        ∷ writable (Pdas.fee_vault host.find_program_address cli.program_id).0 false
        ∷ readonly system_program_id false
        ∷ []
unfolding CommitRoot.prepare
commit-accounts host cli ix report args h = ground arith

bind-accounts :
    (host : Host) (cli : Cli) (ix : RawInstruction) (report : Text → Report) (args : Bind.Args)
    (kol_owner pump_mint : Pubkey) (name : Bytes)
    → parse_pubkey host args.kol_owner ≡ done kol_owner
    → parse_pubkey host args.pump_mint ≡ done pump_mint
    → kol_name_bytes args.kol_name ≡ done name
    → Bind.prepare host cli args ≡ done (ix, report)
    → let pet = (Pdas.pet host.find_program_address cli.program_id kol_owner name).0 in
      ix.accounts
      ≡ writable cli.payer.pubkey true
        ∷ readonly (Pdas.config host.find_program_address cli.program_id).0 false
        ∷ readonly kol_owner false
        ∷ readonly pump_mint false
        ∷ writable pet false
        ∷ writable (Pdas.launch host.find_program_address cli.program_id pet).0 false
        ∷ readonly system_program_id false
        ∷ []
unfolding Bind.prepare
bind-accounts host cli ix report args kol_owner pump_mint name p q w h = ground arith

-- What the program goes on with once it has taken the accounts.
receive_commit-runs :
    {Ext : Type 0} (rt : Runtime Ext) (tx : Tx) (k0 k1 k2 k3 : Pubkey) (rest : List Pubkey)
    (epoch : ℕ) (root : Bytes) (pool : ℕ) (chain : Chain Ext) (r : Chain Ext × Event)
    → receive_commit rt tx (k0 ∷ k1 ∷ k2 ∷ k3 ∷ rest) epoch root pool chain ≡ ok r
    → CommitDistributionRoot.commit_distribution_root rt tx
        (record { oracle = k0; config = k1; distribution = k2; system_program = k3 })
        epoch
        root
        pool
        chain
      ≡ ok r
unfolding receive_commit commit_accounts take_next
receive_commit-runs rt tx k0 k1 k2 k3 rest epoch root pool chain r h = ground arith

receive_bind-runs :
    {Ext : Type 0} (rt : Runtime Ext) (tx : Tx) (k0 k1 k2 k3 k4 k5 k6 : Pubkey) (rest : List Pubkey)
    (name : Bytes) (chain : Chain Ext) (r : Chain Ext × Event)
    → receive_bind rt tx (k0 ∷ k1 ∷ k2 ∷ k3 ∷ k4 ∷ k5 ∷ k6 ∷ rest) name chain ≡ ok r
    → BindLaunch.oracle_bind_pumpfun_launch rt tx
        (record {
          oracle = k0;
          kol_owner = k1;
          pump_mint = k2;
          pet = k3;
          launch = k4;
          config = k5;
          system_program = k6;
        })
        name
        chain
      ≡ ok r
unfolding receive_bind bind_accounts take_next
receive_bind-runs rt tx k0 k1 k2 k3 k4 k5 k6 rest name chain r h = ground arith

module _ {Ext : Type 0} (rt : Runtime Ext) (host : Host) (cli : Cli) (ix : RawInstruction)
    (report : Text → Report) (chain : Chain Ext) (r : Chain Ext × Event) where
  -- The instruction that `cols commit-root` builds never goes through: it has the fee vault where the
  -- program takes the system program, if the fee vault's address is not that program's.
  pub commit-misplaced :
      (args : CommitRoot.Args) (epoch pool : ℕ) (root : Bytes)
      → CommitRoot.prepare host cli args ≡ done (ix, report)
      → (Pdas.fee_vault host.find_program_address cli.program_id).0 ≢ system_program_id
      → receive_commit rt (tx_of ix.accounts) (keys_of ix.accounts) epoch root pool chain ≢ ok r
  commit-misplaced args epoch pool root h other e =
      let accounts = commit-accounts host cli ix report args h in
      other (
        commit-program rt _ _ epoch root pool chain r
          (receive_commit-runs rt _ _ _ _ _ _ epoch root pool chain r (rw accounts at e)))

  -- The instruction that `cols bind` builds never goes through: it has the coin's mint where the
  -- program takes the pet, which has to be writable, if the mint is not one of the writable accounts:
  -- the payer, the pet and the launch.
  pub bind-misplaced :
      (args : Bind.Args) (kol_owner pump_mint : Pubkey) (name kol_name : Bytes)
      → parse_pubkey host args.kol_owner ≡ done kol_owner
      → parse_pubkey host args.pump_mint ≡ done pump_mint
      → kol_name_bytes args.kol_name ≡ done name
      → Bind.prepare host cli args ≡ done (ix, report)
      → cli.payer.pubkey ≢ pump_mint
      → (Pdas.pet host.find_program_address cli.program_id kol_owner name).0 ≢ pump_mint
      → (Pdas.launch host.find_program_address cli.program_id
          (Pdas.pet host.find_program_address cli.program_id kol_owner name).0).0
        ≢ pump_mint
      → receive_bind rt (tx_of ix.accounts) (keys_of ix.accounts) kol_name chain ≢ ok r
  unfolding contains
  bind-misplaced args kol_owner pump_mint name kol_name p q w h not_payer not_pet not_launch e =
      let pet = (Pdas.pet host.find_program_address cli.program_id kol_owner name).0 in
      let writes = bind-writable rt _ _ kol_name chain r (
        receive_bind-runs rt _ _ _ _ _ _ _ _ _ kol_name chain r
          (rw (bind-accounts host cli ix report args kol_owner pump_mint name p q w h) at e)) in
      ground (
        arith,
        bytes_eq→≡ cli.payer.pubkey pump_mint,
        bytes_eq→≡ pet pump_mint,
        bytes_eq→≡ (Pdas.launch host.find_program_address cli.program_id pet).0 pump_mint,
      )
