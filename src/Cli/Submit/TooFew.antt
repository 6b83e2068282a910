-- ===== src/Cli/Submit/TooFew.antt =====
-- The commands of cli/src/cmd that name fewer accounts than the program takes.
use kolz_protocol.Base.{ℕ, ◌≡◌, ◌≢◌, List, arith}
use kolz_protocol.Bytes.{Bytes, Pubkey}
use kolz_protocol.Errors.{Result, ok}
use kolz_protocol.Runtime.{Runtime}
use kolz_protocol.Events.{Event}
use kolz_protocol.Chain.{Chain, Tx}
use kolz_protocol.Program.Wire.{receive_init, receive_mint, receive_claim}
use kolz_protocol.Cli.Text.{Text}
use kolz_protocol.Cli.Error.{CliResult, done}
use kolz_protocol.Cli.Output.{Report}
use kolz_protocol.Cli.Host.{Host, RawInstruction}
use kolz_protocol.Cli.Rpc.{Cli}
use kolz_protocol.Cli.Submit.{keys_of, tx_of}
use kolz_protocol.Cli.Cmd.Init
use kolz_protocol.Cli.Cmd.MintNft
use kolz_protocol.Cli.Cmd.Claim

-- A command with its arguments, and the arguments that the program reads of its instruction.
pub data Submission : Type 0 where
  init : Init.Args → Pubkey → ℕ → Submission
  mint_nft : MintNft.Args → Bytes → Bytes → Bytes → Submission
  claim : Claim.Args → ℕ → ℕ → List Bytes → Submission

unfoldable pub prepare_of : Host → Cli → Submission → CliResult (RawInstruction × (Text → Report))
unfolding Init.prepare MintNft.prepare Claim.prepare
prepare_of host cli (init args oracle fee) = Init.prepare host cli args
prepare_of host cli (mint_nft args name symbol uri) = MintNft.prepare host cli args
prepare_of host cli (claim args epoch amount proof) = Claim.prepare host cli args

unfoldable pub receive_of :
    {Ext : Type 0}
    → Runtime Ext
    → Tx
    → List Pubkey
    → Submission
    → Chain Ext
    → Result (Chain Ext × Event)
unfolding receive_init receive_mint receive_claim
receive_of rt tx keys (init args oracle fee) = receive_init rt tx keys oracle fee
receive_of rt tx keys (mint_nft args name symbol uri) = receive_mint rt tx keys name symbol uri
receive_of rt tx keys (claim args epoch amount proof) = receive_claim rt tx keys epoch amount proof

module _ {Ext : Type 0} (rt : Runtime Ext) (host : Host) (cli : Cli) (ix : RawInstruction)
    (report : Text → Report) (chain : Chain Ext) (r : Chain Ext × Event) where
  init-too_few :
      (args : Init.Args) (oracle : Pubkey) (fee : ℕ)
      → Init.prepare host cli args ≡ done (ix, report)
      → receive_init rt (tx_of ix.accounts) (keys_of ix.accounts) oracle fee chain ≢ ok r
  unfolding Init.prepare receive_init
  init-too_few args oracle fee h e = ground arith

  mint-too_few :
      (args : MintNft.Args) (name symbol uri : Bytes)
      → MintNft.prepare host cli args ≡ done (ix, report)
      → receive_mint rt (tx_of ix.accounts) (keys_of ix.accounts) name symbol uri chain ≢ ok r
  unfolding MintNft.prepare receive_mint
  mint-too_few args name symbol uri h e = ground arith

  claim-too_few :
      (args : Claim.Args) (epoch amount : ℕ) (proof : List Bytes)
      → Claim.prepare host cli args ≡ done (ix, report)
      → receive_claim rt (tx_of ix.accounts) (keys_of ix.accounts) epoch amount proof chain ≢ ok r
  unfolding Claim.prepare receive_claim
  claim-too_few args epoch amount proof h e = ground arith

  -- Whatever their arguments and the chain are, the instructions that `cols init`, `cols mint-nft` and
  -- `cols claim` build never go through: they name three of the four, twelve of the fourteen and five
  -- of the six accounts that the program takes.
  pub receive_of-too_few :
      (s : Submission)
      → prepare_of host cli s ≡ done (ix, report)
      → receive_of rt (tx_of ix.accounts) (keys_of ix.accounts) s chain ≢ ok r
  unfolding prepare_of receive_of
  receive_of-too_few (init args oracle fee) h = init-too_few args oracle fee h
  receive_of-too_few (mint_nft args name symbol uri) h = mint-too_few args name symbol uri h
  receive_of-too_few (claim args epoch amount proof) h = claim-too_few args epoch amount proof h
