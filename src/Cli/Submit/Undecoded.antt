-- ===== src/Cli/Submit/Undecoded.antt =====
-- The commands of cli/src/cmd/take_throne.rs and cli/src/cmd/settle.rs on a throne as the program
-- creates it.
use kolz_protocol.Base.{◌≡◌, ◌≢◌, refl, length, arith}
use kolz_protocol.Bytes.{Bytes, Pubkey}
use kolz_protocol.Borsh.{IsBorsh}
use kolz_protocol.State.King
use kolz_protocol.Cli.Text.{Text}
use kolz_protocol.Cli.Error.{CliResult, done, fail, panic}
use kolz_protocol.Cli.Output.{Report}
use kolz_protocol.Cli.Host.{Host}
use kolz_protocol.Cli.Rpc.{Cli, parse_pubkey, get_program_account}
use kolz_protocol.Cli.Accounts.{KingOfHill}
use kolz_protocol.Cli.BorshCodec.{decode_king}
use kolz_protocol.Cli.BorshCodec.Padding
use kolz_protocol.Cli.BorshCodec.Padding.{decode_account-ne-done}
use kolz_protocol.Cli.Pdas
use kolz_protocol.Cli.Cmd.Shared.{kol_name_bytes}
use kolz_protocol.Cli.Cmd.TakeThrone
use kolz_protocol.Cli.Cmd.Settle

-- The two commands that read a throne.
pub data ThroneCommand : Type 0 where
  take : TakeThrone.Args → ThroneCommand
  settle : Settle.Args → ThroneCommand

abbrev pub owner_of : ThroneCommand → Text
owner_of (take args) = args.kol_owner
owner_of (settle args) = args.kol_owner

abbrev pub name_of : ThroneCommand → Text
name_of (take args) = args.kol_name
name_of (settle args) = args.kol_name

abbrev pub run_of : Host → Cli → ThroneCommand → CliResult Report
run_of host cli (take args) = TakeThrone.run host cli args
run_of host cli (settle args) = Settle.run host cli args

decode_king-ne-done :
    (host : Host)
    → IsBorsh host.borsh
    → (address : Text) (raw : Bytes) (v : KingOfHill) → length raw ≡ King.size
    → decode_king host.sha256 host.borsh host.borsh_reason address raw ≢ done v
unfolding Padding.decode_account
decode_king-ne-done host laws address raw v h =
    decode_account-ne-done host.sha256 host.borsh laws host.borsh_reason Padding.king address raw v
      h

module _ (host : Host) (cli : Cli) (kol_owner : Pubkey) (name raw : Bytes) (report : Report) where
  -- The address at which a command looks for its throne.
  abbrev throne_address : Pubkey
  throne_address =
      (Pdas.king host.find_program_address cli.program_id
        (Pdas.pet host.find_program_address cli.program_id kol_owner name).0).0

  -- The throne as the client reads it.
  abbrev decoded : CliResult KingOfHill
  decoded =
      decode_king host.sha256 host.borsh host.borsh_reason (host.show_pubkey throne_address) raw

  -- Where the decoding fails, the command does.
  take-ne-done :
      (args : TakeThrone.Args)
      → parse_pubkey host args.kol_owner ≡ done kol_owner
      → kol_name_bytes args.kol_name ≡ done name
      → get_program_account host cli throne_address ≡ done raw
      → ((v : KingOfHill) → decoded ≢ done v)
      → (r : CliResult KingOfHill) → decoded ≡ r
      → TakeThrone.run host cli args ≢ done report
  unfolding TakeThrone.run TakeThrone.prepare
  take-ne-done args owner named there never (done v) q e = never v q
  take-ne-done args owner named there never (fail x) q e = ground arith
  take-ne-done args owner named there never panic q e = ground arith

  settle-ne-done :
      (args : Settle.Args)
      → parse_pubkey host args.kol_owner ≡ done kol_owner
      → kol_name_bytes args.kol_name ≡ done name
      → get_program_account host cli throne_address ≡ done raw
      → ((v : KingOfHill) → decoded ≢ done v)
      → (r : CliResult KingOfHill) → decoded ≡ r
      → Settle.run host cli args ≢ done report
  unfolding Settle.run Settle.prepare
  settle-ne-done args owner named there never (done v) q e = never v q
  settle-ne-done args owner named there never (fail x) q e = ground arith
  settle-ne-done args owner named there never panic q e = ground arith

  -- Neither `cols take-throne` nor `cols settle` comes to a report, whatever its arguments, if the
  -- account at the address of the throne that the arguments name has the size that the program creates
  -- a throne with, and borsh reads and writes as documented: the client does not decode such a throne.
  pub run_of-ne-done :
      (c : ThroneCommand)
      → IsBorsh host.borsh
      → parse_pubkey host (owner_of c) ≡ done kol_owner
      → kol_name_bytes (name_of c) ≡ done name
      → get_program_account host cli throne_address ≡ done raw
      → length raw ≡ King.size
      → run_of host cli c ≢ done report
  run_of-ne-done (take args) laws owner named there size e =
      take-ne-done args owner named there
        (λ v. decode_king-ne-done host laws (host.show_pubkey throne_address) raw v size) decoded
        refl e
  run_of-ne-done (settle args) laws owner named there size e =
      settle-ne-done args owner named there
        (λ v. decode_king-ne-done host laws (host.show_pubkey throne_address) raw v size) decoded
        refl e
