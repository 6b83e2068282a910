-- ===== src/Tests/Client.antt =====
-- A client that computes, in the world of the scenario: a derived address is that of the runtime, a
-- key is its own text, and every account holds a throne, without padding. Each command's instruction.
use kolz_protocol.Base.{false, inr, none, some, [], ◌∷◌, ◌++◌, replicate}
use kolz_protocol.Bytes.{Bytes, to_le_bytes}
use kolz_protocol.Constants.{ascii}
use kolz_protocol.Cli.Text.{Text}
use kolz_protocol.Cli.Error.{CliResult, done, fail, panic}
use kolz_protocol.Cli.Output.{Report, fmt_hex32}
use kolz_protocol.Cli.Discriminator
use kolz_protocol.Cli.Accounts
use kolz_protocol.Cli.Host.{Host, RawInstruction, Keypair}
use kolz_protocol.Cli.Rpc.{Cli, processed}
use kolz_protocol.Cli.Cmd.Init
use kolz_protocol.Cli.Cmd.Bind
use kolz_protocol.Cli.Cmd.MintNft
use kolz_protocol.Cli.Cmd.TakeThrone
use kolz_protocol.Cli.Cmd.Settle
use kolz_protocol.Cli.Cmd.CommitRoot
use kolz_protocol.Cli.Cmd.Claim
use kolz_protocol.Tests.World.{key, derive, toy_hash}
use kolz_protocol.Tests.Scenario
use kolz_protocol.Tests.Codec.{toy_borsh}

abbrev pub payer : Keypair
payer = record { pubkey = key 20; bytes = key 20 ++ key 20 }

abbrev pub cli : Cli
cli = record { payer = payer; program_id = key 99; commitment = processed }

abbrev pub throne : Accounts.KingOfHill
throne = record {
  pet = Scenario.pet;
  nft_mint = Scenario.nft_mint;
  nft_escrow_vault = key 12;
  current_champion = Scenario.bob;
  champion_balance = 250;
  last_captured_slot = 1_000;
  take_overs = 2;
  bump = 255;
  nft_escrow_vault_bump = 255;
  settles_at_slot = 1_513_000;
  settled = false;
}

abbrev pub throne_bytes : Bytes
throne_bytes =
    Discriminator.account toy_hash (ascii "KingOfHill")
    ++ (throne.pet
        ++ (throne.nft_mint
            ++ (throne.nft_escrow_vault
                ++ (throne.current_champion
                    ++ (to_le_bytes 8 throne.champion_balance
                        ++ (to_le_bytes 8 throne.last_captured_slot
                            ++ (to_le_bytes 4 throne.take_overs
                                ++ (255
                                    ∷ 255
                                    ∷ (to_le_bytes 8 throne.settles_at_slot ++ (0 ∷ []))))))))))

abbrev pub host : Host
host = record {
  find_program_address = λ seeds program. (derive seeds 255, 255);
  pubkey_from_str = λ text. inr text;
  show_pubkey = λ k. k;
  sha256 = toy_hash;
  borsh = toy_borsh;
  borsh_reason = ascii "unexpected length";
  lossy = λ bytes. bytes;
  fmt_sol = λ lamports. ascii "some";
  rent_id = key 104;
  get_account = λ k. inr (record { owner = key 99; content = throne_bytes });
  get_latest_blockhash = inr (key 77);
  send_and_confirm = λ transaction. inr (ascii "signature");
  read_keypair_file = λ path. inr payer;
  new_keypair = record { pubkey = Scenario.nft_mint; bytes = key 5 };
  bytes_to_json = λ bytes. inr bytes;
  write_file = λ path text. inr tt;
}

abbrev pub init_args : Init.Args
init_args = record { oracle = Scenario.oracle; fee_basis_points = 250 }

abbrev pub bind_args : Bind.Args
bind_args = record {
  kol_owner = Scenario.kol_owner;
  pump_mint = Scenario.pump_mint;
  kol_name = ascii "kol";
}

abbrev pub mint_args : MintNft.Args
mint_args = record {
  kol_owner = Scenario.kol_owner;
  kol_name = ascii "kol";
  name = ascii "K";
  symbol = ascii "K";
  uri = ascii "u";
  mint_out = none;
}

abbrev pub take_args : TakeThrone.Args
take_args = record {
  kol_owner = Scenario.kol_owner;
  kol_name = ascii "kol";
  memecoin_mint = some Scenario.pump_mint;
}

abbrev pub settle_args : Settle.Args
settle_args = record { kol_owner = Scenario.kol_owner; kol_name = ascii "kol" }

abbrev pub commit_args : CommitRoot.Args
commit_args = record { epoch = 3; root = fmt_hex32 (replicate 32 171); pool_lamports = 1_000 }

abbrev pub claim_args : Claim.Args
claim_args = record { epoch = 3; amount = 500; proof = fmt_hex32 (replicate 32 171) ∷ [] }

abbrev pub Prepared : Type 0
Prepared = CliResult (RawInstruction × (Text → Report))

abbrev pub instruction_of : Prepared → RawInstruction
instruction_of (done (ix, report)) = ix
instruction_of (fail e) = record { program_id = []; accounts = []; payload = [] }
instruction_of panic = record { program_id = []; accounts = []; payload = [] }

abbrev pub report_of : Prepared → Text → Report
report_of (done (ix, report)) = report
report_of (fail e) = λ sig. record { title = []; rows = [] }
report_of panic = λ sig. record { title = []; rows = [] }

abbrev pub init_prepared : Prepared
init_prepared = Init.prepare host cli init_args

abbrev pub bind_prepared : Prepared
bind_prepared = Bind.prepare host cli bind_args

abbrev pub mint_prepared : Prepared
mint_prepared = MintNft.prepare host cli mint_args

abbrev pub take_prepared : Prepared
take_prepared = TakeThrone.prepare host cli take_args

abbrev pub settle_prepared : Prepared
settle_prepared = Settle.prepare host cli settle_args

abbrev pub commit_prepared : Prepared
commit_prepared = CommitRoot.prepare host cli commit_args

abbrev pub claim_prepared : Prepared
claim_prepared = Claim.prepare host cli claim_args
