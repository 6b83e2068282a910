-- ===== src/Cli/Cmd/Shared.antt =====
-- What the files of cli/src/cmd repeat: the ids of the SPL programs, the address of an associated
-- token account, and a name argument.
use kolz_protocol.Base.{[], ◌∷◌}
use kolz_protocol.Bytes.{Bytes, Pubkey}
use kolz_protocol.Constants.{ascii}
use kolz_protocol.Cli.Text.{Text}
use kolz_protocol.Cli.Error.{CliResult, done, fail, invalid_arg}
use kolz_protocol.Cli.Pdas.{Encoded, encoded, rejected, encode_kol_name}
use kolz_protocol.Cli.Host.{Host}

abbrev pub spl_token_program_id : Text
spl_token_program_id = ascii "TokenkegQfeZyiNwAJbNbGKPFXCWuBvf9Ss623VQ5DA"

abbrev pub spl_ata_program_id : Text
spl_ata_program_id = ascii "ATokenGPvbdGVxr1b2hvZbsiqW5xWH25efTNsLJA8knL"

unfoldable pub associated_token_address : Host → Pubkey → Pubkey → Pubkey → Pubkey → Pubkey
associated_token_address host owner mint token_program ata_program =
    (host.find_program_address (owner ∷ token_program ∷ mint ∷ []) ata_program).0

abbrev pub of_encoded : Encoded → CliResult Bytes
of_encoded (encoded name) = done name
of_encoded (rejected reason) = fail (invalid_arg (ascii "kol-name") reason)

-- `encode_kol_name(name).map_err(…)?`
unfoldable pub kol_name_bytes : Text → CliResult Bytes
unfolding encode_kol_name
kol_name_bytes name = of_encoded (encode_kol_name name)
