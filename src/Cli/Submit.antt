-- ===== src/Cli/Submit.antt =====
-- The transactions that cli/src builds, as programs/cols/src receives them: the keys in the order of
-- the instruction's accounts, those that sign, and those that may be written.
pub mod TooFew
pub mod Misplaced
pub mod Undecoded
use kolz_protocol.Base.{Bool, true, false, List, [], ◌∷◌, map, if◌then◌else◌}
use kolz_protocol.Bytes.{Pubkey}
use kolz_protocol.Chain.{Tx}
use kolz_protocol.Cli.Host.{AccountMeta}

abbrev pub keys_of : List AccountMeta → List Pubkey
keys_of metas = map (λ (m : AccountMeta). m.pubkey) metas

abbrev pub signers_of : List AccountMeta → List Pubkey
signers_of [] = []
signers_of (m ∷ metas) = if m.is_signer then m.pubkey ∷ signers_of metas else signers_of metas

abbrev pub writable_of : List AccountMeta → List Pubkey
writable_of [] = []
writable_of (m ∷ metas) = if m.is_writable then m.pubkey ∷ writable_of metas else writable_of metas

abbrev pub tx_of : List AccountMeta → Tx
tx_of metas = record { signers = signers_of metas; writable = writable_of metas }
