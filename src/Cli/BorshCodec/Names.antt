-- ===== src/Cli/BorshCodec/Names.antt =====
-- `kol_name_to_string` of cli/src/borsh_codec.rs on names that cli/src/pdas.rs encoded.
use kolz_protocol.Base.{
  ℕ, zero, suc, ◌-◌, ◌≤◌, ◌≢◌, ◌≡◌, refl, ap, [], ◌∷◌, ◌++◌, length, replicate, arith,
}
use kolz_protocol.Bytes.{Bytes}
use kolz_protocol.Cli.Text.{Text}
use kolz_protocol.Cli.Pdas.{encode_kol_name, encoded}
use kolz_protocol.Cli.BorshCodec.{before_zero, kol_name_to_string}
use kolz_protocol.Utils.Names.{drop-replicate}

abbrev pub NoZero : Bytes → Type 0
NoZero [] = Unit {0}
NoZero (b ∷ bs) = (b ≢ 0) × NoZero bs

before_zero-pad : (name : Bytes) (m : ℕ) → NoZero name → before_zero (name ++ replicate m 0) ≡ name
unfolding before_zero
before_zero-pad [] zero h = refl
before_zero-pad [] (suc m) h = refl
before_zero-pad (b ∷ bs) m h = ground (arith, before_zero-pad bs m)

-- A name of at most 32 bytes, none of them zero, is encoded, and the client shows the encoded name
-- as the text of those bytes.
pub kol_name_to_string-encode_kol_name :
    (lossy : Bytes → Text) (name : Bytes)
    → length name ≤ 32
    → NoZero name
    → (buf : Bytes) × (encode_kol_name name ≡ encoded buf)
      × (kol_name_to_string lossy buf ≡ lossy name)
unfolding encode_kol_name kol_name_to_string
kol_name_to_string-encode_kol_name lossy name h z = (
  name ++ replicate (32 - length name) 0,
  ground (arith, drop-replicate (length name) 32 0),
  ap lossy (before_zero-pad name (32 - length name) z),
)
