-- ===== src/Cli/BorshCodec/Padding.antt =====
-- The readers of cli/src/borsh_codec.rs on accounts of the sizes that the program creates.
use kolz_protocol.Base.{
  ℕ, zero, suc, ◌+◌, ◌≤◌, ◌<◌, ◌≡◌, ap, ◌≢◌, refl, inl, inr, Option, some, [], ◌∷◌, length, drop,
  arith, Option-cases,
}
use kolz_protocol.Bytes.{Bytes}
use kolz_protocol.Borsh.{Borsh, Primitive, IsFixed, IsBorsh, ◌>>=◌}
use kolz_protocol.Constants.{ascii}
use kolz_protocol.State.Config
use kolz_protocol.State.Pet
use kolz_protocol.State.Launch
use kolz_protocol.State.King
use kolz_protocol.State.Distribution
use kolz_protocol.State.HolderClaim
use kolz_protocol.Cli.Text.{Text}
use kolz_protocol.Cli.Error
use kolz_protocol.Cli.Error.{CliResult, done, fail, panic}
use kolz_protocol.Cli.BorshCodec.{
  split_discriminator, decode, decode_config, decode_pet, decode_launch, decode_king,
  decode_distribution, decode_holder_claim,
}
use kolz_protocol.Cli.Accounts
use kolz_protocol.Cli.Accounts.{
  read_config, read_pet, read_launch, read_king, read_distribution, read_holder_claim,
}

-- A reader that takes `n` bytes away.
abbrev Reads : {A : Type 0} → (Bytes → Option (A × Bytes)) → ℕ → Type 0
Reads {A} f n =
    (bytes : Bytes) (a : A) (rest : Bytes)
    → f bytes ≡ some (a, rest)
    → length bytes ≡ n + length rest

Reads-bind :
    {A B : Type 0} {p : Primitive A} {Fits : A → Type 0} {width : ℕ} (law : IsFixed p Fits width)
    (f : A → Bytes → Option (B × Bytes)) (n : ℕ)
    → ((a : A) → Reads (f a) n)
    → Reads (λ bytes. p.get bytes >>= λ (a, rest). f a rest) (width + n)
Reads-bind {p = p} law f n h bytes b rest e = elim (Option-cases (p.get bytes)) [
  | inl q ↦ absurd (ground arith)
  | inr ((a, mid), q) ↦ omega (arith, law.get_length bytes a mid q, h a mid b rest (rw q at e))
]

Reads-done :
    {A : Type 0} {v : A} (bytes : Bytes) (a : A) (rest : Bytes)
    → ◌≡◌ {A = Option (A × Bytes)} (some (v, bytes)) (some (a, rest))
    → length bytes ≡ 0 + length rest
Reads-done bytes a rest e = let same : bytes ≡ rest = cc in omega (arith, ap length same)

module _ (b : Borsh) (laws : IsBorsh b) where
  config-Reads : Reads (read_config b) 69
  unfolding read_config
  config-Reads = Reads-bind (laws.array_fixed 32) _ _ λ admin.
      Reads-bind (laws.array_fixed 32) _ _ λ oracle.
        Reads-bind (laws.u32_fixed) _ _
          λ fee_basis_points. Reads-bind (laws.u8_fixed) _ 0 λ bump. Reads-done

  pet-Reads : Reads (read_pet b) 73
  unfolding read_pet
  pet-Reads = Reads-bind (laws.array_fixed 32) _ _ λ owner.
      Reads-bind (laws.array_fixed 32) _ _ λ kol_name.
        Reads-bind (laws.u64_fixed) _ _
          λ bonded_at. Reads-bind (laws.u8_fixed) _ 0 λ bump. Reads-done

  launch-Reads : Reads (read_launch b) 106
  unfolding read_launch
  launch-Reads = Reads-bind (laws.array_fixed 32) _ _ λ pet.
      Reads-bind (laws.array_fixed 32) _ _ λ pump_mint.
        Reads-bind (laws.u64_fixed) _ _ λ bonded_slot.
          Reads-bind (laws.u64_fixed) _ _ λ real_sol_reserve.
            Reads-bind (laws.u64_fixed) _ _ λ real_token_reserve.
              Reads-bind (laws.u64_fixed) _ _ λ creator_fees_lamports.
                Reads-bind (laws.u64_fixed) _ _ λ total_volume_lamports.
                  Reads-bind (laws.bool_fixed) _ _
                    λ graduated. Reads-bind (laws.u8_fixed) _ 0 λ bump. Reads-done

  king-Reads : Reads (read_king b) 159
  unfolding read_king
  king-Reads = Reads-bind (laws.array_fixed 32) _ _ λ pet.
      Reads-bind (laws.array_fixed 32) _ _ λ nft_mint.
        Reads-bind (laws.array_fixed 32) _ _ λ nft_escrow_vault.
          Reads-bind (laws.array_fixed 32) _ _ λ current_champion.
            Reads-bind (laws.u64_fixed) _ _ λ champion_balance.
              Reads-bind (laws.u64_fixed) _ _ λ last_captured_slot.
                Reads-bind (laws.u32_fixed) _ _ λ take_overs. Reads-bind (laws.u8_fixed) _ _ λ bump.
                  Reads-bind (laws.u8_fixed) _ _ λ nft_escrow_vault_bump.
                    Reads-bind (laws.u64_fixed) _ _
                      λ settles_at_slot. Reads-bind (laws.bool_fixed) _ 0 λ settled. Reads-done

  distribution-Reads : Reads (read_distribution b) 57
  unfolding read_distribution
  distribution-Reads = Reads-bind (laws.u64_fixed) _ _ λ epoch.
      Reads-bind (laws.array_fixed 32) _ _ λ root. Reads-bind (laws.u64_fixed) _ _ λ pool_lamports.
        Reads-bind (laws.u64_fixed) _ _
          λ committed_at. Reads-bind (laws.u8_fixed) _ 0 λ bump. Reads-done

  holder_claim-Reads : Reads (read_holder_claim b) 57
  unfolding read_holder_claim
  holder_claim-Reads = Reads-bind (laws.array_fixed 32) _ _ λ holder.
      Reads-bind (laws.u64_fixed) _ _ λ epoch. Reads-bind (laws.u64_fixed) _ _ λ amount_claimed.
        Reads-bind (laws.u64_fixed) _ _
          λ claimed_at_slot. Reads-bind (laws.u8_fixed) _ 0 λ bump. Reads-done

-- The kinds of account, with the struct, the decoder and the size of each.
pub data AccountKind : Type 0 where
  config pet launch king distribution holder_claim : AccountKind

abbrev pub Value : AccountKind → Type 0
Value config = Accounts.Config
Value pet = Accounts.Pet
Value launch = Accounts.Launch
Value king = Accounts.KingOfHill
Value distribution = Accounts.Distribution
Value holder_claim = Accounts.HolderClaim

abbrev pub size_of : AccountKind → ℕ
size_of config = Config.size
size_of pet = Pet.size
size_of launch = Launch.size
size_of king = King.size
size_of distribution = Distribution.size
size_of holder_claim = HolderClaim.size

unfoldable pub decode_account :
    (Bytes → Bytes) → Borsh → Text → (kind : AccountKind) → Text → Bytes → CliResult (Value kind)
decode_account hash b reason config = decode_config hash b reason
decode_account hash b reason pet = decode_pet hash b reason
decode_account hash b reason launch = decode_launch hash b reason
decode_account hash b reason king = decode_king hash b reason
decode_account hash b reason distribution = decode_distribution hash b reason
decode_account hash b reason holder_claim = decode_holder_claim hash b reason

length-drop : (n : ℕ) (bytes : Bytes) → n ≤ length bytes → length (drop n bytes) + n ≡ length bytes
length-drop zero bytes h = omega arith
length-drop (suc n) [] h = absurd (omega arith)
length-drop (suc n) (x ∷ bytes) h = omega (arith, length-drop n bytes)

split_discriminator-length :
    (hash : Bytes → Bytes) (address name : Text) (raw body : Bytes)
    → split_discriminator hash address name raw ≡ done body
    → length raw ≡ 8 + length body
unfolding split_discriminator
split_discriminator-length hash address name raw body h = ground (arith, length-drop 8 raw)

decode-rejects :
    {T : Type 0} (read : Bytes → Option (T × Bytes)) (n : ℕ) (reason target : Text) (body : Bytes)
    (v : T)
    → Reads read n
    → n < length body
    → decode read reason target body ≢ done v
unfolding decode
decode-rejects read n reason target body v reads h e = elim (Option-cases (read body)) [
  | inl q ↦ absurd (ground arith)
  | inr ((a, []), q) ↦ absurd (omega (arith, reads body a [] q))
  | inr ((a, x ∷ rest), q) ↦ absurd (ground arith)
]

-- A body as long as that of an account on chain.
split-rejects :
    {T : Type 0} (hash : Bytes → Bytes) (read : Bytes → Option (T × Bytes)) (n : ℕ)
    (reason name address : Text) (raw : Bytes) (v : T)
    → Reads read n
    → n + 8 < length raw
    → Error.◌>>=◌ (split_discriminator hash address name raw) (λ body. decode read reason name body)
      ≢ done v
split-rejects hash read n reason name address raw v reads h e =
    by_outcome (split_discriminator hash address name raw) refl e
  where
    by_outcome :
        (r : CliResult Bytes)
        → split_discriminator hash address name raw ≡ r
        → Error.◌>>=◌ r (λ body. decode read reason name body) ≢ done v
    by_outcome (fail x) q e = cc
    by_outcome panic q e = cc
    by_outcome (done body) q e =
        decode-rejects read n reason name body v reads
          (omega (arith, split_discriminator-length hash address name raw body q)) e

-- Whatever its bytes are, an account of the size that the program creates it with is rejected by the
-- client's decoder of its kind: the decoder wants every byte read, and does not read the padding.
pub decode_account-ne-done :
    (hash : Bytes → Bytes) (b : Borsh)
    → IsBorsh b
    → (reason : Text) (kind : AccountKind) (address : Text) (raw : Bytes) (v : Value kind)
    → length raw ≡ size_of kind
    → decode_account hash b reason kind address raw ≢ done v
unfolding decode_account decode_config decode_pet decode_launch decode_king decode_distribution
    decode_holder_claim
decode_account-ne-done hash b laws reason config address raw v h =
    split-rejects hash (read_config b) 69 reason (ascii "Config") address raw v
      (config-Reads b laws) (omega arith)
decode_account-ne-done hash b laws reason pet address raw v h =
    split-rejects hash (read_pet b) 73 reason (ascii "Pet") address raw v (pet-Reads b laws)
      (omega arith)
decode_account-ne-done hash b laws reason launch address raw v h =
    split-rejects hash (read_launch b) 106 reason (ascii "Launch") address raw v
      (launch-Reads b laws) (omega arith)
decode_account-ne-done hash b laws reason king address raw v h =
    split-rejects hash (read_king b) 159 reason (ascii "KingOfHill") address raw v
      (king-Reads b laws) (omega arith)
decode_account-ne-done hash b laws reason distribution address raw v h =
    split-rejects hash (read_distribution b) 57 reason (ascii "Distribution") address raw v
      (distribution-Reads b laws) (omega arith)
decode_account-ne-done hash b laws reason holder_claim address raw v h =
    split-rejects hash (read_holder_claim b) 57 reason (ascii "HolderClaim") address raw v
      (holder_claim-Reads b laws) (omega arith)
