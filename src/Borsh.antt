-- ===== src/Borsh.antt =====
-- The borsh package, which cli/src and the accounts of programs/cols/src/state derive their layouts
-- from, as a parameter: a pair of functions for each primitive type that the structs use. A derived
-- layout is that of the fields in their order. `get` gives the value and the bytes after it.
use kolz_protocol.Base.{ℕ, ◌+◌, ◌<◌, ◌^◌, ◌≡◌, Bool, Option, none, some, List, ◌++◌, length}
use kolz_protocol.Bytes.{Bytes}

pub record Primitive (A : Type 0) : Type 0 where
  pub put : A → Bytes
  pub get : Bytes → Option (A × Bytes)

pub record Borsh : Type 0 where
  pub u8 : Primitive ℕ
  pub u32 : Primitive ℕ
  pub u64 : Primitive ℕ
  pub bool : Primitive Bool
  -- `[u8; n]`, and `Pubkey`, which is one of 32 bytes.
  pub array : ℕ → Primitive Bytes
  pub string : Primitive Bytes
  -- `Vec<[u8; 32]>`
  pub nodes : Primitive (List Bytes)

-- What the format documents of a primitive of a fixed width: how many bytes a value takes and how
-- many reading takes away, and that reading gives back what was written.
pub record IsFixed {A : Type 0} (p : Primitive A) (Fits : A → Type 0) (width : ℕ) : Type 0 where
  pub length_put : (a : A) → Fits a → length (p.put a) ≡ width
  pub get_put : (a : A) (rest : Bytes) → Fits a → p.get (p.put a ++ rest) ≡ some (a, rest)
  pub get_length :
      (bytes : Bytes) (a : A) (rest : Bytes)
      → p.get bytes ≡ some (a, rest)
      → length bytes ≡ width + length rest

pub record IsBorsh (b : Borsh) : Type 0 where
  pub u8_fixed : IsFixed b.u8 (λ n. n < 2 ^ 8) 1
  pub u32_fixed : IsFixed b.u32 (λ n. n < 2 ^ 32) 4
  pub u64_fixed : IsFixed b.u64 (λ n. n < 2 ^ 64) 8
  pub bool_fixed : IsFixed b.bool (λ _. Unit {0}) 1
  pub array_fixed : (n : ℕ) → IsFixed (b.array n) (λ bytes. length bytes ≡ n) n

infixl 5 ◌>>=◌
abbrev pub ◌>>=◌ : {A B : Type 0} → Option A → (A → Option B) → Option B
none >>= rest = none
some value >>= rest = rest value
