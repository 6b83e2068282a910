-- ===== src/Bytes.antt =====
-- Bytes, fixed-width byte arrays and public keys, as in the Rust types `[u8; N]`, `Vec<u8>` and
-- `Pubkey`: lists of numbers. Equality and order of arrays are Rust's (`==`, `<=`), the order
-- lexicographic. `to_le_bytes` is Rust's for unsigned words.
pub mod Order
pub mod LittleEndian
use kolz_protocol.Base.{
  ℕ, zero, suc, ◌/◌, ◌%◌, Bool, true, false, ◌&&◌, List, [], ◌∷◌, ltb, ◌==◌, if◌then◌else◌,
  replicate,
}

abbrev pub Bytes : Type 0
Bytes = List ℕ

abbrev pub Pubkey : Type 0
Pubkey = Bytes

-- `a == b` on byte arrays and on keys.
unfoldable pub bytes_eq : Bytes → Bytes → Bool
bytes_eq [] [] = true
bytes_eq [] (y ∷ ys) = false
bytes_eq (x ∷ xs) [] = false
bytes_eq (x ∷ xs) (y ∷ ys) = if x == y then bytes_eq xs ys else false

-- `a <= b` on byte arrays.
unfoldable pub bytes_le : Bytes → Bytes → Bool
bytes_le [] ys = true
bytes_le (x ∷ xs) [] = false
bytes_le (x ∷ xs) (y ∷ ys) = if ltb x y then true else if x == y then bytes_le xs ys else false

-- `n.to_le_bytes()` of a word of `w` bytes.
unfoldable pub to_le_bytes : ℕ → ℕ → Bytes
to_le_bytes zero n = []
to_le_bytes (suc w) n = n % 256 ∷ to_le_bytes w (n / 256)

-- `Pubkey::default()`, which is also the system program's address: 32 zero bytes.
abbrev pub default_pubkey : Pubkey
default_pubkey = replicate 32 0
