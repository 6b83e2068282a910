-- ===== src/Bytes/Order.antt =====
-- Equality and order of byte arrays.
use kolz_protocol.Base.{◌≡◌, refl, ◌≢◌, ◌⊎◌, inl, inr, true, false, [], ◌∷◌, arith, Bool-cases}
use kolz_protocol.Bytes.{Bytes, bytes_eq, bytes_le}

pub bytes_eq_refl : (a : Bytes) → bytes_eq a a ≡ true
unfolding bytes_eq
bytes_eq_refl [] = refl
bytes_eq_refl (x ∷ xs) = ground (arith, bytes_eq_refl xs)

pub bytes_eq→≡ : (a b : Bytes) → bytes_eq a b ≡ true → a ≡ b
unfolding bytes_eq
bytes_eq→≡ [] [] h = refl
bytes_eq→≡ [] (y ∷ ys) h = cc
bytes_eq→≡ (x ∷ xs) [] h = cc
bytes_eq→≡ (x ∷ xs) (y ∷ ys) h = ground (arith, bytes_eq→≡ xs ys)

pub bytes_eq→≢ : (a b : Bytes) → bytes_eq a b ≡ false → a ≢ b
bytes_eq→≢ a b h e = ground (arith, bytes_eq_refl a)

-- The equality decides.
pub bytes_cases : (a b : Bytes) → (a ≡ b) ⊎ (a ≢ b)
bytes_cases a b = elim (Bool-cases (bytes_eq a b)) [
  | inl h ↦ inl (bytes_eq→≡ a b h)
  | inr h ↦ inr (bytes_eq→≢ a b h)
]

pub bytes_le_total : (a b : Bytes) → bytes_le a b ≡ false → bytes_le b a ≡ true
unfolding bytes_le
bytes_le_total [] b h = cc
bytes_le_total (x ∷ xs) [] h = refl
bytes_le_total (x ∷ xs) (y ∷ ys) h = ground (arith, bytes_le_total xs ys)

pub bytes_le_antisymm : (a b : Bytes) → bytes_le a b ≡ true → bytes_le b a ≡ true → a ≡ b
unfolding bytes_le
bytes_le_antisymm [] [] h k = refl
bytes_le_antisymm [] (y ∷ ys) h k = cc
bytes_le_antisymm (x ∷ xs) [] h k = cc
bytes_le_antisymm (x ∷ xs) (y ∷ ys) h k = ground (arith, bytes_le_antisymm xs ys)
