-- ===== src/Tests/Codec.antt =====
-- A borsh that computes: words are little-endian, arrays stand as they are, a Boolean is one byte,
-- and what has a length is written after it.
use kolz_protocol.Base.{
  ℕ, zero, suc, ◌+◌, ◌*◌, ◌<◌, ◌^◌, ◌/◌, ◌%◌, ◌≡◌, refl, Bool, true, false, Option, none, some,
  List, [], ◌∷◌, ◌++◌, length, arith, Option-cases, inl, inr,
}
use kolz_protocol.Bytes.{Bytes, to_le_bytes}
use kolz_protocol.Bytes.LittleEndian.{length-to_le_bytes}
use kolz_protocol.Borsh.{Primitive, Borsh, IsFixed, IsBorsh, ◌>>=◌}
use native.Mathlib.Nat.{pow-suc}

unfoldable pub get_word : ℕ → Bytes → Option (ℕ × Bytes)
get_word zero bytes = some (0, bytes)
get_word (suc w) [] = none
get_word (suc w) (b ∷ bytes) = do (high, rest) ← get_word w bytes; some (b + 256 * high, rest)

unfoldable pub get_array : ℕ → Bytes → Option (Bytes × Bytes)
get_array zero bytes = some ([], bytes)
get_array (suc n) [] = none
get_array (suc n) (b ∷ bytes) = do (more, rest) ← get_array n bytes; some (b ∷ more, rest)

unfoldable pub put_bool : Bool → Bytes
put_bool true = 1 ∷ []
put_bool false = 0 ∷ []

unfoldable pub get_bool : Bytes → Option (Bool × Bytes)
get_bool [] = none
get_bool (zero ∷ rest) = some (false, rest)
get_bool (suc zero ∷ rest) = some (true, rest)
get_bool (suc (suc n) ∷ rest) = none

unfoldable pub put_string : Bytes → Bytes
put_string s = to_le_bytes 4 (length s) ++ s

unfoldable pub get_string : Bytes → Option (Bytes × Bytes)
get_string bytes = do (n, rest) ← get_word 4 bytes; get_array n rest

unfoldable pub concat : List Bytes → Bytes
concat [] = []
concat (x ∷ xs) = x ++ concat xs

unfoldable pub get_nodes : ℕ → Bytes → Option (List Bytes × Bytes)
get_nodes zero bytes = some ([], bytes)
get_nodes (suc n) bytes = do
  (node, rest) ← get_array 32 bytes
  (nodes, over) ← get_nodes n rest
  some (node ∷ nodes, over)

abbrev pub word : ℕ → Primitive ℕ
word w = record { put = to_le_bytes w; get = get_word w }

abbrev pub toy_borsh : Borsh
toy_borsh = record {
  u8 = word 1;
  u32 = word 4;
  u64 = word 8;
  bool = record { put = put_bool; get = get_bool };
  array = λ n. record { put = λ bytes. bytes; get = get_array n };
  string = record { put = put_string; get = get_string };
  nodes = record {
    put = λ nodes. to_le_bytes 4 (length nodes) ++ concat nodes;
    get = λ bytes. get_word 4 bytes >>= λ (n, rest). get_nodes n rest;
  };
}

get_word-put :
    (w n : ℕ) (rest : Bytes) → n < 256 ^ w → get_word w (to_le_bytes w n ++ rest) ≡ some (n, rest)
unfolding get_word to_le_bytes
get_word-put zero n rest h = let same : 0 ≡ n = omega arith in cc
get_word-put (suc w) n rest h =
    rw (get_word-put w (n / 256) rest (omega (arith, pow-suc 256 w)))
      (let same : n % 256 + 256 * (n / 256) ≡ n = omega arith in cc)

get_word-length :
    (w : ℕ) (bytes : Bytes) (n : ℕ) (rest : Bytes)
    → get_word w bytes ≡ some (n, rest)
    → length bytes ≡ w + length rest
unfolding get_word
get_word-length zero bytes n rest h = let same : bytes ≡ rest = cc in rw same (omega arith)
get_word-length (suc w) [] n rest h = absurd (ground arith)
get_word-length (suc w) (b ∷ bytes) n rest h = elim (Option-cases (get_word w bytes)) [
  | inl q ↦ absurd (ground arith)
  | inr ((m, over), q) ↦ ground (arith, get_word-length w bytes m over q)
]

get_array-put :
    (n : ℕ) (bytes rest : Bytes)
    → length bytes ≡ n
    → get_array n (bytes ++ rest) ≡ some (bytes, rest)
unfolding get_array
get_array-put zero [] rest h = refl
get_array-put zero (b ∷ bytes) rest h = absurd (omega arith)
get_array-put (suc n) [] rest h = absurd (omega arith)
get_array-put (suc n) (b ∷ bytes) rest h = rw (get_array-put n bytes rest (omega arith)) refl

get_array-length :
    (n : ℕ) (bytes a rest : Bytes)
    → get_array n bytes ≡ some (a, rest)
    → length bytes ≡ n + length rest
unfolding get_array
get_array-length zero bytes a rest h = let same : bytes ≡ rest = cc in rw same (omega arith)
get_array-length (suc n) [] a rest h = absurd (ground arith)
get_array-length (suc n) (b ∷ bytes) a rest h = elim (Option-cases (get_array n bytes)) [
  | inl q ↦ absurd (ground arith)
  | inr ((m, over), q) ↦ ground (arith, get_array-length n bytes m over q)
]

word-IsFixed : (w bound : ℕ) → bound ≡ 256 ^ w → IsFixed (word w) (λ n. n < bound) w
word-IsFixed w bound e = record {
  length_put = λ n h. length-to_le_bytes w n;
  get_put = λ n rest h. get_word-put w n rest (rw e at h);
  get_length = get_word-length w;
}

bool-IsFixed : IsFixed toy_borsh.bool (λ _. Unit {0}) 1
unfolding put_bool get_bool
bool-IsFixed = record { length_put = size; get_put = back; get_length = shorter }
  where
    size : (v : Bool) → Unit {0} → length (put_bool v) ≡ 1
    size true h = refl
    size false h = refl

    back : (v : Bool) (rest : Bytes) → Unit {0} → get_bool (put_bool v ++ rest) ≡ some (v, rest)
    back true rest h = refl
    back false rest h = refl

    shorter :
        (bytes : Bytes) (v : Bool) (rest : Bytes)
        → get_bool bytes ≡ some (v, rest)
        → length bytes ≡ 1 + length rest
    shorter [] v rest h = absurd (ground arith)
    shorter (zero ∷ bytes) v rest h = ground arith
    shorter (suc zero ∷ bytes) v rest h = ground arith
    shorter (suc (suc n) ∷ bytes) v rest h = absurd (ground arith)

pub toy_borsh-IsBorsh : IsBorsh toy_borsh
toy_borsh-IsBorsh = record {
  u8_fixed = word-IsFixed 1 (2 ^ 8) refl;
  u32_fixed = word-IsFixed 4 (2 ^ 32) refl;
  u64_fixed = word-IsFixed 8 (2 ^ 64) refl;
  bool_fixed = bool-IsFixed;
  array_fixed = λ n. record {
    length_put = λ bytes h. h;
    get_put = get_array-put n;
    get_length = get_array-length n;
  };
}
