-- ===== src/Utils.antt =====
-- programs/cols/src/utils.rs but for the tree: names, limits on metadata and fees, slots.
pub mod Names
pub mod Limits
use kolz_protocol.Base.{
  ℕ, zero, suc, ◌+◌, ◌-◌, Bool, false, not, ◌&&◌, Option, none, some, List, [], ◌∷◌, ◌++◌, ltb, leb,
  ◌==◌, if◌then◌else◌, length, get_elem?, take, drop, replicate,
}
use kolz_protocol.Bytes.{Bytes}
use kolz_protocol.Constants.{
  kol_name_len, max_metadata_name_len, max_metadata_symbol_len, max_metadata_uri_len,
  throne_settlement_slots, max_fee_bps, u64_bound,
}
use kolz_protocol.Errors.{
  Result, ok, err, cols, name_too_long, symbol_too_long, uri_too_long, fee_bps_out_of_range,
}

-- `out[..input.len()].copy_from_slice(input)`, for an input that is no longer than `out`.
abbrev pub copy_prefix : Bytes → Bytes → Bytes
copy_prefix input out = input ++ drop (length input) out

unfoldable pub pack_kol_name : Bytes → Result Bytes
pack_kol_name input =
    if ltb kol_name_len (length input)
    then err (cols name_too_long)
    else ok (copy_prefix input (replicate kol_name_len 0))

-- `buf[i] == 0`; the loop below reads only inside the buffer.
unfoldable pub is_zero_at : Bytes → ℕ → Bool
is_zero_at buf i = elim (get_elem? buf i) [ some b ↦ b == 0 | none ↦ false ]

-- The loop of `unpack_kol_name`, from `end` down.
unfoldable pub trimmed_end : Bytes → ℕ → ℕ
unfolding is_zero_at
trimmed_end buf zero = zero
trimmed_end buf (suc e) = let rest = trimmed_end buf e in if is_zero_at buf e then rest else suc e

unfoldable pub unpack_kol_name : Bytes → Bytes
unfolding trimmed_end
unpack_kol_name buf = take (trimmed_end buf (length buf)) buf

-- The strings are given by their UTF-8 bytes.
unfoldable pub check_metadata_lengths : Bytes → Bytes → Bytes → Result (Unit {0})
check_metadata_lengths name symbol uri =
    if ltb max_metadata_name_len (length name)
    then err (cols name_too_long)
    else if ltb max_metadata_symbol_len (length symbol)
    then err (cols symbol_too_long)
    else if ltb max_metadata_uri_len (length uri)
    then err (cols uri_too_long)
    else ok tt

unfoldable pub check_fee_bps : ℕ → Result (Unit {0})
check_fee_bps bps = if ltb max_fee_bps bps then err (cols fee_bps_out_of_range) else ok tt

-- `u64::saturating_add` and `u64::checked_add`; the bound is one more than the greatest word.
unfoldable pub saturating_add : ℕ → ℕ → ℕ → ℕ
saturating_add bound a b = if ltb (a + b) bound then a + b else bound - 1

unfoldable pub checked_add : ℕ → ℕ → ℕ → Option ℕ
checked_add bound a b = if ltb (a + b) bound then some (a + b) else none

-- `slots::settles_at` and `slots::is_window_over`.
unfoldable pub settles_at : ℕ → ℕ
unfolding saturating_add
settles_at first_capture_slot = saturating_add u64_bound first_capture_slot throne_settlement_slots

unfoldable pub is_window_over : ℕ → ℕ → Bool
is_window_over now settles_at_slot = not (settles_at_slot == 0) && leb settles_at_slot now
