-- ===== src/Utils/Names.antt =====
-- `pack_kol_name` and `unpack_kol_name` in programs/cols/src/utils.rs.
use kolz_protocol.Base.{ℕ, zero, suc, ◌-◌, ◌≤◌, ◌≡◌, ap, ◌∙◌, ◌++◌, length, drop, replicate, arith}
use kolz_protocol.Bytes.{Bytes}
use kolz_protocol.Errors.{ok}
use kolz_protocol.Utils.{pack_kol_name}

pub drop-replicate : (n m x : ℕ) → drop n (replicate m x) ≡ replicate (m - n) x
drop-replicate zero m x = ap (λ n. replicate n x) {x = m} {y = m - 0} (omega arith)
drop-replicate (suc n) zero x = ap (λ k. replicate k x) {x = 0} {y = 0 - suc n} (omega arith)
drop-replicate (suc n) (suc m) x =
    drop-replicate n m x ∙ ap (λ k. replicate k x) {x = m - n} {y = suc m - suc n} (omega arith)

-- A name that fits is packed into itself and zeros.
pub pack_kol_name-pads :
    (name : Bytes)
    → length name ≤ 32
    → pack_kol_name name ≡ ok (name ++ replicate (32 - length name) 0)
unfolding pack_kol_name
pack_kol_name-pads name h = ground (arith, drop-replicate (length name) 32 0)
