-- ===== src/Tests/Limits.antt =====
-- Names, limits and slots.
use kolz_protocol.Base.{◌≡◌, ◌+◌, ◌^◌, ◌⊎◌, ◌<◌, ◌≤◌, ◌↔◌, true, arith}
use kolz_protocol.Bytes.{Bytes}
use kolz_protocol.Utils
use kolz_protocol.Tests.Scenario
use kolz_protocol.Constants.{throne_settlement_slots}
use kolz_protocol.Utils.Limits.{is_window_over-settles_at}

is_window_over-settles_at_example :
    (Utils.settles_at 1000 < 2 ^ 64)
    × ((Utils.is_window_over 1_513_000 (Utils.settles_at 1000) ≡ true)
        ↔ ((1000 + throne_settlement_slots ≤ 1_513_000) ⊎ (1_513_000 + 1 ≡ 2 ^ 64)))
is_window_over-settles_at_example =
    is_window_over-settles_at 1000 1_513_000 (omega arith) (omega arith)
