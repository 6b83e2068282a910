-- ===== src/Utils/Limits.antt =====
-- The settlement window (`slots` in programs/cols/src/utils.rs).
use kolz_protocol.Base.{ℕ, ◌+◌, ◌≤◌, ◌<◌, ◌≡◌, ◌↔◌, ◌⊎◌, true, arith}
use kolz_protocol.Constants.{u64_bound, throne_settlement_slots}
use kolz_protocol.Utils.{settles_at, is_window_over}

-- From the slot of the first capture, a word: the deadline is a word, and the window is over at
-- slot `now` exactly when `now` is a settlement period or more after the capture, unless the
-- deadline saturates, where it is over at the last slot only.
pub is_window_over-settles_at :
    (first now : ℕ)
    → first < u64_bound
    → now < u64_bound
    → (settles_at first < u64_bound)
      × ((is_window_over now (settles_at first) ≡ true)
          ↔ ((first + throne_settlement_slots ≤ now) ⊎ (now + 1 ≡ u64_bound)))
unfolding settles_at is_window_over
is_window_over-settles_at first now h k = ground arith
