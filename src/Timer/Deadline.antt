-- ===== src/Timer/Deadline.antt =====
-- The clock arithmetic of open-coroutine-timer/src/lib.rs. A duration is its number of nanoseconds,
-- a `u128`; a timestamp is a `u64`. The reading of the clock is an argument.
use open_coroutine.Base.{
  ℕ, ◌+◌, ◌-◌, ◌≤◌, ◌≡◌, min, arith, leb, if◌then◌else◌, u64_max, saturating_add,
}

-- `now`: the nanoseconds since the epoch, cut off at `u64::MAX`.
unfoldable pub now : ℕ → ℕ
now nanos = if leb nanos u64_max then nanos else u64_max

-- `get_timeout_time`: the reading of the clock is the second argument.
unfoldable pub get_timeout_time : ℕ → ℕ → ℕ
get_timeout_time dur time = if leb dur u64_max then saturating_add dur time else u64_max

-- For any duration and any reading of the clock, the timestamp computed is their sum cut off at
-- `u64::MAX`; so it is a `u64`, does not lie before the reading, and the time left from the
-- reading to it is at most the duration.
pub get_timeout_time-bounds :
    (dur nanos : ℕ)
    → (get_timeout_time dur (now nanos) ≡ min (dur + now nanos) u64_max)
      × (now nanos ≤ get_timeout_time dur (now nanos))
      × (get_timeout_time dur (now nanos) ≤ u64_max)
      × (get_timeout_time dur (now nanos) - now nanos ≤ dur)
unfolding get_timeout_time now
get_timeout_time-bounds dur nanos = (ground arith, ground arith, ground arith, ground arith)
