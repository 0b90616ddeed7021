-- ===== src/Resilience.antt =====
-- The retry policy of pkg/resilience/retry.go: the growing wait between the attempts of an
-- operation that must eventually succeed, within a window. Waits are int64 durations, so a doubling
-- wraps around where the word overflows.
pub mod Backoff
pub mod Schedule
mod Tests
use misw4501_202614_grupo.Base.{
  ℕ, zero, suc, ◌+◌, ◌-◌, ◌*◌, ◌≡◌, refl, Bool, true, false, not, Option, none, some, if◌then◌else◌,
}
use misw4501_202614_grupo.Base.Int.{ℤ, pos, negsuc, ◌*ℤ◌, quot, ltb_ℤ, leb_ℤ, wrap64}
use misw4501_202614_grupo.Base.Clock.{
  Time, Duration, zero_time, is_zero, is_before, is_after, add_time, millisecond, second,
}

abbrev pub default_retry_base : Duration
default_retry_base = pos (500 * millisecond)

abbrev pub default_retry_max : Duration
default_retry_max = pos (60 * second)

abbrev pub default_retry_window : Duration
default_retry_window = pos (24 * 3600 * second)

pub record RetryPolicy : Type 0 where
  pub base : Duration
  pub max : Duration
  pub window : Duration

abbrev pub default_retry_policy : RetryPolicy
default_retry_policy = record {
  base = default_retry_base;
  max = default_retry_max;
  window = default_retry_window;
}

pub data PolicyError : Type 0 where
  base_not_positive max_below_base window_negative : PolicyError

-- `none` is a usable policy.
unfoldable pub validate : RetryPolicy → Option PolicyError
validate p =
    if leb_ℤ p.base (pos 0)
    then some base_not_positive
    else if ltb_ℤ p.max p.base
    then some max_below_base
    else if ltb_ℤ p.window (pos 0)
    then some window_negative
    else none

abbrev pub min_ℤ : ℤ → ℤ → ℤ
min_ℤ a b = if ltb_ℤ b a then b else a

-- The rounds that the `for` of `Backoff` has left, and its wait.
unfoldable pub backoff_loop : ℕ → Duration → Duration → Duration
backoff_loop zero wait max = min_ℤ wait max
backoff_loop (suc n) wait max =
    let rest = backoff_loop n (wrap64 (wait *ℤ pos 2)) max in
    if ltb_ℤ wait max then (if ltb_ℤ (quot max 2) wait then max else rest) else min_ℤ wait max

-- `i` starts at 1, so there is one round less than failures, and none for a count below 1.
abbrev pub rounds : ℤ → ℕ
rounds (pos n) = n - 1
rounds (negsuc n) = 0

unfoldable pub backoff : RetryPolicy → ℤ → Duration
backoff p failed_attempts = backoff_loop (rounds failed_attempts) p.base p.max

unfoldable pub window_end : RetryPolicy → Time → Time
window_end p start = if leb_ℤ p.window (pos 0) then zero_time else add_time start p.window

-- The instant of the next attempt, and whether the window is over.
unfoldable pub next : RetryPolicy → ℤ → Time → Time → Time × Bool
next p failed_attempts window_ends_at now =
    let at = add_time now (backoff p failed_attempts) in
    if is_zero window_ends_at
    then (at, false)
    else if not (is_before now window_ends_at)
    then (zero_time, true)
    else if is_after at window_ends_at
    then (window_ends_at, false)
    else (at, false)
