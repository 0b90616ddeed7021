-- ===== src/Resilience/Schedule.antt =====
-- When the next attempt runs, and that the retries end with their window.
use misw4501_202614_grupo.Base.{
  ℕ, zero, suc, ◌+◌, ◌-◌, ◌*◌, ◌≤◌, ◌<◌, ◌≡◌, ◌≢◌, ◌⊎◌, true, false, Option, none, some, arith,
  if◌then◌else◌,
}
use misw4501_202614_grupo.Base.Int.{pos}
use misw4501_202614_grupo.Base.Clock.{Time, zero_time}
use misw4501_202614_grupo.Resilience.{RetryPolicy, next}
use misw4501_202614_grupo.Resilience.Backoff.{IsUsable, backoff_bounds}

-- Without a window an attempt is always left, and it runs after the wait.
pub next-no_window :
    (p : RetryPolicy) (base max_wait n : ℕ) (now : Time)
    → IsUsable p base max_wait
    → ((next p (pos (n + 1)) zero_time now).1 ≡ false)
      × (now + base ≤ (next p (pos (n + 1)) zero_time now).0)
      × ((next p (pos (n + 1)) zero_time now).0 ≤ now + max_wait)
unfolding next
next-no_window p base max_wait n now u = ground (arith, backoff_bounds p base max_wait n u)

-- Within a window that ends at `e` the retries are exhausted exactly from `e` on; before, the next
-- attempt runs later than now, at the earlier of `e` and an instant from `base` to `max_wait` ahead.
next-window :
    (p : RetryPolicy) (base max_wait n : ℕ) (e now : Time)
    → IsUsable p base max_wait
    → e ≢ zero_time
    → let (at, exhausted) = next p (pos (n + 1)) e now in
      ((exhausted ≡ true) × (e ≤ now) × (at ≡ zero_time))
      ⊎ ((exhausted ≡ false)
          × (now < at)
          × (at ≤ e)
          × (at ≤ now + max_wait)
          × ((at ≡ e) ⊎ (now + base ≤ at)))
unfolding next
next-window p base max_wait n e now u h =
    ground (arith, backoff_bounds p base max_wait n u, u.base_pos)

-- An operation that keeps failing: each attempt runs when it was scheduled and fails after its
-- own latency. The result is the number of failures at which the retries are exhausted.
unfoldable pub fail_until : ℕ → RetryPolicy → Time → (ℕ → ℕ) → ℕ → Time → Option ℕ
fail_until zero p e latency failed now = none
fail_until (suc fuel) p e latency failed now =
    let rest =
      fail_until fuel p e latency (failed + 1)
        ((next p (pos (failed + 1)) e now).0 + latency failed) in
    if (next p (pos (failed + 1)) e now).1 then some (failed + 1) else rest

-- The retries were exhausted, after at most `bound` failures.
abbrev pub EndsWithin : ℕ → Option ℕ → Type 0
EndsWithin bound none = ⊥
EndsWithin bound (some r) = r ≤ bound

EndsWithin-mono : (a b : ℕ) (r : Option ℕ) → a ≤ b → EndsWithin a r → EndsWithin b r
EndsWithin-mono a b none h k = k
EndsWithin-mono a b (some r) h k = omega arith

-- Whatever the latencies, an operation that fails every time is given up, after at most one
-- attempt for each `base` of what is left of the window, and one more.
pub fail_until_ends :
    (f : ℕ) (p : RetryPolicy) (base max_wait : ℕ) (e : Time) (latency : ℕ → ℕ) (failed : ℕ)
    (now : Time)
    → IsUsable p base max_wait
    → e ≢ zero_time
    → e - now ≤ f * base
    → EndsWithin (failed + suc f) (fail_until (suc f) p e latency failed now)
unfolding fail_until
fail_until_ends zero p base max_wait e latency failed now u h k =
    ground (arith, next-window p base max_wait failed e now u h)
fail_until_ends (suc f) p base max_wait e latency failed now u h k =
    let at : Time = (next p (pos (failed + 1)) e now).0 + latency failed in
    ground (
      arith,
      next-window p base max_wait failed e now u h,
      fail_until_ends f p base max_wait e latency (failed + 1) at u h,
      EndsWithin-mono (failed + 1 + suc f) (failed + suc (suc f))
          (fail_until (suc f) p e latency (failed + 1) at),
    )
