-- ===== src/Resilience/Tests.antt =====
-- The default policy.
use Prim.Native.Nat.{min}
use misw4501_202614_grupo.Base.{◌≡◌, refl, ◌+◌, ◌*◌, ◌^◌, arith}
use misw4501_202614_grupo.Base.Int.{pos}
use misw4501_202614_grupo.Base.Clock.{second}
use misw4501_202614_grupo.Resilience.{RetryPolicy, backoff}
use misw4501_202614_grupo.Resilience.Backoff.{IsUsable, backoff-eq_min}
use misw4501_202614_grupo.Resilience.Schedule.{EndsWithin, fail_until, fail_until_ends}

-- Waits of 2 to 30 seconds, in a window of a minute.
abbrev policy : RetryPolicy
policy = record { base = pos (2 * second); max = pos (30 * second); window = pos (60 * second) }

usable : IsUsable policy (2 * second) (30 * second)
usable = record {
  base_eq = refl;
  max_eq = refl;
  base_pos = omega arith;
  ordered = omega arith;
  fits = omega arith;
}

backoff-eq_min_example : backoff policy (pos (3 + 1)) ≡ pos (min (2 * second * 2 ^ 3) (30 * second))
backoff-eq_min_example = backoff-eq_min policy (2 * second) (30 * second) 3 usable

fail_until_ends_example : EndsWithin (0 + 31) (fail_until 31 policy (60 * second) (λ n. second) 0 0)
fail_until_ends_example =
    fail_until_ends 30 policy (2 * second) (30 * second) (60 * second) (λ n. second) 0 0 usable
      (λ h. ground arith) (omega arith)
