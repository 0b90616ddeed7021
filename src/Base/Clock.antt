-- ===== src/Base/Clock.antt =====
-- Instants and durations. An instant is a number of nanoseconds after the zero time of the
-- language (`time.Time{}` is 0); a duration is a signed number of nanoseconds. An instant carries
-- no time zone, so `UTC()` is the identity.
use misw4501_202614_grupo.Base.{ℕ, suc, ◌+◌, ◌-◌, Bool, ◌==◌, ltb}
use misw4501_202614_grupo.Base.Int.{ℤ, pos, negsuc}

abbrev pub Time : Type 0
Time = ℕ

abbrev pub Duration : Type 0
Duration = ℤ

abbrev pub zero_time : Time
zero_time = 0

abbrev pub is_zero : Time → Bool
is_zero t = t == 0

abbrev pub is_before : Time → Time → Bool
is_before a b = ltb a b

abbrev pub is_after : Time → Time → Bool
is_after a b = ltb b a

-- Instants before the zero time are not represented.
abbrev pub add_time : Time → Duration → Time
add_time t (pos n) = t + n
add_time t (negsuc n) = t - suc n

abbrev pub millisecond : ℕ
millisecond = 1_000_000

abbrev pub second : ℕ
second = 1_000_000_000
