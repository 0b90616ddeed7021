-- ===== src/Resilience/Backoff.antt =====
-- The wait in closed form: the base doubled after each further failure, and never above the cap.
use Prim.Native.Nat.{min}
use native.Mathlib.Nat.{pow-suc, one-le-pow, add-sub_cancel}
use misw4501_202614_grupo.Base.{
  ℕ, zero, suc, ◌+◌, ◌*◌, ◌^◌, ◌≤◌, ◌<◌, ◌≡◌, ◌↔◌, none, ap, ◌∙◌, arith,
}
use misw4501_202614_grupo.Base.Int.{pos, ◌*ℤ◌, ◌≤ℤ◌, int64_limit, wrap64, wrap64-pos}
use misw4501_202614_grupo.Resilience.{RetryPolicy, validate, backoff_loop, backoff}

-- A usable policy whose waits an int64 holds, with its waits as plain numbers.
pub record IsUsable (p : RetryPolicy) (base max_wait : ℕ) : Type 0 where
  pub base_eq : p.base ≡ pos base
  pub max_eq : p.max ≡ pos max_wait
  pub base_pos : 0 < base
  pub ordered : base ≤ max_wait
  pub fits : max_wait < int64_limit

double : (w : ℕ) → w * 2 < int64_limit → wrap64 (pos w *ℤ pos 2) ≡ pos (w * 2)
unfolding ◌*ℤ◌
double w h = ap wrap64 {x = pos w *ℤ pos 2} {y = pos (w * 2)} (ground arith) ∙ wrap64-pos (w * 2) h

le-mul-pow : (w n : ℕ) → w ≤ w * 2 ^ n
le-mul-pow w n = grind (arith, one-le-pow n 2 (omega arith))

mul-pow-suc : (w n : ℕ) → w * 2 ^ suc n ≡ w * 2 * 2 ^ n
mul-pow-suc w n = rw (pow-suc 2 n) (omega arith)

-- The loop doubles a wait that the cap leaves room to double, so the word never overflows.
backoff_loop-eq :
    (n w c : ℕ) → 0 < w → c < int64_limit → backoff_loop n (pos w) (pos c) ≡ pos (min (w * 2 ^ n) c)
unfolding backoff_loop
backoff_loop-eq zero w c h k = ground arith
backoff_loop-eq (suc n) w c h k =
    ground (
      arith,
      double w,
      mul-pow-suc w n,
      le-mul-pow w n,
      backoff_loop-eq n (w * 2) c (omega arith) k,
    )

-- The wait after `n` + 1 failed attempts is the base doubled `n` times, capped: no doubling
-- overflows the 64-bit word.
pub backoff-eq_min :
    (p : RetryPolicy) (base max_wait n : ℕ)
    → IsUsable p base max_wait
    → backoff p (pos (n + 1)) ≡ pos (min (base * 2 ^ n) max_wait)
unfolding backoff
backoff-eq_min p base max_wait n u =
    rw (u.base_eq, u.max_eq, add-sub_cancel n 1) (backoff_loop-eq n base max_wait u.base_pos u.fits)

-- A policy whose waits and window are int64 durations passes `Validate` exactly if its base is
-- positive, its cap not below the base and its window not negative.
validate-none_iff :
    (p : RetryPolicy)
    → (validate p ≡ none) ↔ ((pos 1 ≤ℤ p.base) × (p.base ≤ℤ p.max) × (pos 0 ≤ℤ p.window))
unfolding validate
validate-none_iff p = ground arith

-- What a usable policy waits after any number of failures lies between its base and its cap.
pub backoff_bounds :
    (p : RetryPolicy) (base max_wait n : ℕ)
    → IsUsable p base max_wait
    → (w : ℕ) × (backoff p (pos (n + 1)) ≡ pos w) × (base ≤ w) × (w ≤ max_wait)
backoff_bounds p base max_wait n u = (
  min (base * 2 ^ n) max_wait,
  backoff-eq_min p base max_wait n u,
  omega (arith, le-mul-pow base n, u),
  omega arith,
)
