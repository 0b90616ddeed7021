-- ===== src/Claims/Decision/Tests.antt =====
-- Runs of the claim of the samples.
use misw4501_202614_grupo.Base.{◌≤◌, ◌≡◌, refl, ◌≢◌, some, ℕ_discrete, nth, remove_at}
use misw4501_202614_grupo.Base.Int.{pos, wrap64, ◌-ℤ◌, ◌+ℤ◌, ◌*ℤ◌}
use misw4501_202614_grupo.Base.Text.{lit, str_eq, trim_space, is_space, trim_left}
use misw4501_202614_grupo.Base.Dict.{lookup, insert}
use misw4501_202614_grupo.Idempotency
use misw4501_202614_grupo.Idempotency.{CallError, Cause, classify, wraps_rejected, wraps_not_sent}
use misw4501_202614_grupo.Idempotency.Runner.{record_result, finish}
use misw4501_202614_grupo.Claims.Case.{decidable, triageable, triageable_statuses, Status-discrete}
use misw4501_202614_grupo.Claims.Decision.{
  approve, deductible_of, payout_key, status_of, payout_status, attempt_state,
}
use misw4501_202614_grupo.Claims.Decision.Store.{
  with_payout, claimed_payout, claim, decide, due, confirm, held, store_and_move, set_status, write,
}
use misw4501_202614_grupo.Claims.Decision.Entries.{claim_status}
use misw4501_202614_grupo.Claims.Decision.World.{file, decide_if, act, run}
use misw4501_202614_grupo.Claims.Decision.Payouts.{started, payout_at, reachable_payout, one_holder}
use misw4501_202614_grupo.Claims.Decision.Final.{confirmed_payout_final}
use misw4501_202614_grupo.Claims.Decision.Worker.{default_retry}
use misw4501_202614_grupo.Claims.Decision.Samples.{
  lease, pending_payout, approval, paying, paid_payout, later, second_payout, second_approval,
  side_by_side,
}

pays :
    lookup (lit "7") (run default_retry lease (started 0) paying).store.decisions
    ≡ some (with_payout approval paid_payout)
unfolding run act lookup claim decide_if approve wrap64 ◌-ℤ◌ ◌+ℤ◌ ◌*ℤ◌ trim_space is_space trim_left
    decide file insert str_eq decidable triageable triageable_statuses Status-discrete ℕ_discrete
    store_and_move set_status write due deductible_of payout_key payout_status status_of
    record_result finish classify confirm held attempt_state
pays = refl

holds_first :
    (nth 0 (run default_retry lease (started 0) side_by_side).flights
      ≡ some (with_payout second_approval (claimed_payout 0 (pos lease) second_payout)))
    × (nth 0 (remove_at 0 (run default_retry lease (started 0) side_by_side).flights)
        ≡ some (with_payout approval (claimed_payout 0 (pos lease) pending_payout)))
unfolding run act lookup claim decide_if approve wrap64 ◌-ℤ◌ ◌+ℤ◌ ◌*ℤ◌ trim_space is_space trim_left
    decide file insert str_eq decidable triageable triageable_statuses Status-discrete ℕ_discrete
    store_and_move set_status write due deductible_of payout_key payout_status status_of
    record_result finish classify confirm held attempt_state
holds_first = (refl, refl)

reachable_payout_example :
    let s = (run default_retry lease (started 0) paying).store in
    (paid_payout.key ≡ payout_key (lit "7"))
    × (paid_payout.amount_minor
        ≡ wrap64 (pos 2_000_000 -ℤ deductible_of (pos 2_000_000) (pos 1000)))
    × (paid_payout.attempts ≤ 3)
    × (paid_payout.attempts ≡ 3 → paid_payout.status ≡ Idempotency.Status.failed)
    × (claim_status (lit "7") s ≡ some (status_of (with_payout approval paid_payout)))
reachable_payout_example =
    reachable_payout default_retry lease 0 paying (lit "7") (with_payout approval paid_payout)
      paid_payout pays refl

confirmed_payout_final_example :
    payout_at
      (lit "7")
      (run default_retry lease (run default_retry lease (started 0) paying) later).store
    ≡ some paid_payout
unfolding run act lookup claim decide_if approve wrap64 ◌-ℤ◌ ◌+ℤ◌ ◌*ℤ◌ trim_space is_space trim_left
    decide file insert str_eq decidable triageable triageable_statuses Status-discrete ℕ_discrete
    store_and_move set_status write due deductible_of payout_key payout_status status_of
    record_result finish classify confirm held attempt_state
confirmed_payout_final_example =
    confirmed_payout_final default_retry lease 0 paying later (lit "7") paid_payout refl refl

one_holder_example : lit "8" ≢ lit "7"
unfolding run act lookup claim decide_if approve wrap64 ◌-ℤ◌ ◌+ℤ◌ ◌*ℤ◌ trim_space is_space trim_left
    decide file insert str_eq decidable triageable triageable_statuses Status-discrete ℕ_discrete
    store_and_move set_status write due deductible_of payout_key payout_status status_of
    record_result finish classify confirm held attempt_state
one_holder_example =
    one_holder default_retry lease 0 side_by_side 0 0
      (with_payout second_approval (claimed_payout 0 (pos lease) second_payout))
      (with_payout approval (claimed_payout 0 (pos lease) pending_payout)) holds_first.0
      holds_first.1 refl refl
