-- ===== src/Claims/Decision/Store.antt =====
-- The store of the decisions, services/claims/internal/adapters/memory/decisions.go, and the cap on
-- the automatic attempts of services/claims/internal/decision/worker.go. A read returns a copy, so a
-- caller shares nothing with the store, and the mutex makes every operation one step.
use misw4501_202614_grupo.Base.{
  ◌+◌, Bool, true, false, not, ◌&&◌, ◌||◌, Option, none, some, [], Result, ok, err, leb,
  if◌then◌else◌,
}
use misw4501_202614_grupo.Base.Text.{Str}
use misw4501_202614_grupo.Base.Dict.{Dict, lookup, insert}
use misw4501_202614_grupo.Base.Clock.{Time, Duration, zero_time, is_after, is_before, add_time}
use misw4501_202614_grupo.Base.{◌==◌}
use misw4501_202614_grupo.Idempotency
use misw4501_202614_grupo.Idempotency.{FailureReason, retry_window_expired}
use misw4501_202614_grupo.Claims.Case.{Status, ClaimRecord, zero_claim, with_status, decidable}
use misw4501_202614_grupo.Claims.Cases.{CaseStore}
use misw4501_202614_grupo.Claims.Decision.{
  Payout, Decision, PayoutRetry, payout_failure_for, status_of, max_automatic_payout_attempts,
}

pub record DecisionStore : Type 0 where
  pub cases : CaseStore
  pub decisions : Dict Decision

pub data StoreError : Type 0 where
  claim_not_found not_decidable decision_not_found payout_not_retryable claim_lost : StoreError

abbrev found_or_zero : Option ClaimRecord → ClaimRecord
found_or_zero none = zero_claim
found_or_zero (some c) = c

-- A claim that is not there reads as the zero record, which is then stored under the id.
unfoldable pub set_status : Str → Status → DecisionStore → DecisionStore
set_status claim_id st s =
    let cases = s.cases in
    let c = found_or_zero (lookup claim_id cases.by_id) in
    record s { cases = record cases { by_id = insert claim_id (with_status st c) cases.by_id } }

unfoldable pub write : Str → Decision → DecisionStore → DecisionStore
write id d s = record s { decisions = insert id d s.decisions }

-- The decision is stored, and its claim moves to the status of the decision.
unfoldable pub store_and_move : Str → Decision → DecisionStore → DecisionStore
unfolding set_status status_of write
store_and_move claim_id d s = set_status claim_id (status_of d) (write claim_id d s)

unfoldable pub decide : Decision → DecisionStore → DecisionStore × Result StoreError Decision
decide d s = elim (lookup d.claim_id s.cases.by_id) [
  | none ↦ (s, err claim_not_found)
  | some c ↦
      if not (decidable c.status)
      then (s, err not_decidable)
      else elim (lookup d.claim_id s.decisions) [
        | some _ ↦ (s, err not_decidable)
        | none ↦
            let stored = record d { filing_number = c.filing_number } in
            (store_and_move d.claim_id stored s, ok stored)
      ]
]

-- `DecisionStore.Decision`.
unfoldable pub decision : Str → DecisionStore → Result StoreError Decision
decision claim_id s = elim (lookup claim_id s.decisions) [
  | none ↦ err decision_not_found
  | some d ↦ ok d
]

abbrev pub is_pending : Idempotency.Status → Bool
is_pending Idempotency.Status.pending = true
is_pending _ = false

abbrev pub is_in_progress : Idempotency.Status → Bool
is_in_progress Idempotency.Status.in_progress = true
is_in_progress _ = false

abbrev pub is_failed : Idempotency.Status → Bool
is_failed Idempotency.Status.failed = true
is_failed _ = false

unfoldable pub due : Option Payout → Time → Bool
due none now = false
due (some p) now =
    is_pending p.status && not (is_after p.next_attempt_at now)
    || is_in_progress p.status && is_before p.claimed_until now

abbrev pub with_payout : Decision → Payout → Decision
with_payout d p = record d { payout = some p }

abbrev pub claimed_payout : Time → Duration → Payout → Payout
claimed_payout now lease p = record p {
  status = Idempotency.Status.in_progress;
  claimed_until = add_time now lease;
  last_attempt_at = now;
}

-- `claim` moves a due payout to in_progress with a lease.
unfoldable pub claim :
    Str → Time → Duration → DecisionStore → DecisionStore × Result StoreError (Option Decision)
unfolding due
claim claim_id now lease s = elim (lookup claim_id s.decisions) [
  | none ↦ (s, ok none)
  | some d ↦ elim (d.payout) [
    | none ↦ (s, ok none)
    | some p ↦
        let taken = with_payout d (claimed_payout now lease p) in
        if due (some p) now then (write claim_id taken s, ok (some taken)) else (s, ok none)
  ]
]

-- When the lease of the record ends.
abbrev pub claimed_until_of : Option Payout → Time
claimed_until_of none = zero_time
claimed_until_of (some p) = p.claimed_until

-- `change` is applied to the payout if the claim of `rec` is still held.
unfoldable pub held :
    Decision → (Payout → Payout) → DecisionStore → DecisionStore × Result StoreError Decision
held rec change s = elim (lookup rec.claim_id s.decisions) [
  | none ↦ (s, err claim_lost)
  | some d ↦ elim (d.payout) [
    | none ↦ (s, err claim_lost)
    | some p ↦
        let stored = with_payout d (change p) in
        if is_in_progress p.status && p.claimed_until == claimed_until_of rec.payout
        then (store_and_move rec.claim_id stored s, ok stored)
        else (s, err claim_lost)
  ]
]

abbrev pub confirmed_payout : Time → Idempotency.Outcome → Payout → Payout
confirmed_payout now out p = record p {
  status = Idempotency.Status.confirmed;
  confirmed_at = now;
  reference = out.reference;
  next_attempt_at = zero_time;
  claimed_until = zero_time;
  failure = none;
}

abbrev pub rescheduled_payout : Time → Time → Str → Payout → Payout
rescheduled_payout now next cause p = record p {
  status = Idempotency.Status.pending;
  attempts = p.attempts + 1;
  next_attempt_at = next;
  claimed_until = zero_time;
  last_failure_at = now;
  last_error = cause;
}

abbrev pub failed_payout : Time → FailureReason → Str → Payout → Payout
failed_payout now reason cause p = record p {
  status = Idempotency.Status.failed;
  attempts = p.attempts + 1;
  next_attempt_at = zero_time;
  claimed_until = zero_time;
  failure = some (payout_failure_for reason);
  last_failure_at = now;
  last_error = cause;
}

unfoldable pub confirm :
    Decision
    → Time
    → Idempotency.Outcome
    → DecisionStore
    → DecisionStore × Result StoreError Decision
unfolding held
confirm rec now out s = held rec (confirmed_payout now out) s

unfoldable pub reschedule :
    Decision → Time → Time → Str → DecisionStore → DecisionStore × Result StoreError Decision
unfolding held
reschedule rec now next cause s = held rec (rescheduled_payout now next cause) s

unfoldable pub fail :
    Decision
    → Time
    → FailureReason
    → Str
    → DecisionStore
    → DecisionStore × Result StoreError Decision
unfolding held payout_failure_for
fail rec now reason cause s = held rec (failed_payout now reason cause) s

-- `capped.Reschedule`: the attempt that would be rescheduled after the last automatic one fails.
unfoldable pub capped_reschedule :
    Decision → Time → Time → Str → DecisionStore → DecisionStore × Result StoreError Decision
unfolding reschedule fail
capped_reschedule d now next cause s = elim (d.payout) [
  | none ↦ reschedule d now next cause s
  | some p ↦
      if leb max_automatic_payout_attempts (p.attempts + 1)
      then fail d now retry_window_expired cause s
      else reschedule d now next cause s
]

-- The store that the worker hands to the runner.
abbrev pub capped : Idempotency.Store DecisionStore Decision StoreError
capped = record { claim = claim; confirm = confirm; reschedule = capped_reschedule; fail = fail }

-- A failed payout keeps the reason of the gateway.
unfoldable pub record_gateway_code : Str → Str → DecisionStore → DecisionStore
record_gateway_code claim_id code s = elim (lookup claim_id s.decisions) [
  | none ↦ s
  | some d ↦ elim (d.payout) [
    | none ↦ s
    | some p ↦
        if is_failed p.status
        then write claim_id (with_payout d (record p { gateway_code = code })) s
        else s
  ]
]

not_retryable : Str → DecisionStore → StoreError
not_retryable claim_id s = elim (lookup claim_id s.cases.by_id) [
  | none ↦ claim_not_found
  | some _ ↦ payout_not_retryable
]

abbrev pub retried_payout : PayoutRetry → Payout → Payout
retried_payout r p = record p {
  status = Idempotency.Status.pending;
  attempts = 0;
  next_attempt_at = r.at;
  claimed_until = zero_time;
  failure = none;
  gateway_code = [];
  destination = elim (r.destination) [ none ↦ p.destination | some account ↦ account ];
  manual_retries = p.manual_retries + 1;
  last_retried_by = r.by;
  last_retried_at = r.at;
}

unfoldable pub retry_payout :
    Str → PayoutRetry → DecisionStore → DecisionStore × Result StoreError Decision
unfolding not_retryable
retry_payout claim_id r s = elim (lookup claim_id s.decisions) [
  | none ↦ (s, err (not_retryable claim_id s))
  | some d ↦ elim (d.payout) [
    | none ↦ (s, err (not_retryable claim_id s))
    | some p ↦
        let stored = with_payout d (retried_payout r p) in
        if is_failed p.status
        then (store_and_move claim_id stored s, ok stored)
        else (s, err (not_retryable claim_id s))
  ]
]
