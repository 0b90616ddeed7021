-- ===== src/Idempotency/Runner.antt =====
-- `Runner` of pkg/idempotency/runner.go. The provider is called between the claim and the record of
-- its result, and other workers may write the store meanwhile: the call takes the state of the store
-- and returns the one that it leaves.
use misw4501_202614_grupo.Base.{
  ◌+◌, Bool, true, false, Option, none, some, [], Result, ok, err, if◌then◌else◌,
}
use misw4501_202614_grupo.Base.Int.{pos, leb_ℤ}
use misw4501_202614_grupo.Base.Text.{Str}
use misw4501_202614_grupo.Base.Clock.{Time, Duration}
use misw4501_202614_grupo.Resilience.{RetryPolicy, PolicyError, validate, next}
use misw4501_202614_grupo.Idempotency.{
  Status, FailureReason, CallOutcome, CallError, Attempt, Outcome, Store, classify,
}

pub data RunnerError : Type 0 where
  bad_policy : PolicyError → RunnerError
  lease_not_positive : RunnerError

-- What `NewRunner` refuses; the store and the clock are always given here.
unfoldable pub new_runner : RetryPolicy → Duration → Option RunnerError
unfolding validate
new_runner policy lease = elim (validate policy) [
  | some e ↦ some (bad_policy e)
  | none ↦ if leb_ℤ lease (pos 0) then some lease_not_positive else none
]

-- What the call to the provider returned.
pub record Answer : Type 0 where
  pub outcome : Outcome
  pub error : Option CallError

-- `callErr.Error()`. It is read only where there is an error.
abbrev pub error_text : Option CallError → Str
error_text none = []
error_text (some e) = e.message

pub record Report (T : Type 0) : Type 0 where
  pub claimed : Bool
  pub outcome : Option CallOutcome
  pub status : Option Status
  pub reason : Option FailureReason
  pub stored : Option T
  pub call_error : Option CallError

-- The error of `Process` is about the store.
pub data ProcessError (E : Type 0) : Type 0 where
  could_not_claim : E → ProcessError E
  could_not_record : E → ProcessError E

abbrev pub no_report : {T : Type 0} → Report T
no_report = record {
  claimed = false;
  outcome = none;
  status = none;
  reason = none;
  stored = none;
  call_error = none;
}

module _ {S T E : Type 0} where
  -- The end of `Process`: what the report says once the result was recorded, or could not be.
  unfoldable pub finish :
      T
      → Option CallError
      → Status
      → Option FailureReason
      → S × Result E T
      → S × Report T × Option (ProcessError E)
  finish rec call_error status reason (s, ok stored) = (
    s,
    record {
      claimed = true;
      outcome = some (classify call_error);
      status = some status;
      reason = reason;
      stored = some stored;
      call_error = call_error;
    },
    none,
  )
  finish rec call_error status reason (s, err e) = (
    s,
    record {
      claimed = true;
      outcome = some (classify call_error);
      status = some Status.in_progress;
      reason = none;
      stored = some rec;
      call_error = call_error;
    },
    some (could_not_record e),
  )

module _ {S T E : Type 0} (store : Store S T E) (attempt_state : T → Attempt)
    (policy : RetryPolicy) where
  -- The `default` of the `switch`: the attempt is retried, or its window is over.
  unfoldable pub retry : T → Option CallError → Time → S → S × Report T × Option (ProcessError E)
  unfolding next finish
  retry rec call_error now s =
      let st = attempt_state rec in
      let (at, exhausted) = next policy (pos (st.failed_attempts + 1)) st.window_ends_at now in
      if exhausted
      then finish rec call_error Status.failed (some FailureReason.retry_window_expired)
          (store.fail rec now FailureReason.retry_window_expired (error_text call_error) s)
      else finish rec call_error Status.pending none
          (store.reschedule rec now at (error_text call_error) s)

  unfoldable pub record_result : T → Answer → Time → S → S × Report T × Option (ProcessError E)
  unfolding classify retry finish
  record_result rec answer now s = elim (classify answer.error) [
    | CallOutcome.confirmed ↦
        finish rec answer.error Status.confirmed none (store.confirm rec now answer.outcome s)
    | CallOutcome.rejected ↦
        finish rec answer.error Status.failed (some FailureReason.rejected)
          (store.fail rec now FailureReason.rejected (error_text answer.error) s)
    | CallOutcome.ambiguous ↦ retry rec answer.error now s
    | CallOutcome.not_sent ↦ retry rec answer.error now s
  ]

  -- `called_at` is the clock at the claim and `answered_at` the clock after the call.
  unfoldable pub process :
      Duration
      → Str
      → (T → S → S × Answer)
      → Time
      → Time
      → S
      → S × Report T × Option (ProcessError E)
  unfolding record_result
  process lease id exec called_at answered_at s =
      let (claimed, found) = store.claim id called_at lease s in
      elim found [
        | err e ↦ (claimed, no_report, some (could_not_claim e))
        | ok none ↦ (claimed, no_report, none)
        | ok (some rec) ↦
            let (answered, answer) = exec rec claimed in
            record_result rec answer answered_at answered
      ]
