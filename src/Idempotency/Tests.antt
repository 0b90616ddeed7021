-- ===== src/Idempotency/Tests.antt =====
-- A store of one attempt, which every operation of the runner finds and leaves.
use misw4501_202614_grupo.Base.{◌≡◌, refl, ◌≢◌, ◌↔◌, ◌⊎◌, ◌*◌, ◌+◌, true, some, [], ◌∷◌, ok}
use misw4501_202614_grupo.Base.Int.{pos}
use misw4501_202614_grupo.Base.Text.{lit}
use misw4501_202614_grupo.Base.Clock.{second}
use misw4501_202614_grupo.Resilience.{RetryPolicy, next}
use misw4501_202614_grupo.Idempotency.{
  Status, FailureReason, CallOutcome, Cause, Attempt, Store, classify, wraps_rejected,
}
use misw4501_202614_grupo.Idempotency.Runner.{Answer, Report, record_result, finish}
use misw4501_202614_grupo.Idempotency.Process.{record_result-status}

abbrev policy : RetryPolicy
policy = record { base = pos second; max = pos (4 * second); window = pos 0 }

abbrev attempt : Attempt
attempt = record {
  id = lit "1";
  key = lit "cobro-1";
  status = Status.in_progress;
  failed_attempts = 2;
  window_ends_at = 0;
  next_attempt_at = 0;
  claimed_until = 30 * second;
}

abbrev store : Store Unit Attempt Unit
store = record {
  claim = λ id now lease s. (s, ok (some attempt));
  confirm = λ rec now out s. (s, ok (record rec { status = Status.confirmed }));
  reschedule = λ rec now at cause s. (s, ok (record rec { status = Status.pending }));
  fail = λ rec now reason cause s. (s, ok (record rec { status = Status.failed }));
}

abbrev declined : Answer
declined = record {
  outcome = record { reference = [] };
  error = some (record { chain = Cause.err_rejected ∷ []; message = lit "declined" });
}

abbrev report : Report Attempt
report = record {
  claimed = true;
  outcome = some CallOutcome.rejected;
  status = some Status.failed;
  reason = some FailureReason.rejected;
  stored = some (record attempt { status = Status.failed });
  call_error = declined.error;
}

record_result-status_example :
    ((report.status ≡ some Status.confirmed) ↔ (classify declined.error ≡ CallOutcome.confirmed))
    × ((report.status ≡ some Status.failed) ↔ (
        (classify declined.error ≡ CallOutcome.rejected)
        ⊎ ((classify declined.error ≢ CallOutcome.confirmed)
            × ((next policy (pos (2 + 1)) 0 second).1 ≡ true))))
    × (report.outcome ≡ some (classify declined.error))
unfolding record_result finish classify wraps_rejected
record_result-status_example =
    record_result-status store (λ a. a) policy attempt declined second tt tt report refl
