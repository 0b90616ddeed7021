-- ===== src/Idempotency/Process.antt =====
-- What `Process` does to a store, for any store.
use misw4501_202614_grupo.Base.{
  ap, ◌≡◌, refl, ◌≢◌, ◌↔◌, ◌⊎◌, ◌+◌, inl, inr, Bool, true, false, Option, none, some, Result, ok,
  err, Bool-cases, arith,
}
use misw4501_202614_grupo.Base.Int.{pos}
use misw4501_202614_grupo.Base.Text.{Str}
use misw4501_202614_grupo.Base.Clock.{Time, Duration}
use misw4501_202614_grupo.Resilience.{RetryPolicy, next}
use misw4501_202614_grupo.Idempotency.{
  Status, FailureReason, CallOutcome, CallError, Attempt, Store, classify,
}
use misw4501_202614_grupo.Idempotency.Runner.{
  error_text, Answer, Report, no_report, finish, retry, record_result, process,
}

CallOutcome-cases :
    (o : CallOutcome)
    → (o ≡ CallOutcome.confirmed)
      ⊎ (o ≡ CallOutcome.rejected)
      ⊎ (o ≡ CallOutcome.ambiguous)
      ⊎ (o ≡ CallOutcome.not_sent)
CallOutcome-cases CallOutcome.confirmed = inl refl
CallOutcome-cases CallOutcome.rejected = inr (inl refl)
CallOutcome-cases CallOutcome.ambiguous = inr (inr (inl refl))
CallOutcome-cases CallOutcome.not_sent = inr (inr (inr refl))

module _ {S T E : Type 0} (store : Store S T E) (attempt_state : T → Attempt)
    (policy : RetryPolicy) where
  module _ (lease : Duration) (id : Str) (exec : T → S → S × Answer) (called_at answered_at : Time)
      (s : S) where
    pub process-claimed :
        {s' : S} {rec : T}
        → store.claim id called_at lease s ≡ (s', ok (some rec))
        → process store attempt_state policy lease id exec called_at answered_at s
          ≡ record_result store attempt_state policy rec (exec rec s').1 answered_at (exec rec s').0
    unfolding process
    process-claimed e = rw (process, ap (λ z. z.1) e, ap (λ z. z.0) e) refl

    pub process-unclaimed :
        {s' : S}
        → store.claim id called_at lease s ≡ (s', ok none)
        → process store attempt_state policy lease id exec called_at answered_at s
          ≡ (s', no_report, none)
    unfolding process
    process-unclaimed e = rw (process, ap (λ z. z.1) e, ap (λ z. z.0) e) refl

  abbrev exhausts : T → Time → Bool
  exhausts rec now =
      (next policy (pos ((attempt_state rec).failed_attempts + 1))
        (attempt_state rec).window_ends_at now).1

  -- For any store that records the result, the report says confirmed exactly if the call was confirmed,
  -- failed exactly if the provider rejected it or it was not confirmed and the retries are exhausted, and
  -- its outcome is the classification of the call.
  pub record_result-status :
      (rec : T) (a : Answer) (now : Time) (s s' : S) (report : Report T)
      → record_result store attempt_state policy rec a now s ≡ (s', report, none)
      → ((report.status ≡ some Status.confirmed) ↔ (classify a.error ≡ CallOutcome.confirmed))
        × ((report.status ≡ some Status.failed) ↔ (
            (classify a.error ≡ CallOutcome.rejected)
            ⊎ ((classify a.error ≢ CallOutcome.confirmed) × (exhausts rec now ≡ true))))
        × (report.outcome ≡ some (classify a.error))
  unfolding record_result retry finish
  record_result-status rec a now s s' report e = ground arith

  finish-state :
      (rec : T) (call_error : Option CallError) (st : Status) (reason : Option FailureReason)
      (r : S × Result E T)
      → (finish rec call_error st reason r).0 ≡ r.0
  unfolding finish
  finish-state rec call_error st reason (s, ok t) = refl
  finish-state rec call_error st reason (s, err e) = refl

  -- What holds of the store after each of its three writes holds after the record of a result, with
  -- the time of the next attempt as the policy gives it.
  module _ (P : S → Type 0) (rec : T) (a : Answer) (now : Time) (s : S)
      (failed : (r : FailureReason) (cause : Str) → P (store.fail rec now r cause s).0)
      (rescheduled : (at : Time) (cause : Str)
        → next policy
            (pos ((attempt_state rec).failed_attempts + 1))
            (attempt_state rec).window_ends_at
            now
          ≡ (at, false)
        → P (store.reschedule rec now at cause s).0) where
    retry_either : P (retry store attempt_state policy rec a.error now s).0
    unfolding retry
    retry_either =
        let st = attempt_state rec in
        let at = (next policy (pos (st.failed_attempts + 1)) st.window_ends_at now).0 in
        elim (Bool-cases (exhausts rec now)) [
          | inl e ↦
              rw
                (
                  retry,
                  e,
                  finish-state rec a.error Status.failed (some FailureReason.retry_window_expired) (
                      store.fail rec now FailureReason.retry_window_expired (error_text a.error) s),
                )
                (failed FailureReason.retry_window_expired (error_text a.error))
          | inr e ↦
              rw
                (
                  retry,
                  e,
                  finish-state rec a.error Status.pending none
                      (store.reschedule rec now at (error_text a.error) s),
                )
                (rescheduled at (error_text a.error) (ap (λ b. (at, b)) e))
        ]

    pub record_result_either :
        P (store.confirm rec now a.outcome s).0
        → P (record_result store attempt_state policy rec a now s).0
    unfolding record_result
    record_result_either confirmed = elim (CallOutcome-cases (classify a.error)) [
      | inl e ↦
          rw
            (
              record_result,
              e,
              finish-state rec a.error Status.confirmed none (store.confirm rec now a.outcome s),
            )
            confirmed
      | inr (inl e) ↦
          rw
            (
              record_result,
              e,
              finish-state rec a.error Status.failed (some FailureReason.rejected)
                  (store.fail rec now FailureReason.rejected (error_text a.error) s),
            )
            (failed FailureReason.rejected (error_text a.error))
      | inr (inr (inl e)) ↦ rw (record_result, e) retry_either
      | inr (inr (inr e)) ↦ rw (record_result, e) retry_either
    ]
