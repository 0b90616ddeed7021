-- ===== src/Idempotency.antt =====
-- The shared idempotent mechanism, pkg/idempotency: the attempt of an operation (attempt.go), the
-- key of an operation (key.go) and the classification of a call to the provider (runner.go).
-- An error of the provider is the chain of the errors that it wraps, which is what `errors.Is` and
-- `errors.As` look through, and its text.
pub mod Runner
pub mod Process
mod Tests
use misw4501_202614_grupo.Base.{
  ℕ, ◌≡◌, Bool, true, false, ◌||◌, Option, none, some, List, [], ◌∷◌, ◌++◌, Result, ok, err,
  if◌then◌else◌,
}
use misw4501_202614_grupo.Base.Text.{Str, lit, is_empty}
use misw4501_202614_grupo.Base.Clock.{Time, Duration}

pub data Status : Type 0 where
  pending in_progress confirmed failed : Status

pub data FailureReason : Type 0 where
  rejected retry_window_expired : FailureReason

pub data CallOutcome : Type 0 where
  confirmed rejected ambiguous not_sent : CallOutcome

-- The answer of a gateway that rejected the operation: its code, the code of the issuer and the
-- reference of the gateway.
pub record Rejection : Type 0 where
  pub code : Str
  pub decline_code : Str
  pub reference : Str

-- What an error may wrap: the three sentinels, an explicit rejection of a gateway (which matches
-- the sentinel of the rejections), or anything else.
pub data Cause : Type 0 where
  err_rejected err_ambiguous err_not_sent other_cause : Cause
  rejected_error : Rejection → Cause

pub record CallError : Type 0 where
  pub chain : List Cause
  pub message : Str

-- `errors.Is(err, ErrRejected)`.
unfoldable pub wraps_rejected : List Cause → Bool
wraps_rejected [] = false
wraps_rejected (err_rejected ∷ _) = true
wraps_rejected (rejected_error _ ∷ _) = true
wraps_rejected (_ ∷ cs) = wraps_rejected cs

-- `errors.Is(err, ErrNotSent)`.
unfoldable pub wraps_not_sent : List Cause → Bool
wraps_not_sent [] = false
wraps_not_sent (err_not_sent ∷ _) = true
wraps_not_sent (_ ∷ cs) = wraps_not_sent cs

-- `errors.As(err, &rejected)`.
unfoldable pub as_rejected : List Cause → Option Rejection
as_rejected [] = none
as_rejected (rejected_error r ∷ _) = some r
as_rejected (_ ∷ cs) = as_rejected cs

unfoldable pub classify : Option CallError → CallOutcome
classify none = CallOutcome.confirmed
classify (some e) =
    if wraps_rejected e.chain
    then CallOutcome.rejected
    else if wraps_not_sent e.chain
    then CallOutcome.not_sent
    else CallOutcome.ambiguous

pub record Attempt : Type 0 where
  pub id : Str
  pub key : Str
  pub status : Status
  pub failed_attempts : ℕ
  pub window_ends_at : Time
  pub next_attempt_at : Time
  pub claimed_until : Time

pub record Outcome : Type 0 where
  pub reference : Str

-- A store of attempts: every operation takes the state of the store and returns the new one. A
-- claim returns `none` when the attempt cannot be claimed.
pub record Store (S T E : Type 0) : Type 0 where
  pub claim : Str → Time → Duration → S → S × Result E (Option T)
  pub confirm : T → Time → Outcome → S → S × Result E T
  pub reschedule : T → Time → Time → Str → S → S × Result E T
  pub fail : T → Time → FailureReason → Str → S → S × Result E T

pub data KeyError : Type 0 where
  empty_key_part : KeyError

unfoldable pub key : Str → Str → Result KeyError Str
key prefix id =
    if is_empty prefix || is_empty id then err empty_key_part else ok (prefix ++ lit "-" ++ id)
