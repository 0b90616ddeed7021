-- ===== src/Claims/Decision.antt =====
-- The decision of a claim by operations, services/claims/internal/domain/decision.go. Amounts are
-- int64 numbers of cents and wrap around where the word overflows.
pub mod Amounts
pub mod Store
pub mod Queue
pub mod Entries
pub mod World
pub mod Invariant
pub mod Steps
pub mod Flights
pub mod Launch
pub mod Reachable
pub mod Payouts
pub mod Final
pub mod Turns
pub mod Once
pub mod Service
pub mod Worker
pub mod Rounds
pub mod Requests
mod Samples
mod Tests
mod StepTests
mod RequestTests
use misw4501_202614_grupo.Base.{
  ℕ, ◌+◌, Bool, true, false, ◌||◌, Option, none, some, List, [], ◌∷◌, ◌++◌, Result, ok, err, ltb,
  length, if◌then◌else◌,
}
use misw4501_202614_grupo.Base.Int.{ℤ, pos, ◌+ℤ◌, ◌-ℤ◌, ◌*ℤ◌, quot, leb_ℤ, ltb_ℤ, wrap64}
use misw4501_202614_grupo.Base.Text.{Str, lit, is_empty, trim_space}
use misw4501_202614_grupo.Base.Clock.{Time, zero_time}
use misw4501_202614_grupo.Idempotency
use misw4501_202614_grupo.Idempotency.{Attempt, FailureReason}
use misw4501_202614_grupo.Claims.Coverage.{Coverage, Holder, PayoutAccount}
use misw4501_202614_grupo.Claims.Case.{Status, ClaimRecord, paid, payment_exception}

pub data Outcome : Type 0 where
  approved rejected : Outcome

abbrev pub max_rejection_reason_length : ℕ
max_rejection_reason_length = 1000

abbrev pub max_automatic_payout_attempts : ℕ
max_automatic_payout_attempts = 3

abbrev pub basis_points : ℕ
basis_points = 10_000

pub data DecisionError : Type 0 where
  amount_out_of_range amount_exceeds_insured_value nothing_to_pay no_payout_account : DecisionError
  reason_required reason_too_long no_contact : DecisionError

unfoldable pub deductible_of : ℤ → ℤ → ℤ
deductible_of gross_minor deductible_basis_points =
    quot (wrap64 (wrap64 (gross_minor *ℤ deductible_basis_points) +ℤ pos 5000)) basis_points

pub data PayoutFailure : Type 0 where
  rejected retries_exhausted : PayoutFailure

unfoldable pub payout_failure_for : FailureReason → PayoutFailure
payout_failure_for FailureReason.rejected = PayoutFailure.rejected
payout_failure_for FailureReason.retry_window_expired = retries_exhausted

pub record Payout : Type 0 where
  pub key : Str
  pub beneficiary_id : Str
  pub amount_minor : ℤ
  pub currency : Str
  pub destination : PayoutAccount
  pub status : Idempotency.Status
  pub attempts : ℕ
  pub next_attempt_at : Time
  pub claimed_until : Time
  pub last_attempt_at : Time
  pub last_failure_at : Time
  pub failure : Option PayoutFailure
  pub last_error : Str
  pub gateway_code : Str
  pub reference : Str
  pub confirmed_at : Time
  pub manual_retries : ℕ
  pub last_retried_by : Str
  pub last_retried_at : Time

pub record Notice : Type 0 where
  pub to : Str
  pub sent_at : Time
  pub attempts : ℕ
  pub next_attempt_at : Time
  pub last_error : Str

pub record Decision : Type 0 where
  pub claim_id : Str
  pub filing_number : Str
  pub outcome : Outcome
  pub decided_by : Str
  pub decided_at : Time
  pub gross_amount_minor : ℤ
  pub insured_value_minor : ℤ
  pub deductible_basis_points : ℤ
  pub currency : Str
  pub payout : Option Payout
  pub reason : Str
  pub notice : Option Notice

unfoldable pub deductible_minor : Decision → ℤ
unfolding deductible_of
deductible_minor d = deductible_of d.gross_amount_minor d.deductible_basis_points

-- The zero status of a decision without a payout is the empty text, which no claim can hold: such
-- a decision is never handed to the runner.
unfoldable pub attempt_state : Decision → Attempt
attempt_state d = elim (d.payout) [
  | none ↦ record {
    id = d.claim_id;
    key = [];
    status = Idempotency.Status.pending;
    failed_attempts = 0;
    window_ends_at = zero_time;
    next_attempt_at = zero_time;
    claimed_until = zero_time;
  }
  | some p ↦ record {
    id = d.claim_id;
    key = p.key;
    status = p.status;
    failed_attempts = p.attempts;
    window_ends_at = zero_time;
    next_attempt_at = p.next_attempt_at;
    claimed_until = p.claimed_until;
  }
]

unfoldable pub payout_key : Str → Str
payout_key claim_id = lit "indemnizacion-" ++ claim_id

unfoldable pub notice_key : Str → Str
notice_key claim_id = lit "rechazo-" ++ claim_id

-- The payout of an approval, pending and due at once.
abbrev new_payout : ClaimRecord → Coverage → Holder → ℤ → Time → Payout
new_payout c cov holder amount at = record {
  key = payout_key c.id;
  beneficiary_id = c.subject;
  amount_minor = amount;
  currency = cov.currency;
  destination = holder.payout_account;
  status = Idempotency.Status.pending;
  attempts = 0;
  next_attempt_at = at;
  claimed_until = zero_time;
  last_attempt_at = zero_time;
  last_failure_at = zero_time;
  failure = none;
  last_error = [];
  gateway_code = [];
  reference = [];
  confirmed_at = zero_time;
  manual_retries = 0;
  last_retried_by = [];
  last_retried_at = zero_time;
}

unfoldable pub approve :
    ClaimRecord → Coverage → Holder → ℤ → Str → Time → Result DecisionError Decision
unfolding deductible_of
approve c cov holder gross_minor by at =
    let amount = wrap64 (gross_minor -ℤ deductible_of gross_minor cov.deductible_basis_points) in
    let account = holder.payout_account in
    if leb_ℤ gross_minor (pos 0)
    then err amount_out_of_range
    else if ltb_ℤ cov.insured_value_minor gross_minor
    then err amount_exceeds_insured_value
    else if leb_ℤ amount (pos 0)
    then err nothing_to_pay
    else if is_empty (trim_space account.bank_code) || is_empty (trim_space account.account_number)
    then err no_payout_account
    else ok (record {
      claim_id = c.id;
      filing_number = c.filing_number;
      outcome = Outcome.approved;
      decided_by = by;
      decided_at = at;
      gross_amount_minor = gross_minor;
      insured_value_minor = cov.insured_value_minor;
      deductible_basis_points = cov.deductible_basis_points;
      currency = cov.currency;
      payout = some (new_payout c cov holder amount at);
      reason = [];
      notice = none;
    })

unfoldable pub rejection_reason : Str → Result DecisionError Str
rejection_reason reason =
    let trimmed = trim_space reason in
    if is_empty trimmed
    then err reason_required
    else if ltb max_rejection_reason_length (length trimmed)
    then err reason_too_long
    else ok trimmed

unfoldable pub reject : ClaimRecord → Str → Str → Str → Time → Result DecisionError Decision
unfolding rejection_reason
reject c reason notify_to by at = elim (rejection_reason reason) [
  | err e ↦ err e
  | ok trimmed ↦
      if is_empty (trim_space notify_to)
      then err no_contact
      else ok (record {
        claim_id = c.id;
        filing_number = c.filing_number;
        outcome = Outcome.rejected;
        decided_by = by;
        decided_at = at;
        gross_amount_minor = pos 0;
        insured_value_minor = pos 0;
        deductible_basis_points = pos 0;
        currency = [];
        payout = none;
        reason = trimmed;
        notice = some (record {
          to = trim_space notify_to;
          sent_at = zero_time;
          attempts = 0;
          next_attempt_at = at;
          last_error = [];
        });
      })
]

-- An approval always has a payout; without one the source would stop at the missing record.
unfoldable pub payout_status : Option Payout → Status
payout_status none = Status.approved
payout_status (some p) = elim (p.status) [
  | Idempotency.Status.confirmed ↦ paid
  | Idempotency.Status.failed ↦ payment_exception
  | _ ↦ Status.approved
]

unfoldable pub status_of : Decision → Status
unfolding payout_status
status_of d = elim (d.outcome) [
  | Outcome.rejected ↦ Status.rejected
  | Outcome.approved ↦ payout_status d.payout
]

-- A manual retry of a failed payout, with the destination when the analyst corrected it.
pub record PayoutRetry : Type 0 where
  pub by : Str
  pub at : Time
  pub destination : Option PayoutAccount
