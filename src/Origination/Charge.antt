-- ===== src/Origination/Charge.antt =====
-- The premium charge of one acceptance, services/origination/internal/domain/charge.go. Amounts of
-- money, which the source keeps as float64 with two decimals, are their minor units, so that
-- `ToMinorUnits` and `FromMinorUnits` are the identity. A NULL or empty field is the zero value of
-- its type; an empty reason of a failure is `none`.
mod Data
pub mod Store
pub mod Methods
pub mod Queue
pub mod Rows
pub mod Payable
pub mod Listed
pub mod Samples
mod Tests
pub use Data.*
use misw4501_202614_grupo.Base.{
  ℕ, ◌+◌, ◌==◌, leb, Bool, true, false, not, ◌&&◌, ◌||◌, Option, none, some, List, [], ◌++◌, Result,
  ok, err, if◌then◌else◌,
}
use misw4501_202614_grupo.Base.Int.{ℤ, pos, leb_ℤ}
use misw4501_202614_grupo.Base.Text.{Str, lit, is_empty}
use misw4501_202614_grupo.Base.Clock.{Time, zero_time, is_zero, is_after}
use misw4501_202614_grupo.Idempotency.{Status, FailureReason, Attempt, key}

abbrev pub charge_key_prefix : Str
charge_key_prefix = lit "cobro"

abbrev pub max_installments : ℕ
max_installments = 36

unfoldable pub valid_payer_type : PayerType → Bool
valid_payer_type natural = true
valid_payer_type legal = true
valid_payer_type _ = false

unfoldable pub captured : PaymentMethodKind → Bool
captured no_method = false
captured _ = true

unfoldable pub charge_failure_reason_for : FailureReason → ChargeFailureReason
charge_failure_reason_for FailureReason.rejected = payment_rejected
charge_failure_reason_for FailureReason.retry_window_expired = charge_retry_window_expired

abbrev pub no_activation : Activation
no_activation = record {
  policy_id = [];
  event_id = [];
  activated_at = zero_time;
  coverage_start = zero_time;
  coverage_end = zero_time;
}

abbrev pub max_resume_note_length : ℕ
max_resume_note_length = 500

unfoldable pub policy_id_for : Str → Str
policy_id_for acceptance_id = lit "pol-" ++ acceptance_id

unfoldable pub activation_event_id_for : Str → Str
activation_event_id_for acceptance_id = lit "evt-coverage-activated-" ++ acceptance_id

-- `key, _ := idempotency.Key(...)`: the empty key where there is none.
abbrev pub or_empty : {E : Type 0} → Result E Str → Str
or_empty (ok k) = k
or_empty (err _) = []

unfoldable pub base_key : Str → Str
unfolding key
base_key acceptance_id = or_empty (key charge_key_prefix acceptance_id)

abbrev pub no_payment_method : PaymentMethod
no_payment_method = record {
  kind = no_method;
  token = [];
  brand = [];
  last4 = [];
  installments = pos 0;
  bank_code = [];
  payer_type = no_payer;
  captured_at = zero_time;
}

abbrev pub no_diagnosis : Time → Diagnosis
no_diagnosis now = record {
  last_error = [];
  decline_code = [];
  provider_reference = [];
  last_attempt_at = zero_time;
  last_failure_at = zero_time;
  resume_count = 0;
  last_resumed_by = [];
  last_resumed_at = zero_time;
  resume_note = [];
  updated_at = now;
}

abbrev pub unpublished : Publication
unpublished = record {
  published_at = zero_time;
  attempts = 0;
  next_attempt_at = zero_time;
  last_error = [];
}

-- A pending charge that is not due.
abbrev pub waiting_charge : Snapshot → Str → Time → Time → Time → Charge
waiting_charge snapshot key started ends now = record {
  snapshot = snapshot;
  idempotency_key = key;
  status = Status.pending;
  attempts = 0;
  next_attempt_at = zero_time;
  claimed_until = zero_time;
  window_started_at = started;
  window_ends_at = ends;
  failure_reason = none;
  diagnosis = no_diagnosis now;
  confirmed_at = zero_time;
  activation = no_activation;
  publication = unpublished;
  payment_method = no_payment_method;
  payment_attempt = 0;
}

unfoldable pub new_charge : Acceptance → Offer → CoverageTerms → Time → Time → Charge
unfolding base_key
new_charge a offer terms now window_ends_at =
    waiting_charge
      (record {
        acceptance_id = a.id;
        offer_id = offer.id;
        customer_id = offer.customer_id;
        channel = a.channel;
        accepted_at = a.accepted_at;
        offer_expires_at = offer.expires_at;
        holder = offer.applicant;
        amount_minor = offer.premium;
        currency = offer.currency;
        terms = terms;
        renewal_of = [];
        coverage_not_before = zero_time;
        created_at = now;
      })
      (base_key a.id) now window_ends_at now

-- `time.AddDate` by a number of months.
module _ (add_months : Time → ℤ → Time) where
  abbrev pub start_of : Charge → Time → Time
  start_of c at = if is_after c.coverage_not_before at then c.coverage_not_before else at

  unfoldable pub confirmed_charge : Time → Str → Charge → Charge
  unfolding policy_id_for activation_event_id_for
  confirmed_charge at reference c =
      let diagnosis = c.diagnosis in
      let publication = c.publication in
      record c {
        status = Status.confirmed;
        confirmed_at = at;
        next_attempt_at = zero_time;
        failure_reason = none;
        activation = record {
          policy_id = policy_id_for c.acceptance_id;
          event_id = activation_event_id_for c.acceptance_id;
          activated_at = at;
          coverage_start = start_of c at;
          coverage_end = add_months (start_of c at) c.terms.term_months;
        };
        publication = record publication { next_attempt_at = at };
        diagnosis = record diagnosis { provider_reference = reference; updated_at = at };
      }

unfoldable pub attempt_state : Charge → Attempt
attempt_state c = record {
  id = c.acceptance_id;
  key = c.idempotency_key;
  status = c.status;
  failed_attempts = c.attempts;
  window_ends_at = c.window_ends_at;
  next_attempt_at = c.next_attempt_at;
  claimed_until = c.claimed_until;
}

abbrev pub is_rejected : Option ChargeFailureReason → Bool
is_rejected (some payment_rejected) = true
is_rejected _ = false

unfoldable pub takes_payment_method : Charge → Bool
takes_payment_method c = elim c.status [
  | Status.pending ↦ c.attempts == 0
  | Status.failed ↦ is_rejected c.failure_reason
  | _ ↦ false
]

-- `strconv.Itoa` is a parameter.
module _ (itoa : ℕ → Str) where
  unfoldable pub charge_key_for : Str → ℕ → Str
  unfolding base_key
  charge_key_for acceptance_id payment_attempt =
      if leb payment_attempt 1
      then base_key acceptance_id
      else base_key acceptance_id ++ lit "-" ++ itoa payment_attempt

  -- The method with the time of its capture.
  unfoldable pub with_payment_method : PaymentMethod → Time → Charge → Charge
  unfolding charge_key_for
  with_payment_method m now c =
      let diagnosis = c.diagnosis in
      let attached = record c {
        payment_method = record m { captured_at = now };
        payment_attempt = c.payment_attempt + 1;
        status = Status.pending;
        next_attempt_at = now;
        diagnosis = record diagnosis { updated_at = now };
      } in
      elim c.status [
        | Status.failed ↦ record attached {
          idempotency_key = charge_key_for c.acceptance_id (c.payment_attempt + 1);
          failure_reason = none;
          diagnosis = record diagnosis { updated_at = now; last_error = [] };
          attempts = 0;
        }
        | _ ↦ attached
      ]

unfoldable pub failure_reason_for_window : Charge → ChargeFailureReason
failure_reason_for_window c =
    if not (captured c.payment_method.kind)
    then payment_method_missing
    else charge_retry_window_expired
