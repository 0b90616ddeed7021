-- ===== src/Origination/Billing/Worker.antt =====
-- The worker of the premium charges, services/origination/internal/billing/worker.go, and the bridge
-- to the gateway, adapters/payments/gateway.go. The gateway and the consumers of the activations are
-- parameters: what they answer, and the store that others leave meanwhile.
use misw4501_202614_grupo.Base.{
  ℕ, ◌+◌, ◌*◌, Option, none, some, List, [], ◌∷◌, ◌++◌, length, if◌then◌else◌,
}
use misw4501_202614_grupo.Base.Int.{ℤ, pos, leb_ℤ}
use misw4501_202614_grupo.Base.Text.{Str, lit}
use misw4501_202614_grupo.Base.Clock.{Time, Duration, second, add_time}
use misw4501_202614_grupo.Resilience.{RetryPolicy, default_retry_policy, backoff}
use misw4501_202614_grupo.Idempotency.{Status, CallError, Store, as_rejected}
use misw4501_202614_grupo.Idempotency.Runner.{Answer, Report, ProcessError, process}
use misw4501_202614_grupo.Origination.Charge.{Charge, attempt_state}
use misw4501_202614_grupo.Origination.Charge.Store.{
  ChargeStore, ChargeError, claim, confirm, reschedule, fail, claim_activation,
  mark_activation_published, reschedule_activation,
}
use misw4501_202614_grupo.Origination.Charge.Methods.{record_decline, expire_without_payment_method}
use misw4501_202614_grupo.Origination.Charge.Queue.{list_due, list_activations_due}
use misw4501_202614_grupo.Origination.Activation.{CoverageActivated, activation_event}

pub record WorkerConfig : Type 0 where
  pub poll_interval : Duration
  pub claim_lease : Duration
  pub retry : RetryPolicy

abbrev pub default_poll_interval : Duration
default_poll_interval = pos second

abbrev pub default_claim_lease : Duration
default_claim_lease = pos (30 * second)

abbrev pub batch_size : ℕ
batch_size = 50

unfoldable pub with_defaults : WorkerConfig → WorkerConfig
with_defaults c = record {
  poll_interval = if leb_ℤ c.poll_interval (pos 0) then default_poll_interval else c.poll_interval;
  claim_lease = if leb_ℤ c.claim_lease (pos 0) then default_claim_lease else c.claim_lease;
  retry = if leb_ℤ c.retry.base (pos 0) then default_retry_policy else c.retry;
}

-- The policy of the publications: the same waits and no window.
abbrev pub activation_policy : WorkerConfig → RetryPolicy
activation_policy c = record { base = c.retry.base; max = c.retry.max; window = pos 0 }

-- The store of the charges, as the shared mechanism sees it.
abbrev pub charge_attempts : (Time → ℤ → Time) → Store ChargeStore Charge ChargeError
charge_attempts add_months = record {
  claim = claim;
  confirm = confirm add_months;
  reschedule = reschedule;
  fail = fail;
}

-- The gateway charges a copy of a charge; the consumers of an activation answer with the text of
-- the first error.
pub record Partners : Type 0 where
  pub charge : Charge → ChargeStore → ChargeStore × Answer
  pub receive : CoverageActivated → ChargeStore → ChargeStore × Option Str

unfoldable pub keep_decline : Str → Option CallError → ChargeStore → ChargeStore
unfolding record_decline as_rejected
keep_decline id none s = s
keep_decline id (some e) s = elim (as_rejected e.chain) [
  | none ↦ s
  | some r ↦ record_decline id r.decline_code r.reference s
]

module _ (add_months : Time → ℤ → Time) (config : WorkerConfig) (partners : Partners) where
  -- The record of a publication that the consumers answered.
  unfoldable pub record_publication : Charge → Option Str → Time → ChargeStore → ChargeStore
  unfolding mark_activation_published reschedule_activation backoff
  record_publication c none now s = (mark_activation_published c now s).0
  record_publication c (some cause) now s =
      let next =
        add_time now (backoff (activation_policy config) (pos (c.publication.attempts + 1))) in
      (reschedule_activation c now next (lit "a coverage activation consumer failed: " ++ cause)
        s).0

  unfoldable pub publish : Charge → Time → ChargeStore → ChargeStore
  unfolding record_publication activation_event
  publish c now s =
      let (after, failed) = partners.receive (activation_event c) s in
      record_publication c failed now after

  -- What `charge` does with the report of an attempt.
  abbrev pub settle_report :
      Str → Time → ChargeStore × Report Charge × Option (ProcessError ChargeError) → ChargeStore
  settle_report id now (s, report, some e) = s
  settle_report id now (s, report, none) = elim report.stored [
    | none ↦ s
    | some c ↦ elim report.status [
      | some Status.confirmed ↦ publish c now s
      | some Status.failed ↦ keep_decline c.acceptance_id report.call_error s
      | _ ↦ s
    ]
  ]

  -- The clock is read at the claim, after the call and after a publication.
  unfoldable pub charge : Str → Time → Time → Time → ChargeStore → ChargeStore
  unfolding process keep_decline publish
  charge id called_at answered_at published_at s = settle_report id published_at (
      process (charge_attempts add_months) attempt_state config.retry config.claim_lease id
        partners.charge called_at answered_at s)

  unfoldable pub retry_activation : Str → Time → Time → ChargeStore → ChargeStore
  unfolding claim_activation publish
  retry_activation id claimed_at published_at s =
      let (s', found) = claim_activation id claimed_at config.claim_lease s in
      elim found [ none ↦ s' | some c ↦ publish c published_at s' ]

  charge_all : (ℕ → Time) → ℕ → List Str → ChargeStore → ChargeStore
  unfolding charge
  charge_all clock i [] s = s
  charge_all clock i (id ∷ ids) s =
      charge_all clock (i + 3) ids (charge id (clock i) (clock (i + 1)) (clock (i + 2)) s)

  activate_all : (ℕ → Time) → ℕ → List Str → ChargeStore → ChargeStore
  unfolding retry_activation
  activate_all clock i [] s = s
  activate_all clock i (id ∷ ids) s =
      activate_all clock (i + 2) ids (retry_activation id (clock i) (clock (i + 1)) s)

  -- `ProcessDue`, of a worker whose context does not end.
  unfoldable pub process_due : (ℕ → Time) → ChargeStore → ChargeStore × ℕ
  unfolding expire_without_payment_method list_due list_activations_due charge_all activate_all
  process_due clock s =
      let (swept, _) = expire_without_payment_method (clock 0) s in
      let due = list_due (clock 0) batch_size swept in
      let charged = charge_all clock 1 due swept in
      let i = 1 + 3 * length due in
      let pending = list_activations_due (clock i) batch_size charged in
      (activate_all clock (i + 1) pending charged, length due + length pending)
