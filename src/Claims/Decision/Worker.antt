-- ===== src/Claims/Decision/Worker.antt =====
-- The worker, services/claims/internal/decision/worker.go. The gateway and the provider of e-mail
-- are parameters; other writers may change the store during a call, so a call takes the store and
-- gives the one that it leaves. `clock` gives the readings of the clock in order.
use misw4501_202614_grupo.Base.{
  ℕ, ◌+◌, ◌*◌, Option, none, some, List, [], ◌∷◌, ◌++◌, length, if◌then◌else◌,
}
use misw4501_202614_grupo.Base.Int.{pos, leb_ℤ}
use misw4501_202614_grupo.Base.Text.{Str, lit, is_empty}
use misw4501_202614_grupo.Base.Clock.{Time, Duration, add_time, second}
use misw4501_202614_grupo.Resilience.{RetryPolicy, backoff}
use misw4501_202614_grupo.Idempotency
use misw4501_202614_grupo.Idempotency.{CallError, as_rejected}
use misw4501_202614_grupo.Idempotency.Runner.{Answer, Report, ProcessError, process}
use misw4501_202614_grupo.Claims.Decision.{Decision, attempt_state, notice_key}
use misw4501_202614_grupo.Claims.Decision.Store.{
  DecisionStore, StoreError, capped, record_gateway_code,
}
use misw4501_202614_grupo.Claims.Decision.Queue.{
  list_payouts_due, list_notices_due, notice_sent, notice_failed,
}

abbrev pub default_poll_interval : Duration
default_poll_interval = pos (2 * second)

abbrev pub default_claim_lease : Duration
default_claim_lease = pos (30 * second)

abbrev pub batch_size : ℕ
batch_size = 50

abbrev pub default_retry : RetryPolicy
default_retry = record { base = pos (2 * second); max = pos (30 * second); window = pos 0 }

pub record WorkerConfig : Type 0 where
  pub poll_interval : Duration
  pub claim_lease : Duration
  pub retry : RetryPolicy

unfoldable pub with_defaults : WorkerConfig → WorkerConfig
with_defaults c = record {
  poll_interval = if leb_ℤ c.poll_interval (pos 0) then default_poll_interval else c.poll_interval;
  claim_lease = if leb_ℤ c.claim_lease (pos 0) then default_claim_lease else c.claim_lease;
  retry = if leb_ℤ c.retry.base (pos 0) then default_retry else c.retry;
}

-- `RejectionNotice`: the subject and the body.
unfoldable pub rejection_notice : Decision → Str × Str
rejection_notice d = (
  lit "Tu siniestro " ++ (d.filing_number ++ lit " fue rechazado"),
  lit "Hola,\n\nRevisamos tu siniestro "
      ++ (d.filing_number
          ++ (lit " y no fue aprobado.\n\nMotivo: "
              ++ (d.reason
                  ++ lit
                      "\n\nPuedes ver el detalle en Mis siniestros. Si tienes preguntas, responde a este correo.\n\nSolventa"))),
)

-- What an email is sent with: the address, the subject, the body and the key.
pub record Message : Type 0 where
  pub to : Str
  pub subject : Str
  pub body : Str
  pub message_key : Str

-- The calls to the world outside: a payout answers with the reference or an error, an e-mail with
-- an error's text or none.
pub record Providers : Type 0 where
  pub payout : Decision → DecisionStore → DecisionStore × Answer
  pub send : Message → DecisionStore → DecisionStore × Option Str

unfoldable pub keep_gateway_code : Str → Option CallError → DecisionStore → DecisionStore
keep_gateway_code claim_id none s = s
keep_gateway_code claim_id (some e) s = elim (as_rejected e.chain) [
  | none ↦ s
  | some r ↦ if is_empty r.code then s else record_gateway_code claim_id r.code s
]

abbrev pub paid_of : Option Decision → Option Idempotency.Status
paid_of none = none
paid_of (some d) = elim (d.payout) [ none ↦ none | some p ↦ some p.status ]

-- Only a failed payout needs another write.
abbrev pub code_if_failed :
    Option Idempotency.Status → Str → Option CallError → DecisionStore → DecisionStore
code_if_failed (some Idempotency.Status.failed) claim_id e s = keep_gateway_code claim_id e s
code_if_failed _ claim_id e s = s

-- The end of `pay`.
abbrev pub after_report :
    Str → DecisionStore × Report Decision × Option (ProcessError StoreError) → DecisionStore
after_report claim_id (s, report, some e) = s
after_report claim_id (s, report, none) =
    code_if_failed (paid_of report.stored) claim_id report.call_error s

module _ (config : WorkerConfig) (providers : Providers) where
  unfoldable pub pay : Str → Time → Time → DecisionStore → DecisionStore
  unfolding process keep_gateway_code
  pay claim_id called_at answered_at s = after_report claim_id (
      process capped attempt_state config.retry config.claim_lease claim_id providers.payout
        called_at answered_at s)

  -- A decision with a due notice has one; the source would stop at a missing notice.
  unfoldable pub notify : Decision → Time → DecisionStore → DecisionStore
  notify d now s = elim (d.notice) [
    | none ↦ s
    | some n ↦
        let (subject, body) = rejection_notice d in
        let (after, failed) =
          providers.send
            (record {
              to = n.to;
              subject = subject;
              body = body;
              message_key = notice_key d.claim_id;
            })
            s in
        elim failed [
          | none ↦ notice_sent d.claim_id now after
          | some cause ↦
              notice_failed d.claim_id (add_time now (backoff config.retry (pos (n.attempts + 1))))
                cause after
        ]
  ]

  pay_all : (ℕ → Time) → ℕ → List Str → DecisionStore → DecisionStore
  unfolding pay
  pay_all clock i [] s = s
  pay_all clock i (id ∷ ids) s = pay_all clock (i + 2) ids (pay id (clock i) (clock (i + 1)) s)

  notify_all : (ℕ → Time) → ℕ → List Decision → DecisionStore → DecisionStore
  unfolding notify
  notify_all clock i [] s = s
  notify_all clock i (d ∷ ds) s = notify_all clock (i + 1) ds (notify d (clock i) s)

  -- `ProcessDue`, of a worker that has a mailer and whose context does not end.
  unfoldable pub process_due : (ℕ → Time) → DecisionStore → DecisionStore × ℕ
  unfolding pay_all notify_all list_payouts_due list_notices_due
  process_due clock s =
      let ids = list_payouts_due (clock 0) batch_size s in
      let paid = pay_all clock 1 ids s in
      let i = 1 + 2 * length ids in
      let notices = list_notices_due (clock i) batch_size paid in
      (notify_all clock (i + 1) notices paid, length ids + length notices)
