-- ===== src/Origination/Ledger/Steps.antt =====
-- What every step does to the rows of the table.
use misw4501_202614_grupo.Base.{
  ℕ, ◌+◌, ◌<◌, ◌≡◌, ◌≢◌, ◌∙◌, inl, inr, true, false, none, nth, All, nth-All, Option-cases, arith,
}
use misw4501_202614_grupo.Base.Int.{ℤ, pos}
use misw4501_202614_grupo.Base.Text.{Str}
use misw4501_202614_grupo.Base.Dict.{lookup}
use misw4501_202614_grupo.Base.Clock.{Time, zero_time}
use misw4501_202614_grupo.Resilience.{RetryPolicy, next}
use misw4501_202614_grupo.Resilience.Backoff.{IsUsable, backoff-eq_min}
use misw4501_202614_grupo.Idempotency.Runner.{Answer, record_result}
use misw4501_202614_grupo.Idempotency.Process.{record_result_either}
use misw4501_202614_grupo.Origination.Charge.{Charge, PaymentMethod, attempt_state, captured}
use misw4501_202614_grupo.Origination.Charge.Store.{ChargeStore}
use misw4501_202614_grupo.Origination.Charge.Rows.{Moves}
use misw4501_202614_grupo.Origination.Billing.{validate_payment_method}
use misw4501_202614_grupo.Origination.Billing.Worker.{charge_attempts}
use misw4501_202614_grupo.Origination.Ledger.{
  World, Action, tick, register, pay, take_charge, answer, crash, resume_failed, note_decline,
  sweep, take_publication, deliver, miss, drop_publication, pay_with, act,
}
use misw4501_202614_grupo.Origination.Ledger.Invariant.{FlightAt}
use misw4501_202614_grupo.Origination.Ledger.Kept.{Kept}
use misw4501_202614_grupo.Origination.Ledger.Statements.{
  Sound, Rows, Sound-refl, claim-Sound, confirm-Sound, reschedule-Sound, fail-Sound,
  claim_activation-Sound, mark_activation_published-Sound, reschedule_activation-Sound,
  record_decline-Sound, expire-Sound, resume-Sound, attach-Sound, create_pending-Sound,
}

pub record Inv (itoa : ℕ → Str) (add_months : Time → ℤ → Time) (w : World) : Type 0 where
  pub rows : Rows itoa add_months w.store
  pub flying : All (FlightAt w.store) w.flights
  pub started : 0 < w.clock

-- A method that the service accepts is a card or a debit of a bank.
pub validate-captured :
    (m : PaymentMethod) → validate_payment_method m ≡ none → captured m.kind ≡ true
unfolding validate_payment_method captured
validate-captured m e = ground arith

-- A policy that the runner accepts puts the next attempt after the zero time.
next-at :
    (p : RetryPolicy) (base max_wait n : ℕ) (window_ends_at now at : Time)
    → IsUsable p base max_wait
    → 0 < now
    → next p (pos (n + 1)) window_ends_at now ≡ (at, false)
    → at ≢ zero_time
unfolding next
next-at p base max_wait n window_ends_at now at u h e =
    ground (arith, backoff-eq_min p base max_wait n u)

module _ (itoa : ℕ → Str) (add_months : Time → ℤ → Time) (policy : RetryPolicy) (lease : ℕ)
    (base max_wait : ℕ) (usable : IsUsable policy base max_wait) where
  pub Moves-FlightAt :
      (s s' : ChargeStore) (rec : Charge)
      → Moves (Kept itoa) s s'
      → FlightAt s rec
      → FlightAt s' rec
  Moves-FlightAt s s' rec m f = elim (Option-cases (lookup rec.acceptance_id s.charges)) [
    | inl e ↦ absurd (rw e at f)
    | inr (c, e) ↦ let (c', e', k) = m rec.acceptance_id c e in rw e' (k.0 ∙ rw e at f)
  ]

  abbrev pub recorded : Charge → Answer → Time → ChargeStore → ChargeStore
  recorded rec a now s =
      (record_result (charge_attempts add_months) attempt_state policy rec a now s).0

  pub answer-Sound :
      (rec : Charge) (a : Answer) (now : Time) (s : ChargeStore)
      → Rows itoa add_months s
      → 0 < now
      → FlightAt s rec
      → Sound itoa add_months s (recorded rec a now s)
  unfolding attempt_state
  answer-Sound rec a now s h t f =
      record_result_either (charge_attempts add_months) attempt_state policy
        (Sound itoa add_months s) rec a now s
        (λ r cause. fail-Sound itoa add_months s h rec now r cause)
        (λ at cause e.
          reschedule-Sound itoa add_months s h rec now at cause
            (next-at policy base max_wait rec.attempts rec.window_ends_at now at usable t e))
        (confirm-Sound itoa add_months s h rec now a.outcome f)

  pay-Sound :
      (id : Str) (m : PaymentMethod) (at : Time) (s : ChargeStore)
      → Rows itoa add_months s
      → 0 < at
      → Sound itoa add_months s (pay_with itoa add_months policy lease id m at s)
  unfolding pay_with
  pay-Sound id m at s h t = elim (Option-cases (validate_payment_method m)) [
    | inr (x, e) ↦ rw (pay_with, e) (Sound-refl itoa add_months s h)
    | inl e ↦
        rw (pay_with, e)
          (attach-Sound itoa add_months s h id m at (omega arith) (validate-captured m e))
  ]

  pub act-Sound :
      (w : World) (a : Action)
      → Inv itoa add_months w
      → Sound itoa add_months w.store (act itoa add_months policy lease w a).store
  unfolding act
  act-Sound w (tick n) h = Sound-refl itoa add_months w.store h.rows
  act-Sound w (register snapshot started ends) h =
      create_pending-Sound itoa add_months w.store h.rows snapshot started ends w.clock
  act-Sound w (pay id m) h = pay-Sound id m w.clock w.store h.rows h.started
  act-Sound w (take_charge id) h = claim-Sound itoa add_months w.store h.rows id w.clock (pos lease)
  act-Sound w (answer i a) h = elim (Option-cases (nth i w.flights)) [
    | inl e ↦ rw (act, e) (Sound-refl itoa add_months w.store h.rows)
    | inr (rec, e) ↦
        rw (act, e)
          (answer-Sound rec a w.clock w.store h.rows h.started
            (nth-All (FlightAt w.store) i w.flights e h.flying))
  ]
  act-Sound w (crash i) h = Sound-refl itoa add_months w.store h.rows
  act-Sound w (resume_failed id by note) h =
      resume-Sound itoa add_months w.store h.rows id _ (omega (arith, h.started))
  act-Sound w (note_decline id code reference) h =
      record_decline-Sound itoa add_months w.store h.rows id code reference
  act-Sound w sweep h = expire-Sound itoa add_months w.store h.rows w.clock
  act-Sound w (take_publication id) h =
      claim_activation-Sound itoa add_months w.store h.rows id w.clock (pos lease)
  act-Sound w (deliver i) h = elim (Option-cases (nth i w.publications)) [
    | inl e ↦ rw (act, e) (Sound-refl itoa add_months w.store h.rows)
    | inr (rec, e) ↦
        rw (act, e) (mark_activation_published-Sound itoa add_months w.store h.rows rec w.clock)
  ]
  act-Sound w (miss i at cause) h = elim (Option-cases (nth i w.publications)) [
    | inl e ↦ rw (act, e) (Sound-refl itoa add_months w.store h.rows)
    | inr (rec, e) ↦
        rw (act, e)
          (reschedule_activation-Sound itoa add_months w.store h.rows rec w.clock at cause)
  ]
  act-Sound w (drop_publication i) h = Sound-refl itoa add_months w.store h.rows
