-- ===== src/Origination/Ledger/Invariant.antt =====
-- What holds of every charge between two steps.
use misw4501_202614_grupo.Base.{ℕ, ◌≤◌, ◌≡◌, ◌↔◌, ◌⊎◌, Bool, true, false, Option, none, some, ◌++◌}
use misw4501_202614_grupo.Base.Int.{ℤ}
use misw4501_202614_grupo.Base.Text.{Str, lit}
use misw4501_202614_grupo.Base.Dict.{lookup}
use misw4501_202614_grupo.Base.Clock.{Time, zero_time}
use misw4501_202614_grupo.Idempotency.{Status}
use misw4501_202614_grupo.Origination.Charge.{
  Charge, ChargeFailureReason, payment_method_missing, charge_retry_window_expired,
  payment_rejected, no_activation, captured, start_of, policy_id_for, activation_event_id_for,
  base_key,
}
use misw4501_202614_grupo.Origination.Charge.Store.{ChargeStore}

-- The key of the acceptance, or the one of a later payment.
abbrev pub GoodKey : (ℕ → Str) → Str → Str → ℕ → Type 0
GoodKey itoa id key payments =
    (key ≡ base_key id)
    ⊎ ((n : ℕ) × (2 ≤ n) × (n ≤ payments) × (key ≡ base_key id ++ lit "-" ++ itoa n))

-- Why a charge failed says whether it has a payment method.
abbrev pub GoodReason : Option ChargeFailureReason → Bool → Type 0
GoodReason none paid = ⊥
GoodReason (some payment_method_missing) paid = paid ≡ false
GoodReason (some charge_retry_window_expired) paid = paid ≡ true
GoodReason (some payment_rejected) paid = paid ≡ true

abbrev pub GoodActivation : (Time → ℤ → Time) → Str → Charge → Type 0
GoodActivation add_months id c =
    (c.activation.policy_id ≡ policy_id_for id)
    × (c.activation.event_id ≡ activation_event_id_for id)
    × (c.activation.activated_at ≡ c.confirmed_at)
    × (c.activation.coverage_start ≡ start_of add_months c c.confirmed_at)
    × (c.activation.coverage_end ≡ add_months c.activation.coverage_start c.terms.term_months)

-- A pending charge is due at a time exactly if it has a method; one that is being charged has one.
abbrev pub GoodState : (Time → ℤ → Time) → Str → Status → Charge → Type 0
GoodState add_months id Status.pending c =
    (c.failure_reason ≡ none)
    × (c.activation ≡ no_activation)
    × ((c.next_attempt_at ≡ zero_time) ↔ (captured c.payment_method.kind ≡ false))
GoodState add_months id Status.in_progress c =
    (c.failure_reason ≡ none)
    × (c.activation ≡ no_activation)
    × (captured c.payment_method.kind ≡ true)
GoodState add_months id Status.confirmed c =
    (c.failure_reason ≡ none)
    × (captured c.payment_method.kind ≡ true)
    × GoodActivation add_months id c
GoodState add_months id Status.failed c =
    (c.activation ≡ no_activation) × GoodReason c.failure_reason (captured c.payment_method.kind)

pub record GoodCharge (itoa : ℕ → Str) (add_months : Time → ℤ → Time) (id : Str) (c : Charge)
    : Type 0 where
  pub id_eq : c.acceptance_id ≡ id
  pub key : GoodKey itoa id c.idempotency_key c.payment_attempt
  pub paid : captured c.payment_method.kind ≡ true → 1 ≤ c.payment_attempt
  pub state : GoodState add_months id c.status c

-- A flight is of a row with the same snapshot.
abbrev pub SameRow : Option Charge → Charge → Type 0
SameRow none rec = ⊥
SameRow (some c) rec = c.snapshot ≡ rec.snapshot

abbrev pub FlightAt : ChargeStore → Charge → Type 0
FlightAt s rec = SameRow (lookup rec.acceptance_id s.charges) rec
