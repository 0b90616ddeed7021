-- ===== src/Origination/Ledger.antt =====
-- Several workers, customers and analysts over one table of charges: the claim of a charge and the
-- record of its result are separate steps, and so are the claim of a publication and its record, with
-- any steps of others between them. A worker may stop before it records anything.
pub mod Invariant
pub mod Changes
pub mod Kept
pub mod Statements
pub mod Steps
pub mod Reachable
pub mod Promises
mod Tests
use misw4501_202614_grupo.Base.{
  ℕ, ◌+◌, Option, none, some, List, [], ◌∷◌, nth, remove_at, Result, ok, err,
}
use misw4501_202614_grupo.Base.Int.{ℤ, pos}
use misw4501_202614_grupo.Base.Text.{Str}
use misw4501_202614_grupo.Base.Clock.{Time}
use misw4501_202614_grupo.Resilience.{RetryPolicy, window_end}
use misw4501_202614_grupo.Idempotency.Runner.{Answer, record_result}
use misw4501_202614_grupo.Origination.Charge.{
  Charge, Snapshot, PaymentMethod, waiting_charge, base_key, attempt_state,
}
use misw4501_202614_grupo.Origination.Charge.Store.{
  ChargeStore, ChargeError, create_pending, claim, resume, claim_activation,
  mark_activation_published, reschedule_activation,
}
use misw4501_202614_grupo.Origination.Charge.Methods.{
  attach_payment_method, record_decline, expire_without_payment_method,
}
use misw4501_202614_grupo.Origination.Billing.{validate_payment_method}
use misw4501_202614_grupo.Origination.Billing.Worker.{charge_attempts}

-- `flights` are the copies of the charges that workers claimed and did not record a result of, and
-- `publications` those whose activation they claimed.
pub record World : Type 0 where
  pub store : ChargeStore
  pub clock : Time
  pub flights : List Charge
  pub publications : List Charge

-- What can happen next. A charge is registered from whatever acceptance or renewal, in a window that
-- ends at the second time. A place of a list is that of the copy that a result is of.
pub data Action : Type 0 where
  tick : ℕ → Action
  register : Snapshot → Time → Time → Action
  pay : Str → PaymentMethod → Action
  take_charge : Str → Action
  answer : ℕ → Answer → Action
  crash : ℕ → Action
  resume_failed : Str → Str → Str → Action
  note_decline : Str → Str → Str → Action
  sweep : Action
  take_publication : Str → Action
  deliver : ℕ → Action
  miss : ℕ → Time → Str → Action
  drop_publication : ℕ → Action

abbrev pub launched : Option Charge → List Charge → List Charge
launched none flights = flights
launched (some rec) flights = rec ∷ flights

abbrev pub claimed_of : Result ChargeError (Option Charge) → Option Charge
claimed_of (ok found) = found
claimed_of (err _) = none

module _ (itoa : ℕ → Str) (add_months : Time → ℤ → Time) (policy : RetryPolicy) (lease : ℕ) where
  -- A method that the service accepts.
  unfoldable pub pay_with : Str → PaymentMethod → Time → ChargeStore → ChargeStore
  pay_with id m at s = elim (validate_payment_method m) [
    | some _ ↦ s
    | none ↦ (attach_payment_method itoa id m at s).0
  ]

  unfoldable pub act : World → Action → World
  unfolding pay_with
  act w (tick n) = record w { clock = w.clock + n }
  act w (register snapshot started ends) = record w {
    store =
        (create_pending
          (waiting_charge snapshot (base_key snapshot.acceptance_id) started ends w.clock)
          w.store).0;
  }
  act w (pay id m) = record w { store = pay_with id m w.clock w.store }
  act w (take_charge id) =
      let (s, found) = claim id w.clock (pos lease) w.store in
      record w { store = s; flights = launched (claimed_of found) w.flights }
  act w (answer i a) = elim (nth i w.flights) [
    | none ↦ w
    | some rec ↦ record w {
      store =
          (record_result (charge_attempts add_months) attempt_state policy rec a w.clock w.store).0;
      flights = remove_at i w.flights;
    }
  ]
  act w (crash i) = record w { flights = remove_at i w.flights }
  act w (resume_failed id by note) = record w {
    store =
        (resume id
          (record {
            by = by;
            note = note;
            at = w.clock;
            window_ends_at = window_end policy w.clock;
          })
          w.store).0;
  }
  act w (note_decline id code reference) = record w {
    store = record_decline id code reference w.store;
  }
  act w sweep = record w { store = (expire_without_payment_method w.clock w.store).0 }
  act w (take_publication id) =
      let (s, found) = claim_activation id w.clock (pos lease) w.store in
      record w { store = s; publications = launched found w.publications }
  act w (deliver i) = elim (nth i w.publications) [
    | none ↦ w
    | some rec ↦ record w {
      store = (mark_activation_published rec w.clock w.store).0;
      publications = remove_at i w.publications;
    }
  ]
  act w (miss i next cause) = elim (nth i w.publications) [
    | none ↦ w
    | some rec ↦ record w {
      store = (reschedule_activation rec w.clock next cause w.store).0;
      publications = remove_at i w.publications;
    }
  ]
  act w (drop_publication i) = record w { publications = remove_at i w.publications }

  unfoldable pub run : World → List Action → World
  unfolding act
  run w [] = w
  run w (a ∷ rest) = run (act w a) rest
