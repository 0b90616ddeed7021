-- ===== src/Origination/Ledger/Tests.antt =====
-- The charge of one acceptance, under the steps of a customer, a worker and an analyst.
use misw4501_202614_grupo.Base.{◌*◌, ◌≡◌, refl, none, some, List, [], ◌∷◌, arith}
use misw4501_202614_grupo.Base.Text.{lit, str_eq}
use misw4501_202614_grupo.Base.Dict.{lookup, insert}
use misw4501_202614_grupo.Base.Clock.{second, millisecond}
use misw4501_202614_grupo.Resilience.Backoff.{IsUsable}
use misw4501_202614_grupo.Idempotency.Runner.{Answer, record_result}
use misw4501_202614_grupo.Origination.Charge.{Charge, base_key}
use misw4501_202614_grupo.Origination.Charge.Store.{create_pending, key_taken, claim, confirm}
use misw4501_202614_grupo.Origination.Charge.Methods.{attach_payment_method}
use misw4501_202614_grupo.Origination.Billing.{validate_payment_method}
use misw4501_202614_grupo.Origination.Charge.Samples.{
  digit, add_months, lease, policy, snapshot, visa, paid_charge,
}
use misw4501_202614_grupo.Origination.Ledger.{
  World, Action, register, pay, take_charge, answer, resume_failed, sweep, take_publication, act,
  run,
}
use misw4501_202614_grupo.Origination.Ledger.Invariant.{GoodCharge}
use misw4501_202614_grupo.Origination.Ledger.Kept.{KeptKey}
use misw4501_202614_grupo.Origination.Ledger.Promises.{opening, reachable_charge, step-KeptKey}

usable : IsUsable policy (500 * millisecond) (60 * second)
usable = record {
  base_eq = refl;
  max_eq = refl;
  base_pos = omega arith;
  ordered = omega arith;
  fits = omega arith;
}

abbrev charged : Answer
charged = record { outcome = record { reference = lit "ch-1" }; error = none }

abbrev registered : List Action
registered = register snapshot 1 (3600 * second) ∷ pay (lit "7") visa ∷ []

abbrev paying : List Action
paying =
    register snapshot 1 (3600 * second)
    ∷ pay (lit "7") visa
    ∷ take_charge (lit "7")
    ∷ answer 0 charged
    ∷ []

abbrev later : List Action
later =
    take_publication (lit "7")
    ∷ pay (lit "7") visa
    ∷ resume_failed (lit "7") (lit "luis") (lit "again")
    ∷ sweep
    ∷ []

abbrev opened : World
opened = opening 1

reachable_charge_example : GoodCharge digit add_months (lit "7") paid_charge
unfolding run lookup insert str_eq claim validate_payment_method attach_payment_method
    create_pending key_taken record_result confirm base_key
reachable_charge_example =
    reachable_charge digit add_months policy lease (500 * millisecond) (60 * second) usable 1
      (omega arith) paying (lit "7") paid_charge refl

step-KeptKey_example :
    (c' : Charge) × (lookup
        (lit "7")
        (act digit add_months policy lease
          (run digit add_months policy lease opened paying)
          (pay (lit "7") visa)).store.charges
      ≡ some c')
    × (c'.snapshot ≡ paid_charge.snapshot)
    × KeptKey digit (lit "7") paid_charge c'
unfolding run lookup insert str_eq claim validate_payment_method attach_payment_method
    create_pending key_taken record_result confirm base_key
step-KeptKey_example =
    step-KeptKey digit add_months policy lease (500 * millisecond) (60 * second) usable 1
      (omega arith) paying (pay (lit "7") visa) (lit "7") paid_charge refl
