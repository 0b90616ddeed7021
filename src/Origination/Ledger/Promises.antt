-- ===== src/Origination/Ledger/Promises.antt =====
-- What the billing of the premiums promises of every charge, whatever happens.
use misw4501_202614_grupo.Base.{ℕ, ◌<◌, ◌≡◌, Option, some, List, [], Result, ok, arith}
use misw4501_202614_grupo.Base.Int.{ℤ}
use misw4501_202614_grupo.Base.Text.{Str}
use misw4501_202614_grupo.Base.Dict.{lookup}
use misw4501_202614_grupo.Base.Clock.{Time}
use misw4501_202614_grupo.Resilience.{RetryPolicy}
use misw4501_202614_grupo.Resilience.Backoff.{IsUsable}
use misw4501_202614_grupo.Idempotency.{Status}
use misw4501_202614_grupo.Origination.Charge.{Charge}
use misw4501_202614_grupo.Origination.Charge.Store.{ChargeError}
use misw4501_202614_grupo.Origination.Ledger.{World, Action, act, run}
use misw4501_202614_grupo.Origination.Ledger.Invariant.{GoodCharge}
use misw4501_202614_grupo.Origination.Ledger.Kept.{Kept, KeptFinal, KeptKey}
use misw4501_202614_grupo.Origination.Ledger.Steps.{Inv, act-Sound}
use misw4501_202614_grupo.Origination.Ledger.Reachable.{run-Inv}

-- A world with no charge yet.
abbrev pub opening : Time → World
opening t = record {
  store = record { charges = []; actions = [] };
  clock = t;
  flights = [];
  publications = [];
}

opening-Inv :
    (itoa : ℕ → Str) (add_months : Time → ℤ → Time) (t : Time)
    → 0 < t
    → Inv itoa add_months (opening t)
unfolding lookup
opening-Inv itoa add_months t h = record {
  rows = λ j c e. absurd (ground arith);
  flying = tt;
  started = h;
}

-- A confirmed charge as it was, whatever came later.
abbrev pub StaysConfirmed : Charge → Charge → Type 0
StaysConfirmed c c' = (c'.snapshot ≡ c.snapshot) × KeptFinal Status.confirmed c c'

abbrev claimed_ok : Charge → Result ChargeError (Option Charge)
claimed_ok c = ok (some c)

module _ (itoa : ℕ → Str) (add_months : Time → ℤ → Time) (policy : RetryPolicy) (lease : ℕ)
    (base max_wait : ℕ) (usable : IsUsable policy base max_wait) (t : Time) (started : 0 < t) where
  abbrev world : List Action → World
  world actions = run itoa add_months policy lease (opening t) actions

  world-Inv : (actions : List Action) → Inv itoa add_months (world actions)
  world-Inv actions =
      run-Inv itoa add_months policy lease base max_wait usable (opening t) actions
        (opening-Inv itoa add_months t started)

  -- Whatever customers, workers and analysts do, in whatever order, with crashes and with calls that
  -- overlap, under a usable retry policy: every charge in the table has the key of its acceptance or
  -- that of a payment after a decline; it is due or being charged only with a payment method; it
  -- failed as one without a method exactly if it has none; and it activates a coverage exactly if it
  -- is confirmed: the policy and the event of the acceptance, from the confirmation, or from the end
  -- of the policy that it renews where that is later, for the term.
  pub reachable_charge :
      (actions : List Action) (id : Str) (c : Charge)
      → lookup id (world actions).store.charges ≡ some c
      → GoodCharge itoa add_months id c
  reachable_charge actions = (world-Inv actions).rows

  -- One step of a reachable world leaves every charge in the table with its snapshot and with its key,
  -- unless the gateway had declined the charge and the step is its next payment, whose key it gets.
  pub step-KeptKey :
      (actions : List Action) (a : Action) (id : Str) (c : Charge)
      → lookup id (world actions).store.charges ≡ some c
      → (c' : Charge) × (lookup id
            (act itoa add_months policy lease (world actions) a).store.charges
          ≡ some c')
        × (c'.snapshot ≡ c.snapshot)
        × KeptKey itoa id c c'
  step-KeptKey actions a id c e =
      let (c', f, k) =
        (act-Sound itoa add_months policy lease base max_wait usable (world actions) a
            (world-Inv actions)).1
          id c e in
      (c', f, k.0, k.2)
