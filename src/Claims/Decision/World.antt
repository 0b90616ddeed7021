-- ===== src/Claims/Decision/World.antt =====
-- Several workers and analysts over one store of decisions: a claim of a payout and the record of
-- its result are separate steps, with any steps of others between them, and a worker may stop
-- before it records anything.
use misw4501_202614_grupo.Base.{
  ℕ, ◌+◌, Option, none, some, List, [], ◌∷◌, nth, remove_at, Result, ok, err,
}
use misw4501_202614_grupo.Base.Int.{ℤ, pos}
use misw4501_202614_grupo.Base.Text.{Str}
use misw4501_202614_grupo.Base.Dict.{lookup, insert}
use misw4501_202614_grupo.Base.Clock.{Time}
use misw4501_202614_grupo.Resilience.{RetryPolicy}
use misw4501_202614_grupo.Idempotency.Runner.{Answer, record_result}
use misw4501_202614_grupo.Claims.Coverage.{Coverage, Holder, PayoutAccount}
use misw4501_202614_grupo.Claims.Case.{ClaimRecord}
use misw4501_202614_grupo.Claims.Decision.{Decision, DecisionError, approve, reject, attempt_state}
use misw4501_202614_grupo.Claims.Decision.Store.{
  DecisionStore, StoreError, decide, claim, capped, record_gateway_code, retry_payout,
}
use misw4501_202614_grupo.Claims.Decision.Queue.{notice_sent, notice_failed}

-- `flights` are the copies of the decisions that workers claimed and did not record a result of.
pub record World : Type 0 where
  pub store : DecisionStore
  pub clock : Time
  pub flights : List Decision

-- What can happen next. A decision is built from whatever claim and policy an analyst read, and
-- `answer` is the result of the flight at that place of the list.
pub data Action : Type 0 where
  tick : ℕ → Action
  file_claim : ClaimRecord → Action
  approve_claim : ClaimRecord → Coverage → Holder → ℤ → Str → Time → Action
  reject_claim : ClaimRecord → Str → Str → Str → Time → Action
  take_payout : Str → Action
  answer : ℕ → Answer → Action
  crash : ℕ → Action
  retry : Str → Str → Option PayoutAccount → Action
  gateway_code : Str → Str → Action
  send_notice : Str → Action
  miss_notice : Str → Time → Str → Action

abbrev pub launched : Result StoreError (Option Decision) → List Decision → List Decision
launched (ok (some rec)) flights = rec ∷ flights
launched _ flights = flights

-- A claim is filed under an id that no claim has.
unfoldable pub file : ClaimRecord → DecisionStore → DecisionStore
file c s = elim (lookup c.id s.cases.by_id) [
  | some _ ↦ s
  | none ↦
      let cases = s.cases in record s { cases = record cases { by_id = insert c.id c cases.by_id } }
]

unfoldable pub decide_if : Result DecisionError Decision → DecisionStore → DecisionStore
decide_if (err e) s = s
decide_if (ok d) s = (decide d s).0

module _ (policy : RetryPolicy) (lease : ℕ) where
  unfoldable pub act : World → Action → World
  act w (tick n) = record w { clock = w.clock + n }
  act w (file_claim c) = record w { store = file c w.store }
  act w (approve_claim c cov holder gross by at) = record w {
    store = decide_if (approve c cov holder gross by at) w.store;
  }
  act w (reject_claim c reason to by at) = record w {
    store = decide_if (reject c reason to by at) w.store;
  }
  act w (take_payout id) =
      let (s, found) = claim id w.clock (pos lease) w.store in
      record w { store = s; flights = launched found w.flights }
  act w (answer i a) = elim (nth i w.flights) [
    | none ↦ w
    | some rec ↦ record w {
      store = (record_result capped attempt_state policy rec a w.clock w.store).0;
      flights = remove_at i w.flights;
    }
  ]
  act w (crash i) = record w { flights = remove_at i w.flights }
  act w (retry id by destination) = record w {
    store =
        (retry_payout id (record { by = by; at = w.clock; destination = destination }) w.store).0;
  }
  act w (gateway_code id code) = record w { store = record_gateway_code id code w.store }
  act w (send_notice id) = record w { store = notice_sent id w.clock w.store }
  act w (miss_notice id next cause) = record w { store = notice_failed id next cause w.store }

  unfoldable pub run : World → List Action → World
  unfolding act
  run w [] = w
  run w (a ∷ rest) = run (act w a) rest
