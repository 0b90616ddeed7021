-- ===== src/Claims/Decision/Final.antt =====
-- A payout that the gateway confirmed is final: no later step changes it.
use misw4501_202614_grupo.Base.{
  ℕ, ◌≡◌, inl, inr, some, List, [], ◌∷◌, Result, arith, nth, nth-All, Option-cases, Result-cases,
}
use misw4501_202614_grupo.Base.Int.{pos}
use misw4501_202614_grupo.Base.Text.{Str, str_eq_iff}
use misw4501_202614_grupo.Base.Dict.{lookup}
use misw4501_202614_grupo.Base.Clock.{Time}
use misw4501_202614_grupo.Idempotency
use misw4501_202614_grupo.Idempotency.Runner.{Answer, record_result}
use misw4501_202614_grupo.Resilience.{RetryPolicy}
use misw4501_202614_grupo.Claims.Case.{ClaimRecord}
use misw4501_202614_grupo.Claims.Decision.{
  Decision, Payout, Notice, PayoutRetry, DecisionError, attempt_state, approve, reject,
}
use misw4501_202614_grupo.Claims.Decision.Store.{
  DecisionStore, claim, decide, retry_payout, record_gateway_code, capped, with_payout,
  claimed_payout, retried_payout,
}
use misw4501_202614_grupo.Claims.Decision.Queue.{
  with_notice, change_notice, notice_sent, notice_failed,
}
use misw4501_202614_grupo.Claims.Decision.Entries.{
  payout_cases, write-decisions, store_and_move-decisions, settled_payout, record_result-eq,
}
use misw4501_202614_grupo.Claims.Decision.World.{
  World, Action, tick, file_claim, approve_claim, reject_claim, take_payout, answer, crash, retry,
  gateway_code, send_notice, miss_notice, file, decide_if, act, run,
}
use misw4501_202614_grupo.Claims.Decision.Invariant.{FlightAt, Inv}
use misw4501_202614_grupo.Claims.Decision.Reachable.{act-Inv}
use misw4501_202614_grupo.Claims.Decision.Payouts.{payout_at, started, reachable-Inv}

module _ (id : Str) (p : Payout) (paid : p.status ≡ Idempotency.Status.confirmed) where
  file-final :
      (c : ClaimRecord) (s : DecisionStore)
      → payout_at id s ≡ some p
      → payout_at id (file c s) ≡ some p
  unfolding file
  file-final c s h = elim (Option-cases (lookup c.id s.cases.by_id)) [
    | inl e ↦ ground arith
    | inr (d, e) ↦ ground arith
  ]

  decide_if-final :
      (r : Result DecisionError Decision) (s : DecisionStore)
      → payout_at id s ≡ some p
      → payout_at id (decide_if r s) ≡ some p
  unfolding decide_if decide
  decide_if-final r s h = elim (Result-cases r) [
    | inl (e, f) ↦ ground arith
    | inr (d, f) ↦ elim (Option-cases (lookup d.claim_id s.cases.by_id)) [
      | inl e ↦ ground arith
      | inr (c, e) ↦ ground (
        arith,
        store_and_move-decisions d.claim_id id (record d { filing_number = c.filing_number }) s,
        str_eq_iff d.claim_id id,
      )
    ]
  ]

  claim-final :
      (j : Str) (now : Time) (lease : ℕ) (s : DecisionStore)
      → payout_at id s ≡ some p
      → payout_at id (claim j now (pos lease) s).0 ≡ some p
  unfolding claim
  claim-final j now lease s h = elim (payout_cases j s) [
    | inl absent ↦ ground arith
    | inr (d, q, at) ↦ ground (
      arith,
      write-decisions j id (with_payout d (claimed_payout now (pos lease) q)) s,
      str_eq_iff j id,
    )
  ]

  retry_payout-final :
      (j : Str) (r : PayoutRetry) (s : DecisionStore)
      → payout_at id s ≡ some p
      → payout_at id (retry_payout j r s).0 ≡ some p
  unfolding retry_payout
  retry_payout-final j r s h = elim (payout_cases j s) [
    | inl absent ↦ ground arith
    | inr (d, q, at) ↦ ground (
      arith,
      store_and_move-decisions j id (with_payout d (retried_payout r q)) s,
      str_eq_iff j id,
    )
  ]

  record_gateway_code-final :
      (j code : Str) (s : DecisionStore)
      → payout_at id s ≡ some p
      → payout_at id (record_gateway_code j code s) ≡ some p
  unfolding record_gateway_code
  record_gateway_code-final j code s h = elim (payout_cases j s) [
    | inl absent ↦ ground arith
    | inr (d, q, at) ↦ ground (
      arith,
      write-decisions j id (with_payout d (record q { gateway_code = code })) s,
      str_eq_iff j id,
    )
  ]

  change_notice-final :
      (j : Str) (change : Notice → Notice) (s : DecisionStore)
      → payout_at id s ≡ some p
      → payout_at id (change_notice j change s) ≡ some p
  unfolding change_notice
  change_notice-final j change s h = elim (Option-cases (lookup j s.decisions)) [
    | inl e ↦ ground arith
    | inr (d, e) ↦ elim (Option-cases (d.notice)) [
      | inl f ↦ ground arith
      | inr (n, f) ↦
          ground (arith, write-decisions j id (with_notice d (change n)) s, str_eq_iff j id)
    ]
  ]

  record_result-final :
      (policy : RetryPolicy) (a : Answer) (rec : Decision) (clock : Time) (lease : ℕ)
      (s : DecisionStore)
      → FlightAt s clock lease rec
      → payout_at id s ≡ some p
      → payout_at id (record_result capped attempt_state policy rec a clock s).0 ≡ some p
  record_result-final policy a rec clock lease s f h = elim (payout_cases rec.claim_id s) [
    | inl absent ↦ absurd (ground arith)
    | inr (d, q, at) ↦ ground (
      arith,
      record_result-eq policy rec a clock s d q,
      store_and_move-decisions rec.claim_id id (with_payout d (settled_payout policy a clock q)) s,
      str_eq_iff rec.claim_id id,
    )
  ]

  module _ (policy : RetryPolicy) (lease : ℕ) where
    act-final :
        (w : World) (a : Action)
        → Inv lease w
        → payout_at id w.store ≡ some p
        → payout_at id (act policy lease w a).store ≡ some p
    unfolding act notice_sent notice_failed
    act-final w (tick n) inv h = h
    act-final w (file_claim c) inv h = file-final c w.store h
    act-final w (approve_claim c cov holder gross by at) inv h =
        decide_if-final (approve c cov holder gross by at) w.store h
    act-final w (reject_claim c reason to by at) inv h =
        decide_if-final (reject c reason to by at) w.store h
    act-final w (take_payout j) inv h = claim-final j w.clock lease w.store h
    act-final w (answer i a) inv h = elim (Option-cases (nth i w.flights)) [
      | inl e ↦ rw (act, e) h
      | inr (rec, e) ↦
          rw (act, e)
            (record_result-final policy a rec w.clock lease w.store
              (nth-All (FlightAt w.store w.clock lease) i w.flights e inv.flying) h)
    ]
    act-final w (crash i) inv h = h
    act-final w (retry j by destination) inv h =
        retry_payout-final j (record { by = by; at = w.clock; destination = destination }) w.store h
    act-final w (gateway_code j code) inv h = record_gateway_code-final j code w.store h
    act-final w (send_notice j) inv h = change_notice-final j _ w.store h
    act-final w (miss_notice j next cause) inv h = change_notice-final j _ w.store h

    run-final :
        (w : World) (actions : List Action)
        → Inv lease w
        → payout_at id w.store ≡ some p
        → payout_at id (run policy lease w actions).store ≡ some p
    unfolding run
    run-final w [] inv h = h
    run-final w (a ∷ rest) inv h =
        run-final (act policy lease w a) rest (act-Inv policy lease w a inv) (act-final w a inv h)

-- A payout that is confirmed in a reachable world is the same, field by field, after every further
-- sequence of steps: it is never claimed, retried or paid again.
pub confirmed_payout_final :
    (policy : RetryPolicy) (lease : ℕ) (t : Time) (before after : List Action) (id : Str)
    (p : Payout)
    → let w = run policy lease (started t) before in
      payout_at id w.store ≡ some p
      → p.status ≡ Idempotency.Status.confirmed
      → payout_at id (run policy lease w after).store ≡ some p
confirmed_payout_final policy lease t before after id p h paid =
    run-final id p paid policy lease (run policy lease (started t) before) after
      (reachable-Inv policy lease t before) h
