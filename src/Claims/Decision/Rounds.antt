-- ===== src/Claims/Decision/Rounds.antt =====
-- What the worker and the service do is made of steps of the world.
use misw4501_202614_grupo.Base.{
  ℕ, ◌+◌, ◌++◌, ◌≡◌, refl, ap, ◌∙◌, ◌⊎◌, inl, inr, Option, none, some, List, [], ◌∷◌, Bool-cases,
  Option-cases,
}
use misw4501_202614_grupo.Base.Int.{pos}
use misw4501_202614_grupo.Base.Text.{Str, is_empty}
use misw4501_202614_grupo.Base.Clock.{Time}
use misw4501_202614_grupo.Idempotency
use misw4501_202614_grupo.Idempotency.{CallError, Rejection, as_rejected}
use misw4501_202614_grupo.Idempotency.Runner.{Answer, Report, ProcessError, process}
use misw4501_202614_grupo.Claims.Decision.{Decision, attempt_state}
use misw4501_202614_grupo.Claims.Decision.Store.{
  DecisionStore, StoreError, capped, claim, record_gateway_code,
}
use misw4501_202614_grupo.Claims.Decision.World.{
  World, Action, take_payout, tick, answer, gateway_code, act, run,
}
use misw4501_202614_grupo.Claims.Decision.Launch.{claim_cases, taken}
use misw4501_202614_grupo.Claims.Decision.Worker.{
  WorkerConfig, Providers, after_report, keep_gateway_code, paid_of, code_if_failed, pay,
}

-- The store after a report is the one before, or has the code of the gateway as well.
abbrev Coded : Str → DecisionStore → DecisionStore → Type 0
Coded id s after = (after ≡ s) ⊎ ((code : Str) × (after ≡ record_gateway_code id code s))

keep_gateway_code-Coded :
    (id : Str) (e : Option CallError) (s : DecisionStore) → Coded id s (keep_gateway_code id e s)
unfolding keep_gateway_code
keep_gateway_code-Coded id none s = inl refl
keep_gateway_code-Coded id (some e) s = elim (Option-cases (as_rejected e.chain)) [
  | inl f ↦ rw (keep_gateway_code, f) (inl refl)
  | inr (r, f) ↦ elim (Bool-cases (is_empty r.code)) [
    | inl g ↦ rw (keep_gateway_code, f, g) (inl refl)
    | inr g ↦ rw (keep_gateway_code, f, g) (inr (r.code, refl))
  ]
]

code_if_failed-Coded :
    (o : Option Idempotency.Status) (id : Str) (e : Option CallError) (s : DecisionStore)
    → Coded id s (code_if_failed o id e s)
code_if_failed-Coded none id e s = inl refl
code_if_failed-Coded (some Idempotency.Status.pending) id e s = inl refl
code_if_failed-Coded (some Idempotency.Status.in_progress) id e s = inl refl
code_if_failed-Coded (some Idempotency.Status.confirmed) id e s = inl refl
code_if_failed-Coded (some Idempotency.Status.failed) id e s = keep_gateway_code-Coded id e s

after_report-Coded :
    (id : Str) (r : DecisionStore × Report Decision × Option (ProcessError StoreError))
    → Coded id r.0 (after_report id r)
after_report-Coded id (s, report, some e) = inl refl
after_report-Coded id (s, report, none) =
    code_if_failed-Coded (paid_of report.stored) id report.call_error s

-- One attempt of a worker, with nothing else between its steps.
abbrev pub attempt : Str → ℕ → Answer → List Action
attempt id n a = take_payout id ∷ tick n ∷ answer 0 a ∷ []

abbrev pub alone : Time → DecisionStore → World
alone t s = record { store = s; clock = t; flights = [] }

module _ (config : WorkerConfig) (lease : ℕ) (providers : Providers) (a : Answer) where
  process-run :
      (id : Str) (t n : ℕ) (s : DecisionStore)
      → config.claim_lease ≡ pos lease
      → ((d : Decision) (s : DecisionStore) → providers.payout d s ≡ (s, a))
      → (process capped attempt_state config.retry config.claim_lease id providers.payout t
          (t + n)
          s).0
        ≡ (run config.retry lease (alone t s) (attempt id n a)).store
  unfolding run act process
  process-run id t n s le quiet = rw le (elim (claim_cases id t lease s) [
    | inl e ↦ rw (process, act, e) refl
    | inr (d, p, at, is_due, e) ↦
        rw (process, act, e, quiet (taken t lease d p) (claim id t (pos lease) s).0) refl
  ])

  -- An attempt of the worker over a due or not due payout, with a gateway that answers `a` and leaves
  -- the store alone, changes the store as the steps of the world do: a claim of the payout, the time of
  -- the call and the record of the answer, and perhaps the code of the gateway after them.
  pub pay-run :
      (id : Str) (t n : ℕ) (s : DecisionStore)
      → config.claim_lease ≡ pos lease
      → ((d : Decision) (s : DecisionStore) → providers.payout d s ≡ (s, a))
      → (pay config providers id t (t + n) s
          ≡ (run config.retry lease (alone t s) (attempt id n a)).store)
        ⊎ ((code : Str) × (pay config providers id t (t + n) s
              ≡ (run config.retry lease
                  (alone t s)
                  (attempt id n a ++ (gateway_code id code ∷ []))).store))
  unfolding pay run act
  pay-run id t n s le quiet =
      let result =
        process capped attempt_state config.retry config.claim_lease id providers.payout t (t + n)
          s in
      let same = process-run id t n s le quiet in
      elim (after_report-Coded id result) [
        | inl e ↦ inl (e ∙ same)
        | inr (code, e) ↦ inr (code, e ∙ ap (record_gateway_code id code) same)
      ]
