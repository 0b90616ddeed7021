-- ===== src/Claims/Decision/RequestTests.antt =====
-- Requests of an analyst and an attempt of the worker on the claim of the samples.
use misw4501_202614_grupo.Base.{◌≡◌, refl, ◌⊎◌, ◌++◌, ◌+◌, none, some, [], ◌∷◌, ok}
use misw4501_202614_grupo.Base.Int.{pos}
use misw4501_202614_grupo.Base.Text.{Str, lit}
use misw4501_202614_grupo.Base.Clock.{second}
use misw4501_202614_grupo.Claims.Catalog.{collision, auto}
use misw4501_202614_grupo.Claims.Coverage.{
  Coverage, PolicyTerms, coverage_of, Holder, Policy, PolicyStatus,
}
use misw4501_202614_grupo.Claims.Case.{ClaimRecord}
use misw4501_202614_grupo.Claims.Decision.Store.{DecisionStore, decide}
use misw4501_202614_grupo.Claims.Decision.World.{Action, file, gateway_code, act, run}
use misw4501_202614_grupo.Claims.Decision.Payouts.{started}
use misw4501_202614_grupo.Claims.Decision.Service.{
  PolicyTermsReader, decidable_claim, terms_of, approve_claim,
}
use misw4501_202614_grupo.Claims.Decision.Worker.{
  WorkerConfig, Providers, default_retry, default_poll_interval, pay,
}
use misw4501_202614_grupo.Claims.Decision.Rounds.{alone, attempt, pay-run}
use misw4501_202614_grupo.Claims.Decision.Requests.{approve_claim_step}
use misw4501_202614_grupo.Claims.Decision.Samples.{
  lease, collision_claim, collision_coverage, ana, approval, timeout,
}

abbrev car : Policy
car = record {
  id = [];
  line = auto;
  product = lit "Autos";
  insured_object = lit "ABC123";
  status = PolicyStatus.active;
  valid_from = 0;
  valid_to = 100;
  covered_incidents = collision ∷ [];
}

-- A policy core that knows one insured with one policy.
abbrev core : PolicyTermsReader
core = record {
  policy_terms =
      λ subject policy_id. ok (record { policy = car; coverages = collision_coverage ∷ [] });
  holder = λ subject. ok ana;
}

abbrev filed : DecisionStore
filed = file collision_claim (started 0).store

approve_claim_step_example :
    let after =
      (approve_claim (some core) filed (lit "7") (lit "luis") (pos 2_000_000) 0 filed).0 in
    (after ≡ filed)
    ⊎ ((c : ClaimRecord) × (terms : PolicyTerms) × (cov : Coverage) × (holder : Holder)
        × (decidable_claim filed (lit "7") ≡ ok c)
        × (terms_of (some core) c ≡ ok (terms, holder))
        × (coverage_of terms c.incident_type ≡ some cov)
        × (after
            ≡ (act default_retry lease
                (alone 0 filed)
                (Action.approve_claim c cov holder (pos 2_000_000) (lit "luis") 0)).store))
approve_claim_step_example =
    approve_claim_step default_retry lease (some core) filed (lit "7") (lit "luis") (pos 2_000_000)
      0 filed

abbrev config : WorkerConfig
config = record {
  poll_interval = default_poll_interval;
  claim_lease = pos lease;
  retry = default_retry;
}

-- A gateway that does not answer in time.
abbrev providers : Providers
providers = record { payout = λ d s. (s, timeout); send = λ message s. (s, none) }

abbrev approved_store : DecisionStore
approved_store = (decide approval filed).0

pay-run_example :
    let after = pay config providers (lit "7") 0 (0 + second) approved_store in
    (after
      ≡ (run default_retry lease (alone 0 approved_store) (attempt (lit "7") second timeout)).store)
    ⊎ ((code : Str) × (after
          ≡ (run default_retry lease
              (alone 0 approved_store)
              (attempt (lit "7") second timeout ++ (gateway_code (lit "7") code ∷ []))).store))
pay-run_example =
    pay-run config lease providers timeout (lit "7") 0 second approved_store refl (λ d s. refl)
