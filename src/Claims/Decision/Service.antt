-- ===== src/Claims/Decision/Service.antt =====
-- The service of the decisions, services/claims/internal/decision/service.go. The policy core is a
-- parameter: what it answers for the terms of a policy and for the insured, or that no core is
-- configured. The service reads the claim, asks the core and writes the store, and other writers may
-- act meanwhile: `read` is the store that the claim was read from.
use misw4501_202614_grupo.Base.{not, Option, none, some, Result, ok, err, if◌then◌else◌}
use misw4501_202614_grupo.Base.Int.{ℤ}
use misw4501_202614_grupo.Base.Text.{Str}
use misw4501_202614_grupo.Base.Clock.{Time}
use misw4501_202614_grupo.Claims.Coverage.{PolicyTerms, PayoutAccount, Holder, coverage_of}
use misw4501_202614_grupo.Claims.Case.{ClaimRecord, decidable}
use misw4501_202614_grupo.Claims.Cases.{CaseError, get}
use misw4501_202614_grupo.Claims.Decision.{
  Decision, DecisionError, approve, reject, rejection_reason,
}
use misw4501_202614_grupo.Claims.Decision.Store.{
  DecisionStore, StoreError, not_decidable, decide, retry_payout,
}

-- Why the policy core gave no answer.
pub data CoreError : Type 0 where
  policy_not_found holder_not_found other_core_error : CoreError

pub record PolicyTermsReader : Type 0 where
  pub policy_terms : Str → Str → Result CoreError PolicyTerms
  pub holder : Str → Result CoreError Holder

pub data ServiceError : Type 0 where
  case_error : CaseError → ServiceError
  store_error : StoreError → ServiceError
  decision_error : DecisionError → ServiceError
  policy_unavailable not_covered : ServiceError

unfoldable pub core_error : CoreError → ServiceError
core_error policy_not_found = not_covered
core_error holder_not_found = not_covered
core_error other_core_error = policy_unavailable

-- The name of `Service.decidable`, which reads the claim as well.
unfoldable pub decidable_claim : DecisionStore → Str → Result ServiceError ClaimRecord
decidable_claim s claim_id = elim (get s.cases claim_id) [
  | err e ↦ err (case_error e)
  | ok c ↦ if not (decidable c.status) then err (store_error not_decidable) else ok c
]

unfoldable pub terms_of :
    Option PolicyTermsReader → ClaimRecord → Result ServiceError (PolicyTerms × Holder)
unfolding core_error
terms_of none c = err policy_unavailable
terms_of (some core) c = elim (core.policy_terms c.subject c.policy_id) [
  | err e ↦ err (core_error e)
  | ok terms ↦ elim (core.holder c.subject) [
    | err e ↦ err (core_error e)
    | ok holder ↦ ok (terms, holder)
  ]
]

-- What the store made of a decision. The worker that is woken after it is no state.
abbrev pub stored :
    DecisionStore × Result StoreError Decision → DecisionStore × Result ServiceError Decision
stored (s, ok d) = (s, ok d)
stored (s, err e) = (s, err (store_error e))

-- The decision that `Approve` gives the store.
unfoldable pub approval :
    Option PolicyTermsReader → DecisionStore → Str → Str → ℤ → Time → Result ServiceError Decision
unfolding decidable_claim terms_of
approval core read claim_id analyst gross_minor now = elim (decidable_claim read claim_id) [
  | err e ↦ err e
  | ok c ↦ elim (terms_of core c) [
    | err e ↦ err e
    | ok (terms, holder) ↦ elim (coverage_of terms c.incident_type) [
      | none ↦ err not_covered
      | some cov ↦ elim (approve c cov holder gross_minor analyst now) [
        | err e ↦ err (decision_error e)
        | ok d ↦ ok d
      ]
    ]
  ]
]

abbrev pub decided :
    Result ServiceError Decision → DecisionStore → DecisionStore × Result ServiceError Decision
decided (err e) s = (s, err e)
decided (ok d) s = stored (decide d s)

-- `Service.Approve`.
unfoldable pub approve_claim :
    Option PolicyTermsReader
    → DecisionStore
    → Str
    → Str
    → ℤ
    → Time
    → DecisionStore
    → DecisionStore × Result ServiceError Decision
unfolding approval
approve_claim core read claim_id analyst gross_minor now s =
    decided (approval core read claim_id analyst gross_minor now) s

-- The decision that `Reject` gives the store: the reason is checked before the core is asked.
unfoldable pub rejection :
    Option PolicyTermsReader → DecisionStore → Str → Str → Str → Time → Result ServiceError Decision
unfolding decidable_claim terms_of
rejection core read claim_id analyst reason now = elim (decidable_claim read claim_id) [
  | err e ↦ err e
  | ok c ↦ elim (rejection_reason reason) [
    | err e ↦ err (decision_error e)
    | ok _ ↦ elim (terms_of core c) [
      | err e ↦ err e
      | ok (_, holder) ↦ elim (reject c reason holder.email analyst now) [
        | err e ↦ err (decision_error e)
        | ok d ↦ ok d
      ]
    ]
  ]
]

-- `Service.Reject`.
unfoldable pub reject_claim :
    Option PolicyTermsReader
    → DecisionStore
    → Str
    → Str
    → Str
    → Time
    → DecisionStore
    → DecisionStore × Result ServiceError Decision
unfolding rejection
reject_claim core read claim_id analyst reason now s =
    decided (rejection core read claim_id analyst reason now) s

-- `Service.RetryPayout`.
unfoldable pub retry_claim_payout :
    Str
    → Str
    → Option PayoutAccount
    → Time
    → DecisionStore
    → DecisionStore × Result ServiceError Decision
retry_claim_payout claim_id analyst destination now s =
    stored (retry_payout claim_id (record { by = analyst; at = now; destination = destination }) s)
