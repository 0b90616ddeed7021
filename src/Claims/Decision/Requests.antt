-- ===== src/Claims/Decision/Requests.antt =====
-- What the service of the decisions does to the store is a step of the world, or nothing.
use misw4501_202614_grupo.Base.{
  ℕ, ◌≡◌, refl, ◌⊎◌, inl, inr, Option, some, Result, ok, err, Option-cases, Result-cases,
}
use misw4501_202614_grupo.Base.Int.{ℤ}
use misw4501_202614_grupo.Base.Text.{Str}
use misw4501_202614_grupo.Base.Clock.{Time}
use misw4501_202614_grupo.Resilience.{RetryPolicy}
use misw4501_202614_grupo.Claims.Coverage.{Coverage, PolicyTerms, Holder, coverage_of}
use misw4501_202614_grupo.Claims.Case.{ClaimRecord}
use misw4501_202614_grupo.Claims.Decision.{Decision, approve, reject, rejection_reason}
use misw4501_202614_grupo.Claims.Decision.Store.{DecisionStore, StoreError, decide}
use misw4501_202614_grupo.Claims.Decision.World.{Action, decide_if, act}
use misw4501_202614_grupo.Claims.Decision.Rounds.{alone}
use misw4501_202614_grupo.Claims.Decision.Service.{
  PolicyTermsReader, stored, decidable_claim, terms_of, approval, approve_claim, rejection,
  reject_claim,
}

-- What the store is left with does not depend on how an error is reported.
stored-store : (r : DecisionStore × Result StoreError Decision) → (stored r).0 ≡ r.0
stored-store (s, ok d) = refl
stored-store (s, err e) = refl

module _ (policy : RetryPolicy) (lease : ℕ) (core : Option PolicyTermsReader)
    (read : DecisionStore) where
  -- A request to approve a claim, whatever the store it was read from and whatever the policy core
  -- answers, leaves the store as it was or makes the step of the world that approves the claim it read, in
  -- evaluation, under the coverage of its incident in the terms that the core gives, for the amount, the
  -- analyst and the time of the request.
  pub approve_claim_step :
      (id analyst : Str) (gross : ℤ) (now : Time) (s : DecisionStore)
      → ((approve_claim core read id analyst gross now s).0 ≡ s)
        ⊎ ((c : ClaimRecord) × (terms : PolicyTerms) × (cov : Coverage) × (holder : Holder)
            × (decidable_claim read id ≡ ok c)
            × (terms_of core c ≡ ok (terms, holder))
            × (coverage_of terms c.incident_type ≡ some cov)
            × ((approve_claim core read id analyst gross now s).0
                ≡ (act policy lease
                    (alone now s)
                    (Action.approve_claim c cov holder gross analyst now)).store))
  unfolding approve_claim approval act decide_if
  approve_claim_step id analyst gross now s = elim (Result-cases (decidable_claim read id)) [
    | inl (e, f) ↦ inl (rw (approve_claim, approval, f) refl)
    | inr (c, f) ↦ elim (Result-cases (terms_of core c)) [
      | inl (e, g) ↦ inl (rw (approve_claim, approval, f, g) refl)
      | inr ((terms, holder), g) ↦ elim (Option-cases (coverage_of terms c.incident_type)) [
        | inl h ↦ inl (rw (approve_claim, approval, f, g, h) refl)
        | inr (cov, h) ↦ elim (Result-cases (approve c cov holder gross analyst now)) [
          | inl (e, k) ↦ inl (rw (approve_claim, approval, f, g, h, k) refl)
          | inr (d, k) ↦ inr (
            c,
            terms,
            cov,
            holder,
            f,
            g,
            h,
            rw (approve_claim, approval, f, g, h, k) (stored-store (decide d s)),
          )
        ]
      ]
    ]
  ]

  -- A request to reject a claim, likewise: it leaves the store as it was or makes the step of the world
  -- that rejects the claim it read, in evaluation, for its reason, with the notice to the address of the
  -- insured that the core gives.
  reject_claim_step :
      (id analyst reason : Str) (now : Time) (s : DecisionStore)
      → ((reject_claim core read id analyst reason now s).0 ≡ s)
        ⊎ ((c : ClaimRecord) × (terms : PolicyTerms) × (holder : Holder) × (decidable_claim read id
              ≡ ok c)
            × (terms_of core c ≡ ok (terms, holder))
            × ((reject_claim core read id analyst reason now s).0
                ≡ (act policy lease
                    (alone now s)
                    (Action.reject_claim c reason holder.email analyst now)).store))
  unfolding reject_claim rejection act decide_if
  reject_claim_step id analyst reason now s = elim (Result-cases (decidable_claim read id)) [
    | inl (e, f) ↦ inl (rw (reject_claim, rejection, f) refl)
    | inr (c, f) ↦ elim (Result-cases (rejection_reason reason)) [
      | inl (e, g) ↦ inl (rw (reject_claim, rejection, f, g) refl)
      | inr (trimmed, g) ↦ elim (Result-cases (terms_of core c)) [
        | inl (e, h) ↦ inl (rw (reject_claim, rejection, f, g, h) refl)
        | inr ((terms, holder), h) ↦
            elim (Result-cases (reject c reason holder.email analyst now)) [
              | inl (e, k) ↦ inl (rw (reject_claim, rejection, f, g, h, k) refl)
              | inr (d, k) ↦ inr (
                c,
                terms,
                holder,
                f,
                h,
                rw (reject_claim, rejection, f, g, h, k) (stored-store (decide d s)),
              )
            ]
      ]
    ]
  ]
