-- ===== src/Lib.antt =====
-- The core of the claims and origination services of Solventa, with the mechanisms of the shared
-- packages that they stand on, and the list of consents of the audit service.
--
-- The premium of an accepted offer is a charge. It waits for a payment method of the customer, and a
-- worker charges it through the gateway under one key for each payment until it is confirmed, declined
-- or out of time; a confirmed charge activates the coverage, once. A policy that ends is renewed in a
-- window before its end: the insured accepts, its charge is made, and the period has one outcome.
--
-- An insured files a claim under a policy. Triage gives it a level of priority and recalculates the
-- level when what it came from changes. Operations approves the claim for an amount or rejects it.
-- A worker pays an approval through the gateway, at most one call at a time, always with the key of
-- the claim, and sends the notice of a rejection.
--
--   Base         shared names; int64 with its wrap-around (Base/Int), texts as lists of code points
--                (Base/Text), maps as association lists (Base/Dict), instants (Base/Clock), and the
--                filters and stable sorts of the lists (Base/Sort)
--   Resilience   pkg/resilience/retry.go: RetryPolicy.Validate, Backoff, WindowEnd, Next
--   Idempotency  pkg/idempotency: attempt.go and key.go; Runner is runner.go (NewRunner, Process,
--                Classify), over any store
--   Security     pkg/security: authorize.go, roles.go and the identity of claims.go
--   Payments     pkg/adapters/payments/client.go: Charge, Payout, call, send; Payments/Gateway and
--                Payments/Cards are stubs/payment-gateway/cmd/pasarela-pagos/main.go
--   Origination  services/origination/internal:
--     Charge     domain/charge.go, with its types in Charge/Data; Charge/Store, Charge/Methods and
--                Charge/Queue are adapters/postgres/charges.go
--     Activation the event of a coverage and its policy, domain/contract.go, charge.go, renewal.go
--     Billing    billing/service.go, starter.go, terms.go; Billing/Worker is billing/worker.go
--     Ledger     any number of customers, workers and analysts over one table of charges
--     Renewal    domain/renewal.go; Renewal/Store is adapters/postgres/renewals.go and policies.go,
--                Renewal/Service is renewal/service.go and Renewal/Worker worker.go
--   Audit        services/audit/internal/domain/compliance_list.go: Audit/Compliance is the list of
--                consents, Compliance/Request its query and Compliance/Indicators its cards
--   Claims       services/claims/internal:
--     Catalog    domain/catalog.go, summary.go (CatalogFor)
--     Coverage   domain/policy.go, evaluation.go
--     Case       the stored claim, domain/claim.go, web_filing.go, support.go, evidence.go
--     Filing     the number and the fingerprints of a filing, domain/claim.go and web_filing.go
--     Cases      adapters/memory/cases.go; Cases/Lists are its pages
--     Triage     Triage/Data is domain/triage.go and Triage/Policy triage_policy.go; Triage/Store
--                is adapters/memory/triage.go and Triage/Service is triage/service.go
--     Decision   domain/decision.go; Decision/Store and Decision/Queue are
--                adapters/memory/decisions.go, Decision/Service is decision/service.go and
--                Decision/Worker is decision/worker.go
--
-- A store is a record and an operation takes it and returns the new one: a mutex makes each
-- operation one step, and the copies that the operations return share nothing with the store. What
-- happens between the steps is the business of Decision/World and Triage/Tasks: lists of actions of
-- any number of workers, analysts and tasks, in any order, where a worker claims in one action and
-- records in a later one, or never. In Decision/World a clock never goes back, a lease is not
-- negative, and a claim is filed under a new id.
--
-- A statement of PostgreSQL is one step on a table: its test and its update are one, as the lock of the
-- row makes them. NULL is the zero time, the empty text or none. In Origination/Ledger the claim of a
-- charge and the record of its result are separate steps, and so are those of a publication; the clock
-- starts after the zero time and the waits of the retry policy are usable. Origination/Renewal/Periods
-- has the charges change in any way between the requests and the sweeps. Amounts of the origination
-- are in minor units, where the code has floats that it rounds to them.
--
-- An error of a provider is the chain of the errors that it wraps. An instant counts nanoseconds
-- after the zero time, so none is before it. A map is walked over in the order of its list, where the
-- code sorts or looks for one key. `Resilience.Schedule.fail_until` runs on fuel, and is given enough.
--
-- The policy core, the exchanges with a gateway, the provider of e-mail, the digest of a filing, the
-- formats of instants, days and numbers, the calendar (months and days after an instant), capitals,
-- the new premium of a renewal and its notices are parameters; the tests give them as functions.
-- HTTP, JSON, logs, metrics and timers are left out, and so are the other services, and of
-- origination the quotes, the rating, the reviews, the formalization, the endorsements and the
-- cancellation.
pub mod Audit
pub mod Base
pub mod Claims
pub mod Idempotency
pub mod Origination
pub mod Payments
pub mod Resilience
pub mod Security
