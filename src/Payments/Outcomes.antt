-- ===== src/Payments/Outcomes.antt =====
-- What an attempt learns from a call to the gateway.
use misw4501_202614_grupo.Base.{
  ℕ, ◌≤◌, ◌<◌, ◌≡◌, ◌≢◌, ◌∙◌, Bool, true, false, ◌↔◌, ◌⊎◌, Option, none, some, Result, ok, err,
  arith,
}
use misw4501_202614_grupo.Base.Text.{Str}
use misw4501_202614_grupo.Idempotency.{
  CallError, CallOutcome, classify, wraps_rejected, wraps_not_sent,
}
use misw4501_202614_grupo.Base.Dict.{lookup}
use misw4501_202614_grupo.Base.Clock.{Time}
use misw4501_202614_grupo.Payments.Gateway.{
  GatewayCharge, ChargeResult, Gateway, same_charge, process,
}
use misw4501_202614_grupo.Payments.{
  Operation, charging, Reply, Exchange, breaker_open, no_reply, replied, retryable_status, send,
  call,
}

abbrev pub error_of : {V : Type 0} → Result CallError V → Option CallError
error_of (ok v) = none
error_of (err e) = some e

abbrev readable : {V : Type 0} → Result Str V → Bool
readable (ok _) = true
readable (err _) = false

-- The gateway made the operation, and said so in a body that could be read.
abbrev pub Succeeded : {V : Type 0} → Exchange V → Type 0
Succeeded breaker_open = ⊥
Succeeded (no_reply _) = ⊥
Succeeded (replied r) = ((r.status ≡ 200) ⊎ (r.status ≡ 201)) × (readable r.value ≡ true)

-- It refused the operation for good: a status of the 400s that does not mean "not now".
abbrev pub Refused : {V : Type 0} → Exchange V → Type 0
Refused breaker_open = ⊥
Refused (no_reply _) = ⊥
Refused (replied r) =
    (400 ≤ r.status)
    × (r.status < 500)
    × (r.status ≢ 408)
    × (r.status ≢ 409)
    × (r.status ≢ 425)
    × (r.status ≢ 429)

-- An attempt is confirmed exactly if the gateway made the operation in a readable reply of status
-- 200 or 201, rejected exactly if it replied with a final status of the 400s, not sent exactly if the
-- breaker refused the call, and ambiguous in every other case.
pub call-classify :
    {V : Type 0} (itoa : ℕ → Str) (operation : Operation) (x : Exchange V)
    → let outcome = classify (error_of (call itoa operation x)) in
      ((outcome ≡ CallOutcome.confirmed) ↔ Succeeded x)
      × ((outcome ≡ CallOutcome.rejected) ↔ Refused x)
      × ((outcome ≡ CallOutcome.not_sent) ↔ (x ≡ breaker_open))
unfolding call send classify retryable_status wraps_rejected wraps_not_sent
call-classify itoa operation breaker_open = ground arith
call-classify itoa operation (no_reply text) = ground arith
call-classify itoa operation (replied r) = ground arith

-- A charge that comes with the key of another one is answered with 422 by a gateway that honours the
-- keys, and charges nothing; an attempt that gets this answer is rejected, whether or not the gateway
-- charged the key before.
process-reused :
    {V : Type 0} (itoa : ℕ → Str) (key : Str) (r : GatewayCharge) (now : Time) (g : Gateway)
    (prev : ChargeResult) (reply : Reply V)
    → g.supports_idempotency ≡ true
    → lookup key g.by_key ≡ some prev
    → same_charge prev.request r ≡ false
    → reply.status ≡ (process itoa key r now g).1
    → ((process itoa key r now g).1 ≡ 422)
      × ((process itoa key r now g).0.real_charges ≡ g.real_charges)
      × (classify (error_of (call itoa charging (replied reply))) ≡ CallOutcome.rejected)
unfolding process
process-reused itoa key r now g prev reply h e other st =
    let answered : (process itoa key r now g).1 ≡ 422 = rw (process, e) (ground arith) in
    let told : reply.status ≡ 422 = st ∙ answered in
    (
      answered,
      rw (process, e) (ground arith),
      (call-classify itoa charging (replied reply)).1.1 (ground arith),
    )
