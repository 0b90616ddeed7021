-- ===== src/Claims/Decision/Steps.antt =====
-- Every operation of the store keeps each decision good and each flight accounted for.
use misw4501_202614_grupo.Base.{ℕ, ◌≡◌, inl, inr, some, ok, arith, Option-cases, Result-cases}
use misw4501_202614_grupo.Base.Int.{ℤ, pos}
use misw4501_202614_grupo.Base.Text.{Str, str_eq_iff}
use misw4501_202614_grupo.Base.Dict.{lookup, lookup-insert}
use misw4501_202614_grupo.Base.Clock.{Time}
use misw4501_202614_grupo.Idempotency
use misw4501_202614_grupo.Idempotency.{classify}
use misw4501_202614_grupo.Idempotency.Runner.{Answer, record_result}
use misw4501_202614_grupo.Resilience.{RetryPolicy}
use misw4501_202614_grupo.Claims.Coverage.{Coverage, Holder}
use misw4501_202614_grupo.Claims.Case.{ClaimRecord}
use misw4501_202614_grupo.Claims.Decision.{
  Decision, Payout, Notice, PayoutRetry, status_of, approve, reject, attempt_state,
}
use misw4501_202614_grupo.Claims.Decision.Store.{
  DecisionStore, decide, claim, retry_payout, record_gateway_code, capped, with_payout,
  claimed_payout, retried_payout,
}
use misw4501_202614_grupo.Claims.Decision.Queue.{
  with_notice, change_notice, notice_sent, notice_failed,
}
use misw4501_202614_grupo.Claims.Decision.Entries.{
  claim_status, settled_payout, record_result-eq, payout_cases,
}
use misw4501_202614_grupo.Claims.Decision.World.{file, decide_if}
use misw4501_202614_grupo.Claims.Decision.Invariant.{
  GoodPayout, GoodAt, FlightAt, store_and_move-GoodAt, write-GoodAt,
}

pub file-GoodAt : (c : ClaimRecord) (j : Str) (s : DecisionStore) → GoodAt j s → GoodAt j (file c s)
unfolding file claim_status
file-GoodAt c j s h = ground (arith, lookup-insert c.id j c s.cases.by_id, str_eq_iff c.id j)

approve-GoodPayout :
    (c : ClaimRecord) (cov : Coverage) (holder : Holder) (gross : ℤ) (by : Str) (at : Time)
    {d : Decision}
    → approve c cov holder gross by at ≡ ok d
    → GoodPayout d.outcome d.payout d.claim_id d
unfolding approve
approve-GoodPayout c cov holder gross by at e = ground arith

reject-GoodPayout :
    (c : ClaimRecord) (reason to by : Str) (at : Time) {d : Decision}
    → reject c reason to by at ≡ ok d
    → GoodPayout d.outcome d.payout d.claim_id d
unfolding reject
reject-GoodPayout c reason to by at e = ground arith

decide_stored-GoodAt :
    (d : Decision) (j : Str) (s : DecisionStore)
    → GoodPayout d.outcome d.payout d.claim_id d
    → GoodAt j s
    → GoodAt j (decide d s).0
unfolding decide
decide_stored-GoodAt d j s g h = elim (Option-cases (lookup d.claim_id s.cases.by_id)) [
  | inl e ↦ ground arith
  | inr (c, e) ↦
      ground
        (arith, store_and_move-GoodAt d.claim_id j (record d { filing_number = c.filing_number }) s)
]

pub approve-GoodAt :
    (c : ClaimRecord) (cov : Coverage) (holder : Holder) (gross : ℤ) (by : Str) (at : Time)
    (j : Str) (s : DecisionStore)
    → GoodAt j s
    → GoodAt j (decide_if (approve c cov holder gross by at) s)
unfolding decide_if
approve-GoodAt c cov holder gross by at j s h =
    elim (Result-cases (approve c cov holder gross by at)) [
      | inl (e, f) ↦ ground arith
      | inr (d, f) ↦
          ground
            (arith, decide_stored-GoodAt d j s (approve-GoodPayout c cov holder gross by at f) h)
    ]

pub reject-GoodAt :
    (c : ClaimRecord) (reason to by : Str) (at : Time) (j : Str) (s : DecisionStore)
    → GoodAt j s
    → GoodAt j (decide_if (reject c reason to by at) s)
unfolding decide_if
reject-GoodAt c reason to by at j s h = elim (Result-cases (reject c reason to by at)) [
  | inl (e, f) ↦ ground arith
  | inr (d, f) ↦
      ground (arith, decide_stored-GoodAt d j s (reject-GoodPayout c reason to by at f) h)
]

pub claim-GoodAt :
    (id : Str) (now : Time) (lease : ℕ) (j : Str) (s : DecisionStore)
    → GoodAt id s
    → GoodAt j s
    → GoodAt j (claim id now (pos lease) s).0
unfolding claim status_of
claim-GoodAt id now lease j s g h = elim (payout_cases id s) [
  | inl absent ↦ ground arith
  | inr (d, p, at) ↦
      ground (arith, write-GoodAt id j (with_payout d (claimed_payout now (pos lease) p)) s)
]

pub retry_payout-GoodAt :
    (id : Str) (r : PayoutRetry) (j : Str) (s : DecisionStore)
    → GoodAt id s
    → GoodAt j s
    → GoodAt j (retry_payout id r s).0
unfolding retry_payout
retry_payout-GoodAt id r j s g h = elim (payout_cases id s) [
  | inl absent ↦ ground arith
  | inr (d, p, at) ↦
      ground (arith, store_and_move-GoodAt id j (with_payout d (retried_payout r p)) s)
]

pub record_gateway_code-GoodAt :
    (id code j : Str) (s : DecisionStore)
    → GoodAt id s
    → GoodAt j s
    → GoodAt j (record_gateway_code id code s)
unfolding record_gateway_code status_of
record_gateway_code-GoodAt id code j s g h = elim (payout_cases id s) [
  | inl absent ↦ ground arith
  | inr (d, p, at) ↦
      ground (arith, write-GoodAt id j (with_payout d (record p { gateway_code = code })) s)
]

settled_payout-GoodPayout :
    (policy : RetryPolicy) (a : Answer) (now : Time) (id : Str) (d : Decision) (p : Payout)
    → d.payout ≡ some p
    → GoodPayout d.outcome d.payout id d
    → p.status ≡ Idempotency.Status.in_progress
    → GoodPayout d.outcome (some (settled_payout policy a now p)) id d
unfolding settled_payout
settled_payout-GoodPayout policy a now id d p e g h = ground arith

pub record_result-GoodAt :
    (policy : RetryPolicy) (a : Answer) (rec : Decision) (clock : Time) (lease : ℕ) (j : Str)
    (s : DecisionStore)
    → FlightAt s clock lease rec
    → GoodAt rec.claim_id s
    → GoodAt j s
    → GoodAt j (record_result capped attempt_state policy rec a clock s).0
record_result-GoodAt policy a rec clock lease j s f g h = elim (payout_cases rec.claim_id s) [
  | inl absent ↦ absurd (ground arith)
  | inr (d, p, at) ↦ ground (
    arith,
    record_result-eq policy rec a clock s d p,
    settled_payout-GoodPayout policy a clock rec.claim_id d p,
    store_and_move-GoodAt rec.claim_id j (with_payout d (settled_payout policy a clock p)) s,
  )
]

change_notice-GoodAt :
    (id : Str) (change : Notice → Notice) (j : Str) (s : DecisionStore)
    → GoodAt id s
    → GoodAt j s
    → GoodAt j (change_notice id change s)
unfolding change_notice status_of
change_notice-GoodAt id change j s g h = elim (Option-cases (lookup id s.decisions)) [
  | inl e ↦ ground arith
  | inr (d, e) ↦ elim (Option-cases (d.notice)) [
    | inl f ↦ ground arith
    | inr (n, f) ↦ ground (arith, write-GoodAt id j (with_notice d (change n)) s)
  ]
]

pub notice_sent-GoodAt :
    (id : Str) (at : Time) (j : Str) (s : DecisionStore)
    → GoodAt id s
    → GoodAt j s
    → GoodAt j (notice_sent id at s)
unfolding notice_sent
notice_sent-GoodAt id at j s = change_notice-GoodAt id _ j s

pub notice_failed-GoodAt :
    (id : Str) (next : Time) (cause j : Str) (s : DecisionStore)
    → GoodAt id s
    → GoodAt j s
    → GoodAt j (notice_failed id next cause s)
unfolding notice_failed
notice_failed-GoodAt id next cause j s = change_notice-GoodAt id _ j s
