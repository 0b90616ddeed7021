-- ===== src/Claims/Decision/Turns.antt =====
-- A whole turn of the worker over one payout: it claims it, calls the gateway and records the
-- result, and nothing else writes the store meanwhile.
use misw4501_202614_grupo.Base.{ℕ, ap, ◌+◌, ◌<◌, ◌≡◌, ◌⊎◌, true, false, some, ok, arith}
use misw4501_202614_grupo.Base.Int.{pos}
use misw4501_202614_grupo.Base.Text.{Str, str_eq_iff}
use misw4501_202614_grupo.Base.Clock.{Time}
use misw4501_202614_grupo.Idempotency
use misw4501_202614_grupo.Idempotency.{CallOutcome, classify}
use misw4501_202614_grupo.Idempotency.Runner.{Answer, record_result, process}
use misw4501_202614_grupo.Idempotency.Process.{process-claimed}
use misw4501_202614_grupo.Resilience.{RetryPolicy}
use misw4501_202614_grupo.Claims.Case.{Status, payment_exception}
use misw4501_202614_grupo.Claims.Decision.{
  Decision, Payout, retries_exhausted, payout_failure_for, Outcome, attempt_state, status_of,
}
use misw4501_202614_grupo.Claims.Decision.Store.{
  DecisionStore, write, store_and_move, due, claim, claimed_payout, capped, with_payout,
}
use misw4501_202614_grupo.Claims.Decision.Entries.{
  PayoutAt, claim_status, write-decisions, store_and_move-decisions, store_and_move-claim_status,
  settled_payout, record_result-eq,
}
use misw4501_202614_grupo.Claims.Decision.Launch.{taken}
use misw4501_202614_grupo.Claims.Decision.Payouts.{payout_at}

module _ (policy : RetryPolicy) (lease : ℕ) (id : Str) where
  -- `Process` over the store of the decisions, with a call that answers at `answered_at`.
  unfoldable pub turn : Answer → Time → Time → DecisionStore → DecisionStore
  unfolding process
  turn a called_at answered_at s =
      (process capped attempt_state policy (pos lease) id (λ rec s. (s, a)) called_at answered_at
        s).0

  module _ (a : Answer) (called_at answered_at : Time) (s : DecisionStore) (d : Decision)
      (p : Payout) where
    claim-due :
        PayoutAt id s d p
        → due (some p) called_at ≡ true
        → claim id called_at (pos lease) s
          ≡ (write id (taken called_at lease d p) s, ok (some (taken called_at lease d p)))
    unfolding claim
    claim-due at is_due = ground arith

    turn-eq :
        PayoutAt id s d p
        → due (some p) called_at ≡ true
        → turn a called_at answered_at s
          ≡ (record_result capped attempt_state policy
              (taken called_at lease d p)
              a
              answered_at
              (write id (taken called_at lease d p) s)).0
    unfolding turn process
    turn-eq at is_due =
        ap (λ z. z.0)
          (process-claimed capped attempt_state policy (pos lease) id (λ rec s. (s, a)) called_at
            answered_at s (claim-due at is_due))

    -- The settled payout of the turn.
    abbrev pub settled : Payout
    settled = settled_payout policy a answered_at (claimed_payout called_at (pos lease) p)

    turn-store :
        PayoutAt id s d p
        → d.claim_id ≡ id
        → due (some p) called_at ≡ true
        → turn a called_at answered_at s
          ≡ store_and_move id (with_payout d settled) (write id (taken called_at lease d p) s)
    turn-store at same_id is_due = rw (turn-eq at is_due) (
        ground (
          arith,
          record_result-eq policy (taken called_at lease d p) a answered_at
              (write id (taken called_at lease d p) s) (taken called_at lease d p)
              (claimed_payout called_at (pos lease) p),
          write-decisions id id (taken called_at lease d p) s,
          str_eq_iff id id,
        ))

    -- A turn of a worker over a due payout, whatever the gateway answers, leaves the payout settled
    -- by that answer and its claim with the status of the settled decision.
    pub turn-settles :
        PayoutAt id s d p
        → d.claim_id ≡ id
        → due (some p) called_at ≡ true
        → PayoutAt id (turn a called_at answered_at s) (with_payout d settled) settled
          × (claim_status id (turn a called_at answered_at s)
              ≡ some (status_of (with_payout d settled)))
    turn-settles at same_id is_due = rw (turn-store at same_id is_due) (
        ground (
          arith,
          store_and_move-decisions id id (with_payout d settled)
              (write id (taken called_at lease d p) s),
          store_and_move-claim_status id id (with_payout d settled)
              (write id (taken called_at lease d p) s),
          str_eq_iff id id,
        ))

  -- The payout after a turn whose call had no definite answer, below the cap and at it.
  settled-retried :
      (a : Answer) (called_at answered_at : Time) (s : DecisionStore) (d : Decision) (p : Payout)
      → ((classify a.error ≡ CallOutcome.ambiguous) ⊎ (classify a.error ≡ CallOutcome.not_sent))
      → p.attempts < 3
      → let q = settled a called_at answered_at s d p in
        (q.attempts ≡ p.attempts + 1)
        × (p.attempts < 2 → q.status ≡ Idempotency.Status.pending)
        × (p.attempts ≡ 2
            → (q.status ≡ Idempotency.Status.failed) × (q.failure ≡ some retries_exhausted))
  unfolding settled_payout payout_failure_for
  settled-retried a called_at answered_at s d p h lt = ground arith

  abbrev pub Indefinite : Answer → Type 0
  Indefinite a =
      (classify a.error ≡ CallOutcome.ambiguous) ⊎ (classify a.error ≡ CallOutcome.not_sent)

  -- The payout of an approval whose first three automatic attempts have no definite answer, each at a
  -- time when it is due, leaves the claim approved after the first two and makes it a payment exception
  -- after the third, and then it is never due again by itself.
  pub gives_up_after_three :
      (a b c : Answer) (t t' u u' v v' : Time) (s : DecisionStore) (d : Decision) (p : Payout)
      → let s1 = turn a t t' s in
        let s2 = turn b u u' s1 in
        let s3 = turn c v v' s2 in
        PayoutAt id s d p
        → d.claim_id ≡ id
        → d.outcome ≡ Outcome.approved
        → p.attempts ≡ 0
        → Indefinite a
        → Indefinite b
        → Indefinite c
        → due (payout_at id s) t ≡ true
        → due (payout_at id s1) u ≡ true
        → due (payout_at id s2) v ≡ true
        → (claim_status id s1 ≡ some Status.approved)
          × (claim_status id s2 ≡ some Status.approved)
          × (claim_status id s3 ≡ some payment_exception)
          × ((time : Time) → due (payout_at id s3) time ≡ false)
  unfolding status_of due
  gives_up_after_three a b c t t' u u' v v' s d p at same_id approval fresh ha hb hc due1 due2
        due3 =
      let p1 = settled a t t' s d p in
      let d1 = with_payout d p1 in
      let s1 = turn a t t' s in
      let p2 = settled b u u' s1 d1 p1 in
      let d2 = with_payout d1 p2 in
      let s2 = turn b u u' s1 in
      let p3 = settled c v v' s2 d2 p2 in
      let first = turn-settles a t t' s d p at same_id (ground arith) in
      let second = turn-settles b u u' s1 d1 p1 first.0 same_id (ground arith) in
      let third = turn-settles c v v' s2 d2 p2 second.0 same_id (ground arith) in
      let f1 = settled-retried a t t' s d p ha (omega arith) in
      let f2 = settled-retried b u u' s1 d1 p1 hb (omega (arith, f1)) in
      let f3 = settled-retried c v v' s2 d2 p2 hc (omega (arith, f1, f2)) in
      ground (arith, first, second, third, f1, f2, f3)
