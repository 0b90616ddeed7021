-- ===== src/Claims/Decision/StepTests.antt =====
-- Single operations on the claim of the samples.
use misw4501_202614_grupo.Base.{
  ℕ, ◌+◌, ◌*◌, ◌≡◌, refl, ◌≢◌, ◌↔◌, inl, ◌||◌, true, false, none, some, ℕ_discrete, ok, err, arith,
}
use misw4501_202614_grupo.Base.Int.{pos, wrap64, ◌-ℤ◌, ◌+ℤ◌, ◌*ℤ◌, ◌≤ℤ◌}
use misw4501_202614_grupo.Base.Text.{lit, str_eq, is_empty, is_space, trim_space}
use misw4501_202614_grupo.Base.Dict.{lookup, insert}
use misw4501_202614_grupo.Base.Clock.{Time, second}
use misw4501_202614_grupo.Resilience.{next, backoff, backoff_loop}
use misw4501_202614_grupo.Idempotency.{classify, wraps_rejected, wraps_not_sent}
use misw4501_202614_grupo.Idempotency.Runner.{process, record_result, finish, retry}
use misw4501_202614_grupo.Claims.Case.{
  Status, decidable, triageable, triageable_statuses, Status-discrete, payment_exception,
}
use misw4501_202614_grupo.Claims.Decision.{
  Decision, Payout, Outcome, amount_out_of_range, amount_exceeds_insured_value, nothing_to_pay,
  no_payout_account, deductible_of, approve, payout_key, status_of, payout_status, attempt_state,
}
use misw4501_202614_grupo.Claims.Decision.Store.{
  DecisionStore, StoreError, claim_not_found, due, claim, capped_reschedule, reschedule, held,
  decide, with_payout, store_and_move, set_status, write,
}
use misw4501_202614_grupo.Claims.Decision.Entries.{PayoutAt, claim_status}
use misw4501_202614_grupo.Claims.Decision.World.{file}
use misw4501_202614_grupo.Claims.Decision.Amounts.{
  IsSound, share, PaysOut, approve-PaysOut, approve-err_iff,
}
use misw4501_202614_grupo.Claims.Decision.Payouts.{started, payout_at}
use misw4501_202614_grupo.Claims.Decision.Turns.{turn, settled, turn-settles, gives_up_after_three}
use misw4501_202614_grupo.Claims.Decision.Once.{IsOpen, Decided, decide_lem, decide_twice}
use misw4501_202614_grupo.Claims.Decision.Worker.{default_retry}
use misw4501_202614_grupo.Claims.Decision.Samples.{
  lease, collision_claim, collision_coverage, ana, pending_payout, approval, reference, timeout,
}

approves :
    approve collision_claim collision_coverage ana (pos 2_000_000) (lit "luis") 0 ≡ ok approval
unfolding approve deductible_of payout_key trim_space is_space ◌-ℤ◌ ◌+ℤ◌ ◌*ℤ◌ wrap64
approves = refl

-- The claim is filed.
abbrev filed : DecisionStore
filed = file collision_claim (started 0).store

-- It is approved.
abbrev approved_store : DecisionStore
approved_store = (decide approval filed).0

decides : (decide approval filed).1 ≡ ok approval
unfolding decide file insert lookup str_eq decidable Status-discrete
decides = refl

decide_twice_example :
    (decide (record approval { outcome = Outcome.rejected; payout = none }) approved_store).0
    ≡ approved_store
decide_twice_example =
    decide_twice approval (record approval { outcome = Outcome.rejected; payout = none }) filed
      decides refl

finds : PayoutAt (lit "7") approved_store approval pending_payout
unfolding decide lookup file insert str_eq decidable Status-discrete store_and_move
finds = (refl, refl)

turn-settles_example :
    let after = turn default_retry lease (lit "7") reference 0 1 approved_store in
    let paid =
      settled default_retry lease (lit "7") reference 0 1 approved_store approval pending_payout in
    PayoutAt (lit "7") after (with_payout approval paid) paid
    × (claim_status (lit "7") after ≡ some (status_of (with_payout approval paid)))
unfolding due
turn-settles_example =
    turn-settles default_retry lease (lit "7") reference 0 1 approved_store approval pending_payout
      finds refl refl

-- The attempts run at 0, 5 and 10 seconds.
abbrev once_failed : DecisionStore
once_failed = turn default_retry lease (lit "7") timeout 0 1 approved_store

abbrev twice_failed : DecisionStore
twice_failed = turn default_retry lease (lit "7") timeout (5 * second) (5 * second) once_failed

is_due_again : due (payout_at (lit "7") once_failed) (5 * second) ≡ true
unfolding turn process lookup claim decide file insert str_eq decidable triageable
    triageable_statuses Status-discrete ℕ_discrete store_and_move set_status write due payout_status
    status_of record_result finish retry classify wraps_rejected wraps_not_sent capped_reschedule
    reschedule held attempt_state next backoff backoff_loop ◌*ℤ◌ wrap64
is_due_again = refl

is_due_once_more : due (payout_at (lit "7") twice_failed) (10 * second) ≡ true
unfolding turn process lookup claim decide file insert str_eq decidable triageable
    triageable_statuses Status-discrete ℕ_discrete store_and_move set_status write due payout_status
    status_of record_result finish retry classify wraps_rejected wraps_not_sent capped_reschedule
    reschedule held attempt_state next backoff backoff_loop ◌*ℤ◌ wrap64
is_due_once_more = refl

gives_up_after_three_example :
    let s3 = turn default_retry lease (lit "7") timeout (10 * second) (10 * second) twice_failed in
    (claim_status (lit "7") once_failed ≡ some Status.approved)
    × (claim_status (lit "7") twice_failed ≡ some Status.approved)
    × (claim_status (lit "7") s3 ≡ some payment_exception)
    × ((time : Time) → due (payout_at (lit "7") s3) time ≡ false)
unfolding classify wraps_rejected wraps_not_sent due lookup decide file insert str_eq decidable
    Status-discrete store_and_move
gives_up_after_three_example =
    gives_up_after_three default_retry lease (lit "7") timeout timeout timeout 0 1 (5 * second)
      (5 * second) (10 * second) (10 * second) approved_store approval pending_payout finds refl
      refl refl (inl refl) (inl refl) (inl refl) refl is_due_again is_due_once_more

decide_lem_example :
    ((e : Decision)
      → (decide approval filed).1 ≡ ok e
      → IsOpen (lit "7") filed
        × (e.claim_id ≡ lit "7")
        × (e.outcome ≡ Outcome.approved)
        × (e.payout ≡ some pending_payout)
        × Decided e filed (decide approval filed).0
        × ((decide approval filed).0 ≡ store_and_move (lit "7") e filed))
    × (IsOpen (lit "7") filed → (x : StoreError) → (decide approval filed).1 ≢ err x)
    × (((decide approval filed).1 ≡ err claim_not_found) ↔ (claim_status (lit "7") filed ≡ none))
    × (¬ IsOpen (lit "7") filed → (decide approval filed).0 ≡ filed)
decide_lem_example = decide_lem approval filed

sound : IsSound collision_coverage 5_000_000 1000
sound = record {
  insured_eq = refl;
  share_eq = refl;
  share_le = omega arith;
  product_fits = omega arith;
  insured_fits = omega arith;
}

approve-PaysOut_example :
    (g : ℕ) × (p : Payout) × (pos 2_000_000 ≡ pos g)
    × PaysOut collision_claim ana 5_000_000 1000 g approval p
approve-PaysOut_example =
    approve-PaysOut collision_claim collision_coverage ana 5_000_000 1000 (pos 2_000_000)
      (lit "luis") 0 sound approves

approve-err_iff_example :
    let result = approve collision_claim collision_coverage ana (pos 6_000_000) (lit "luis") 0 in
    ((result ≡ err amount_out_of_range) ↔ (pos 6_000_000 ≤ℤ pos 0))
    × ((result ≡ err amount_exceeds_insured_value) ↔ ¬ (pos 6_000_000 ≤ℤ pos 5_000_000))
    × ((result ≡ err nothing_to_pay) ↔ (
        (pos 1 ≤ℤ pos 6_000_000)
        × (pos 6_000_000 ≤ℤ pos 5_000_000)
        × (pos (share 6_000_000 1000) ≡ pos 6_000_000)))
    × ((result ≡ err no_payout_account) ↔ (
        (pos (share 6_000_000 1000 + 1) ≤ℤ pos 6_000_000)
        × (pos 6_000_000 ≤ℤ pos 5_000_000)
        × ((is_empty (trim_space (lit "007")) || is_empty (trim_space (lit "42"))) ≡ true)))
approve-err_iff_example =
    approve-err_iff collision_claim collision_coverage ana 5_000_000 1000 (pos 6_000_000)
      (lit "luis") 0 sound
