-- ===== src/Claims/Decision/Entries.antt =====
-- What each operation of the store does to the decision and the claim under one id.
use misw4501_202614_grupo.Base.{
  ◌+◌, ◌≡◌, refl, ◌⊎◌, inl, inr, Bool, false, Option, none, some, arith, if◌then◌else◌, ◌==◌, ◌&&◌,
  Bool-cases, Option-cases, ltb,
}
use misw4501_202614_grupo.Base.Text.{Str, str_eq}
use misw4501_202614_grupo.Base.Dict.{lookup, lookup-insert}
use misw4501_202614_grupo.Base.Clock.{Time, add_time}
use misw4501_202614_grupo.Resilience.{RetryPolicy, backoff}
use misw4501_202614_grupo.Base.Int.{pos}
use misw4501_202614_grupo.Idempotency.{FailureReason, confirmed, rejected, classify}
use misw4501_202614_grupo.Idempotency.Runner.{Answer, record_result, error_text}
use misw4501_202614_grupo.Claims.Case.{Status, ClaimRecord}
use misw4501_202614_grupo.Claims.Decision.{Payout, Decision, status_of, attempt_state}
use misw4501_202614_grupo.Claims.Decision.Store.{
  DecisionStore, write, store_and_move, with_payout, is_in_progress, claimed_until_of, capped,
  confirmed_payout, rescheduled_payout, failed_payout, confirm, capped_reschedule,
}

abbrev status_in : Option ClaimRecord → Option Status
status_in none = none
status_in (some c) = some c.status

-- The status of the claim under an id.
unfoldable pub claim_status : Str → DecisionStore → Option Status
claim_status id s = status_in (lookup id s.cases.by_id)

pub write-decisions :
    (id j : Str) (d : Decision) (s : DecisionStore)
    → lookup j (write id d s).decisions ≡ (if str_eq id j then some d else lookup j s.decisions)
unfolding write
write-decisions id j d s = lookup-insert id j d s.decisions

pub write-claim_status :
    (id j : Str) (d : Decision) (s : DecisionStore)
    → claim_status j (write id d s) ≡ claim_status j s
unfolding write claim_status
write-claim_status id j d s = refl

pub store_and_move-decisions :
    (id j : Str) (d : Decision) (s : DecisionStore)
    → lookup j (store_and_move id d s).decisions
      ≡ (if str_eq id j then some d else lookup j s.decisions)
unfolding store_and_move
store_and_move-decisions id j d s = lookup-insert id j d s.decisions

pub store_and_move-claim_status :
    (id j : Str) (d : Decision) (s : DecisionStore)
    → claim_status j (store_and_move id d s)
      ≡ (if str_eq id j then some (status_of d) else claim_status j s)
unfolding store_and_move claim_status
store_and_move-claim_status id j d s =
    rw lookup-insert (elim (Bool-cases (str_eq id j)) [ inl e ↦ rw e refl | inr e ↦ rw e refl ])

-- The payout under an id, with its decision.
abbrev pub PayoutAt : Str → DecisionStore → Decision → Payout → Type 0
PayoutAt id s d p = (lookup id s.decisions ≡ some d) × (d.payout ≡ some p)

abbrev pub NoPayout : Str → DecisionStore → Type 0
NoPayout id s =
    (lookup id s.decisions ≡ none)
    ⊎ ((d : Decision) × (lookup id s.decisions ≡ some d) × (d.payout ≡ none))

pub payout_cases :
    (id : Str) (s : DecisionStore)
    → NoPayout id s ⊎ ((d : Decision) × (p : Payout) × PayoutAt id s d p)
payout_cases id s = elim (Option-cases (lookup id s.decisions)) [
  | inl e ↦ inl (inl e)
  | inr (d, e) ↦ elim (Option-cases (d.payout)) [
    | inl f ↦ inl (inr (d, e, f))
    | inr (p, f) ↦ inr (d, p, (e, f))
  ]
]

abbrev pub is_held : Payout → Option Payout → Bool
is_held p claimed = is_in_progress p.status && p.claimed_until == claimed_until_of claimed

-- What a worker that still holds its claim makes of the payout: confirmed, rejected, or the failure
-- counted, which below the cap leaves it pending again and at the cap makes it a payment exception.
unfoldable pub settled_payout : RetryPolicy → Answer → Time → Payout → Payout
settled_payout policy answer now p = elim (classify answer.error) [
  | confirmed ↦ confirmed_payout now answer.outcome p
  | rejected ↦ failed_payout now FailureReason.rejected (error_text answer.error) p
  | _ ↦
      if ltb (p.attempts + 1) 3
      then rescheduled_payout now (add_time now (backoff policy (pos (p.attempts + 1))))
          (error_text answer.error) p
      else failed_payout now FailureReason.retry_window_expired (error_text answer.error) p
]

-- The record of a result, of a worker whose copy of the payout is the one in the store or is no
-- longer held: it settles the payout under the claim's id, and changes nothing where the claim was
-- lost.
pub record_result-eq :
    (policy : RetryPolicy) (rec : Decision) (answer : Answer) (now : Time) (s : DecisionStore)
    (d : Decision) (p : Payout)
    → lookup rec.claim_id s.decisions ≡ some d
    → d.payout ≡ some p
    → (rec.payout ≡ some p) ⊎ (is_held p rec.payout ≡ false)
    → (record_result capped attempt_state policy rec answer now s).0 ≡ (
        if is_held p rec.payout
        then store_and_move rec.claim_id (with_payout d (settled_payout policy answer now p)) s
        else s)
unfolding record_result confirm capped_reschedule attempt_state settled_payout
record_result-eq policy rec answer now s d p found paying h = ground arith
