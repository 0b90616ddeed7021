-- ===== src/Claims/Triage/Service.antt =====
-- The service of the triage, services/claims/internal/triage/service.go. A recalculation reads its
-- claim and its last calculation first and records the next one later, so the two are separate here.
use misw4501_202614_grupo.Base.{
  ℕ, ◌+◌, ◌-◌, ◌%◌, not, Option, none, some, List, [], ◌∷◌, Result, ok, err, if◌then◌else◌,
}
use misw4501_202614_grupo.Base.Text.{Str}
use misw4501_202614_grupo.Base.Dict.{Dict, lookup}
use misw4501_202614_grupo.Base.Clock.{Time}
use misw4501_202614_grupo.Security.{Identity, SecurityError, operations, require_owner_or_role}
use misw4501_202614_grupo.Claims.Case.{triageable, triageable_statuses}
use misw4501_202614_grupo.Claims.Triage.{
  TriageRecord, TriageState, not_found, TriagePolicy, input_of, assess, next_triage,
  triage_state_of,
}
use misw4501_202614_grupo.Claims.Triage.Store.{
  TriageStore, TriageCandidate, TriageError, add_record, pending, candidate, history, current,
}

-- `Truncate(time.Microsecond)`.
abbrev pub to_microsecond : Time → Time
to_microsecond t = t - t % 1000

abbrev kept : TriageRecord → TriageStore × Option TriageError → TriageStore × Option TriageRecord
kept r (s, none) = (s, some r)
kept r (s, some _) = (s, none)

-- What the assessment of a claim would record.
unfoldable pub next_record : TriagePolicy → TriageCandidate → Time → Option TriageRecord
unfolding triageable input_of assess next_triage
next_record policy c now =
    if not (triageable c.claim.status)
    then none
    else next_triage c.claim.id (assess policy (input_of policy c.claim)).0 c.last
        (to_microsecond now)

-- `Service.Assess`: the calculation that was recorded, if one was. A conflict records nothing.
unfoldable pub assess_claim :
    TriagePolicy → TriageCandidate → Time → TriageStore → TriageStore × Option TriageRecord
unfolding next_record add_record
assess_claim policy c now s = elim (next_record policy c now) [
  | none ↦ (s, none)
  | some r ↦ kept r (add_record r s)
]

-- The loop of `Sweep`; `clock` gives its readings of the clock in order.
assess_all : TriagePolicy → (ℕ → Time) → ℕ → List TriageCandidate → TriageStore → TriageStore × ℕ
unfolding assess_claim
assess_all policy clock i [] s = (s, 0)
assess_all policy clock i (c ∷ cs) s =
    let (after, r) = assess_claim policy c (clock i) s in
    let (last, n) = assess_all policy clock (i + 1) cs after in
    (last, elim r [ none ↦ n | some _ ↦ n + 1 ])

unfoldable pub sweep : TriagePolicy → (ℕ → Time) → ℕ → TriageStore → TriageStore × ℕ
unfolding assess_all pending
sweep policy clock limit s =
    assess_all policy clock 0 (pending triageable_statuses policy.version limit s) s

pub record View : Type 0 where
  pub claim_id : Str
  pub state : TriageState
  pub current : Option TriageRecord
  pub history : List TriageRecord

pub data ViewError : Type 0 where
  store_error : TriageError → ViewError
  security_error : SecurityError → ViewError

abbrev first : List TriageRecord → Option TriageRecord
first [] = none
first (r ∷ _) = some r

-- `Service.View`, for the caller of the request.
unfoldable pub view : Option Identity → Str → TriageStore → Result ViewError View
unfolding candidate history
view caller claim_id s = elim (candidate claim_id s) [
  | err e ↦ err (store_error e)
  | ok c ↦ elim (require_owner_or_role caller c.claim.subject (operations ∷ [])) [
    | some e ↦ err (security_error e)
    | none ↦ ok (record {
      claim_id = claim_id;
      state = triage_state_of c.claim.status c.last;
      current = first (history claim_id s);
      history = history claim_id s;
    })
  ]
]

pub record Summary : Type 0 where
  pub claim_id : Str
  pub state : TriageState
  pub current : Option TriageRecord

summaries_in : Dict TriageCandidate → List Str → List Summary
summaries_in found [] = []
summaries_in found (id ∷ ids) =
    elim (lookup id found) [
      | none ↦ record { claim_id = id; state = not_found; current = none }
      | some c ↦ record {
        claim_id = id;
        state = triage_state_of c.claim.status c.last;
        current = c.last;
      }
    ]
    ∷ summaries_in found ids

unfoldable pub summaries : List Str → TriageStore → List Summary
unfolding summaries_in current
summaries ids s = summaries_in (current ids s) ids
