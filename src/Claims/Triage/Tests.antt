-- ===== src/Claims/Triage/Tests.antt =====
-- A collision, estimated first without an amount and then with one.
use misw4501_202614_grupo.Base.{
  ◌≡◌, refl, ◌≢◌, ◌↔◌, ◌⊎◌, true, none, some, List, [], ◌∷◌, map, take,
}
use misw4501_202614_grupo.Base.Int.{pos}
use misw4501_202614_grupo.Base.Text.{lit}
use misw4501_202614_grupo.Claims.Catalog.{collision, auto}
use misw4501_202614_grupo.Claims.Case.{Status, ClaimRecord, zero_claim, triageable_statuses}
use misw4501_202614_grupo.Claims.Cases.{CaseStore, new_case_store}
use misw4501_202614_grupo.Claims.Triage.{
  Severity, triage1, triage2, triage3, TriageInput, TriageRecord, entered_evaluation, assess,
  input_of, next_triage, severity_of, triage_policy_v1,
}
use misw4501_202614_grupo.Claims.Triage.Levels.{IsAbove, IsBelow, assess-level_iff}
use misw4501_202614_grupo.Claims.Triage.Records.{IsUnchanged, Follows, next_triage_lem}
use misw4501_202614_grupo.Claims.Triage.Store.{
  new_triage_store, records_of, last_record, changed, pending,
}
use misw4501_202614_grupo.Claims.Triage.Histories.{ChainedFrom}
use misw4501_202614_grupo.Claims.Triage.Tasks.{
  Step, change_claims, read, assess_flight, run_steps, started, every_history_chained,
}
use misw4501_202614_grupo.Claims.Triage.Waiting.{
  IsFiledBefore, IsLast, Waits, stored_claims, changed_iff, pending-IsListing,
}
use misw4501_202614_grupo.Base.Sort.{IsListing}
use misw4501_202614_grupo.Base.Text.{Str}

abbrev collision_claim : ClaimRecord
collision_claim =
    let claim = zero_claim.claim in
    record zero_claim {
      claim = record claim {
        id = lit "7";
        incident_type = collision;
        status = Status.in_evaluation;
      };
    }

-- The same claim with an amount above the high threshold.
abbrev estimated_claim : ClaimRecord
estimated_claim =
    let claim = collision_claim.claim in
    record collision_claim {
      claim = record claim { estimated_amount_minor = some (pos 4_000_000_000) };
    }

abbrev filed : CaseStore
filed = record new_case_store { by_id = (lit "7", collision_claim) ∷ [] }

abbrev estimated : CaseStore
estimated = record new_case_store { by_id = (lit "7", estimated_claim) ∷ [] }

-- Two tasks read the claim before either records, and then the amount is declared.
abbrev steps : List Step
steps =
    read (lit "7")
    ∷ read (lit "7")
    ∷ assess_flight 0 triage_policy_v1 5_000
    ∷ assess_flight 0 triage_policy_v1 6_000
    ∷ change_claims estimated
    ∷ read (lit "7")
    ∷ assess_flight 0 triage_policy_v1 9_000
    ∷ []

every_history_chained_example :
    ChainedFrom none (records_of (lit "7") (run_steps (started filed) steps).store)
every_history_chained_example = every_history_chained filed steps (lit "7")

abbrev input : TriageInput
input = record {
  incident_type = collision;
  line = auto;
  coverage = lit "collision";
  estimated_amount_minor = some (pos 4_000_000_000);
  policy_version = lit "triage-policy-v1";
}

assess-level_iff_example :
    let severity = (severity_of triage_policy_v1 auto collision).0 in
    let level = (assess triage_policy_v1 input).0.level in
    let amount = some (pos 4_000_000_000) in
    ((level ≡ triage1) ↔ ((severity ≡ Severity.high) ⊎ IsAbove triage_policy_v1 amount))
    × ((level ≡ triage3) ↔ ((severity ≡ Severity.low) × IsBelow triage_policy_v1 amount))
    × ((level ≡ triage2) ↔ (
        (severity ≢ Severity.high)
        × (¬ IsAbove triage_policy_v1 amount)
        × (¬ ((severity ≡ Severity.low) × IsBelow triage_policy_v1 amount))))
assess-level_iff_example = assess-level_iff triage_policy_v1 input

abbrev first : TriageRecord
first = record {
  claim_id = lit "7";
  seq = 1;
  assessment = (assess triage_policy_v1 (input_of triage_policy_v1 collision_claim)).0;
  causes = entered_evaluation ∷ [];
  previous_level = none;
  actor = lit "system";
  assessed_at = 5_000;
}

next_triage_lem_example :
    let a = (assess triage_policy_v1 (input_of triage_policy_v1 estimated_claim)).0 in
    ((next_triage (lit "7") a (some first) 9_000 ≡ none) ↔ IsUnchanged a (some first))
    × ((r : TriageRecord)
        → next_triage (lit "7") a (some first) 9_000 ≡ some r
        → (r.claim_id ≡ lit "7") × (r.assessment ≡ a) × Follows (some first) r)
next_triage_lem_example =
    next_triage_lem (lit "7")
      (assess triage_policy_v1 (input_of triage_policy_v1 estimated_claim)).0 (some first) 9_000

changed_iff_example :
    (changed estimated_claim first triage_policy_v1.version ≡ true)
    ↔ (input_of triage_policy_v1 estimated_claim ≢ first.assessment.input)
unfolding assess input_of
changed_iff_example =
    changed_iff triage_policy_v1 triage_policy_v1 estimated_claim collision_claim first refl refl

pending-IsListing_example :
    let s = new_triage_store filed in
    let version = lit "triage-policy-v1" in
    (waiting : List ClaimRecord) × (left : List ClaimRecord) × (pending triageable_statuses version
        50 s
      ≡ take 50 (map (λ c. record { claim = c; last = last_record c.id s }) waiting))
    × (pending triageable_statuses version 0 s
        ≡ map (λ c. record { claim = c; last = last_record c.id s }) waiting)
    × ((claim_id : Str) → IsLast (last_record claim_id s) (records_of claim_id s))
    × IsListing IsFiledBefore
        (Waits triageable_statuses version s)
        (stored_claims s.cases.by_id)
        waiting
        left
pending-IsListing_example =
    pending-IsListing triageable_statuses (lit "triage-policy-v1") 49 (new_triage_store filed)
