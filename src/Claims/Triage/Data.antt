-- ===== src/Claims/Triage/Data.antt =====
-- The level of a claim, its input and its calculations, services/claims/internal/domain/triage.go.
use misw4501_202614_grupo.Base.{
  ℕ, ◌+◌, Bool, true, false, not, ◌||◌, Option, none, some, List, [], ◌∷◌, ◌++◌, same, ℕ_discrete,
  if◌then◌else◌,
}
use misw4501_202614_grupo.Base.Int.{ℤ}
use misw4501_202614_grupo.Base.Text.{Str, lit, str_eq}
use misw4501_202614_grupo.Base.Clock.{Time}
use misw4501_202614_grupo.Claims.Catalog.{
  IncidentType, IncidentType-discrete, PolicyLine, PolicyLine-discrete,
}
use misw4501_202614_grupo.Claims.Case.{Status, triageable}

pub data Severity : Type 0 where
  high medium low : Severity

pub data AmountBand : Type 0 where
  high medium low unknown : AmountBand

pub data PriorityLevel : Type 0 where
  triage1 triage2 triage3 : PriorityLevel

unfoldable pub PriorityLevel-discrete : Discrete PriorityLevel
PriorityLevel-discrete = hlevel

unfoldable pub level_of : Severity → AmountBand → PriorityLevel
level_of Severity.high _ = triage1
level_of _ AmountBand.high = triage1
level_of Severity.low AmountBand.low = triage3
level_of _ _ = triage2

pub data TriageCause : Type 0 where
  entered_evaluation estimated_amount_changed incident_type_changed coverage_changed : TriageCause
  provider_report_received policy_updated : TriageCause

pub record TriageInput : Type 0 where
  pub incident_type : IncidentType
  pub line : PolicyLine
  pub coverage : Str
  pub estimated_amount_minor : Option ℤ
  pub policy_version : Str

unfoldable pub ℤ-discrete : Discrete ℤ
unfolding ℕ_discrete
ℤ-discrete = hlevel ℕ_discrete

unfoldable pub same_amount : Option ℤ → Option ℤ → Bool
same_amount none none = true
same_amount none (some _) = false
same_amount (some _) none = false
same_amount (some a) (some b) = same ℤ-discrete a b

abbrev cause_if : Bool → TriageCause → List TriageCause
cause_if c cause = if c then cause ∷ [] else []

-- `in.Diff(previous)`.
unfoldable pub diff : TriageInput → TriageInput → List TriageCause
unfolding same_amount
diff input previous =
    cause_if (not (same_amount input.estimated_amount_minor previous.estimated_amount_minor))
      estimated_amount_changed
    ++ (cause_if (not (same IncidentType-discrete input.incident_type previous.incident_type))
          incident_type_changed
        ++ (cause_if
              (not (str_eq input.coverage previous.coverage)
                || not (same PolicyLine-discrete input.line previous.line))
              coverage_changed
            ++ cause_if (not (str_eq input.policy_version previous.policy_version)) policy_updated))

pub data TargetKind : Type 0 where
  immediate business_days no_kind : TargetKind

pub record TriageTarget : Type 0 where
  pub kind : TargetKind
  pub days : ℕ
  pub resolution_business_days : ℕ

pub record TriageAssessment : Type 0 where
  pub level : PriorityLevel
  pub severity : Severity
  pub amount_band : AmountBand
  pub input : TriageInput
  pub target : TriageTarget

-- Every level is calculated by the same actor, `system`.
pub record TriageRecord : Type 0 where
  pub claim_id : Str
  pub seq : ℕ
  pub assessment : TriageAssessment
  pub causes : List TriageCause
  pub previous_level : Option PriorityLevel
  pub actor : Str
  pub assessed_at : Time

-- `none` is an input that did not change: there is nothing to record.
unfoldable pub next_triage :
    Str → TriageAssessment → Option TriageRecord → Time → Option TriageRecord
next_triage claim_id a none at = some (record {
  claim_id = claim_id;
  seq = 1;
  assessment = a;
  causes = entered_evaluation ∷ [];
  previous_level = none;
  actor = lit "system";
  assessed_at = at;
})
next_triage claim_id a (some last) at = elim (diff a.input last.assessment.input) [
  | [] ↦ none
  | cause ∷ causes ↦ some (record {
    claim_id = claim_id;
    seq = last.seq + 1;
    assessment = a;
    causes = cause ∷ causes;
    previous_level = some last.assessment.level;
    actor = lit "system";
    assessed_at = at;
  })
]

pub data TriageState : Type 0 where
  pending assessed not_applicable not_found : TriageState

unfoldable pub triage_state_of : Status → Option TriageRecord → TriageState
unfolding triageable
triage_state_of status (some _) = assessed
triage_state_of status none = if triageable status then pending else not_applicable
