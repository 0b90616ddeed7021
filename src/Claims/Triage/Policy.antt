-- ===== src/Claims/Triage/Policy.antt =====
-- The policy of the triage, services/claims/internal/domain/triage_policy.go.
use misw4501_202614_grupo.Base.{
  ℕ, Bool, true, false, ◌&&◌, Option, none, some, List, [], ◌∷◌, same, if◌then◌else◌,
}
use misw4501_202614_grupo.Base.Int.{ℤ, pos, ltb_ℤ}
use misw4501_202614_grupo.Base.Text.{Str, lit}
use misw4501_202614_grupo.Claims.Catalog.{
  IncidentType, IncidentType-discrete, PolicyLine, PolicyLine-discrete, collision, theft,
  third_party_damage, other, glass, water_damage, auto, home, other_line, incident, catalog_for,
  incident_name,
}
use misw4501_202614_grupo.Claims.Case.{ClaimRecord}
use misw4501_202614_grupo.Claims.Triage.Data.{
  Severity, AmountBand, PriorityLevel, PriorityLevel-discrete, level_of, TriageInput, TargetKind,
  TriageTarget, TriageAssessment, triage1, triage2, triage3, immediate, business_days, no_kind,
}

pub record SeverityRule : Type 0 where
  pub line : PolicyLine
  pub incident : IncidentType
  pub severity : Severity

pub record LevelTarget : Type 0 where
  pub level : PriorityLevel
  pub target : TriageTarget

-- The thresholds are int64 numbers of cents.
pub record TriagePolicy : Type 0 where
  pub version : Str
  pub severity : List SeverityRule
  pub low_below_minor : ℤ
  pub high_above_minor : ℤ
  pub targets : List LevelTarget

abbrev rule : PolicyLine → IncidentType → Severity → SeverityRule
rule l i s = record { line = l; incident = i; severity = s }

abbrev level_target : PriorityLevel → TargetKind → ℕ → ℕ → LevelTarget
level_target l k days resolution = record {
  level = l;
  target = record { kind = k; days = days; resolution_business_days = resolution };
}

unfoldable pub triage_policy_v1 : TriagePolicy
triage_policy_v1 = record {
  version = lit "triage-policy-v1";
  severity =
      rule auto collision Severity.medium
      ∷ rule auto theft Severity.high
      ∷ rule auto third_party_damage Severity.high
      ∷ rule auto glass Severity.low
      ∷ rule auto other Severity.medium
      ∷ rule home water_damage Severity.medium
      ∷ [];
  low_below_minor = pos 500_000_000;
  high_above_minor = pos 3_000_000_000;
  targets =
      level_target triage1 immediate 0 2
      ∷ level_target triage2 business_days 5 5
      ∷ level_target triage3 business_days 10 10
      ∷ [];
}

-- The severity, and whether the table knows the claim type of the line.
find_severity : PolicyLine → IncidentType → List SeverityRule → Severity × Bool
find_severity line t [] = (Severity.medium, false)
find_severity line t (r ∷ rs) =
    if same PolicyLine-discrete r.line line && same IncidentType-discrete r.incident t
    then (r.severity, true)
    else find_severity line t rs

unfoldable pub severity_of : TriagePolicy → PolicyLine → IncidentType → Severity × Bool
unfolding find_severity
severity_of p line t = find_severity line t p.severity

unfoldable pub band_of : TriagePolicy → Option ℤ → AmountBand
band_of p none = AmountBand.unknown
band_of p (some amount) =
    if ltb_ℤ amount p.low_below_minor
    then AmountBand.low
    else if ltb_ℤ p.high_above_minor amount
    then AmountBand.high
    else AmountBand.medium

abbrev zero_target : TriageTarget
zero_target = record { kind = no_kind; days = 0; resolution_business_days = 0 }

find_target : PriorityLevel → List LevelTarget → TriageTarget
find_target l [] = zero_target
find_target l (t ∷ ts) =
    if same PriorityLevel-discrete t.level l then t.target else find_target l ts

unfoldable pub target_of : TriagePolicy → PriorityLevel → TriageTarget
unfolding find_target
target_of p l = find_target l p.targets

-- The line of the catalog, or the empty one.
unfoldable pub line_for : Str → IncidentType → PolicyLine
line_for catalog_version t = elim (incident (catalog_for catalog_version) t) [
  | none ↦ other_line []
  | some o ↦ o.line
]

unfoldable pub input_of : TriagePolicy → ClaimRecord → TriageInput
unfolding incident_name line_for
input_of p c = record {
  incident_type = c.incident_type;
  line = line_for c.catalog_version c.incident_type;
  coverage = incident_name c.incident_type;
  estimated_amount_minor = c.estimated_amount_minor;
  policy_version = p.version;
}

unfoldable pub assess : TriagePolicy → TriageInput → TriageAssessment × Bool
unfolding severity_of band_of level_of target_of
assess p input =
    let (severity, is_known) = severity_of p input.line input.incident_type in
    let band = band_of p input.estimated_amount_minor in
    let level = level_of severity band in
    (
      record {
        level = level;
        severity = severity;
        amount_band = band;
        input = record input { policy_version = p.version };
        target = target_of p level;
      },
      is_known,
    )
