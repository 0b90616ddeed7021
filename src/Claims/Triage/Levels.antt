-- ===== src/Claims/Triage/Levels.antt =====
-- What decides the level of a claim.
use misw4501_202614_grupo.Base.{
  ℕ, ◌<◌, ◌≤◌, ◌≡◌, ◌≢◌, ◌⊎◌, ◌↔◌, Option, Option-cases, inl, inr, true, none, some, arith,
}
use misw4501_202614_grupo.Base.Int.{ℤ, ◌≤ℤ◌}
use misw4501_202614_grupo.Claims.Catalog.{
  catalog_v1, catalog_for, incident, IncidentType-discrete, PolicyLine-discrete, IncidentType,
  collision, theft, third_party_damage, other, glass, water_damage, unlisted,
}
use misw4501_202614_grupo.Base.Text.{Str}
use misw4501_202614_grupo.Claims.Case.{ClaimRecord}
use misw4501_202614_grupo.Claims.Triage.{
  Severity, PriorityLevel, triage1, triage2, triage3, TriageInput, TriagePolicy, severity_of,
  assess, input_of, triage_policy_v1, target_of, PriorityLevel-discrete, line_for,
}

-- The place of a level: 1 is attended first.
abbrev pub rank : PriorityLevel → ℕ
rank triage1 = 1
rank triage2 = 2
rank triage3 = 3

-- An estimated amount above the high threshold and not below the low one, and one below the low one.
abbrev pub IsAbove : TriagePolicy → Option ℤ → Type 0
IsAbove p none = ⊥
IsAbove p (some amount) = (p.low_below_minor ≤ℤ amount) × ¬ (amount ≤ℤ p.high_above_minor)

abbrev pub IsBelow : TriagePolicy → Option ℤ → Type 0
IsBelow p none = ⊥
IsBelow p (some amount) = ¬ (p.low_below_minor ≤ℤ amount)

-- Under any policy, a claim is at level 1 exactly if its severity is high or it has an estimated amount
-- above the high threshold and not below the low one; at level 3 exactly if its severity is low and
-- it has an estimated amount below the low threshold; and at level 2 exactly if neither is so.
pub assess-level_iff :
    (p : TriagePolicy) (input : TriageInput)
    → let severity = (severity_of p input.line input.incident_type).0 in
      let level = (assess p input).0.level in
      let amount = input.estimated_amount_minor in
      ((level ≡ triage1) ↔ ((severity ≡ Severity.high) ⊎ IsAbove p amount))
      × ((level ≡ triage3) ↔ ((severity ≡ Severity.low) × IsBelow p amount))
      × ((level ≡ triage2) ↔ (
          (severity ≢ Severity.high)
          × (¬ IsAbove p amount)
          × (¬ ((severity ≡ Severity.low) × IsBelow p amount))))
unfolding assess
assess-level_iff p input = elim (Option-cases input.estimated_amount_minor) [
  | inl e ↦ ground arith
  | inr (amount, e) ↦ ground arith
]

-- Without an estimated amount the level is 1 exactly if the severity is high, and never 3.
assess-level_unknown :
    (p : TriagePolicy) (input : TriageInput)
    → input.estimated_amount_minor ≡ none
    → let level = (assess p input).0.level in
      ((level ≡ triage1) ↔ ((severity_of p input.line input.incident_type).0 ≡ Severity.high))
      × (level ≢ triage3)
unfolding assess
assess-level_unknown p input e = ground arith

-- A larger estimated amount never makes a claim wait longer: its level is the same or an earlier one.
assess_mono :
    (p : TriagePolicy) (input : TriageInput) (a b : ℤ)
    → a ≤ℤ b
    → rank (assess p (record input { estimated_amount_minor = some b })).0.level
      ≤ rank (assess p (record input { estimated_amount_minor = some a })).0.level
unfolding assess
assess_mono p input a b h = ground arith

severity-v1_iff :
    (version : Str) (t : IncidentType)
    → ((severity_of triage_policy_v1 (line_for version t) t).1 ≡ true)
      ↔ (incident catalog_v1 t ≢ none)
unfolding severity_of triage_policy_v1 line_for catalog_for incident IncidentType-discrete
    PolicyLine-discrete
severity-v1_iff version collision = ground arith
severity-v1_iff version theft = ground arith
severity-v1_iff version third_party_damage = ground arith
severity-v1_iff version other = ground arith
severity-v1_iff version glass = ground arith
severity-v1_iff version water_damage = ground arith
severity-v1_iff version (unlisted s) = ground arith

target-v1_pos : (l : PriorityLevel) → 0 < (target_of triage_policy_v1 l).resolution_business_days
unfolding target_of triage_policy_v1 PriorityLevel-discrete
target-v1_pos triage1 = omega arith
target-v1_pos triage2 = omega arith
target-v1_pos triage3 = omega arith

-- Under triage-policy-v1 the severity table knows the claim type of a claim exactly if the catalog
-- lists it, and whatever the level the assessment has a time of resolution of at least a day.
assess-v1_iff :
    (c : ClaimRecord)
    → let (a, is_known) = assess triage_policy_v1 (input_of triage_policy_v1 c) in
      ((is_known ≡ true) ↔ (incident catalog_v1 c.incident_type ≢ none))
      × (0 < a.target.resolution_business_days)
unfolding assess input_of
assess-v1_iff c = (severity-v1_iff c.catalog_version c.incident_type, target-v1_pos _)
