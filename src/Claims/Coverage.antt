-- ===== src/Claims/Coverage.antt =====
-- The policy of a claim and what it covers, services/claims/internal/domain/policy.go and
-- evaluation.go.
pub mod Eligibility
mod Tests
use misw4501_202614_grupo.Base.{
  ℕ, Bool, true, false, not, ◌&&◌, Option, none, some, List, [], ◌∷◌, same, contains, if◌then◌else◌,
}
use misw4501_202614_grupo.Base.Int.{ℤ}
use misw4501_202614_grupo.Base.Text.{Str}
use misw4501_202614_grupo.Base.Clock.{Time, is_before}
use misw4501_202614_grupo.Claims.Catalog.{
  IncidentType, IncidentType-discrete, PolicyLine, PolicyLine-discrete, IncidentOption, Catalog,
  incident,
}

-- Only an active policy takes claims; any other status is simply not active.
pub data PolicyStatus : Type 0 where
  active : PolicyStatus
  not_active : Str → PolicyStatus

pub record Policy : Type 0 where
  pub id : Str
  pub line : PolicyLine
  pub product : Str
  pub insured_object : Str
  pub status : PolicyStatus
  pub valid_from : Time
  pub valid_to : Time
  pub covered_incidents : List IncidentType

pub data PolicyError : Type 0 where
  policy_not_active incident_not_covered occurred_outside_validity : PolicyError

abbrev pub is_active : PolicyStatus → Bool
is_active active = true
is_active (not_active _) = false

-- `Policy.Within`: the validity is [valid_from, valid_to).
unfoldable pub is_within : Policy → Time → Bool
is_within p at = not (is_before at p.valid_from) && is_before at p.valid_to

unfoldable pub active_at : Policy → Time → Bool
unfolding is_within
active_at p at = is_active p.status && is_within p at

unfoldable pub covers : Policy → Catalog → IncidentType → Bool
covers p catalog t = elim (incident catalog t) [
  | none ↦ false
  | some o ↦
      same PolicyLine-discrete o.line p.line && contains IncidentType-discrete t p.covered_incidents
]

-- `none` is a policy that takes the claim.
unfoldable pub eligible_for : Policy → Catalog → IncidentType → Time → Time → Option PolicyError
unfolding active_at is_within covers
eligible_for p catalog t occurred_at now =
    if not (active_at p now)
    then some policy_not_active
    else if not (covers p catalog t)
    then some incident_not_covered
    else if not (is_within p occurred_at)
    then some occurred_outside_validity
    else none

unfoldable pub keep_covered : Policy → Catalog → List IncidentOption → List IncidentOption
unfolding covers
keep_covered p catalog [] = []
keep_covered p catalog (o ∷ os) =
    let rest = keep_covered p catalog os in if covers p catalog o.type then o ∷ rest else rest

-- `Catalog.OptionsFor`.
unfoldable pub options_for : Catalog → Policy → List IncidentOption
unfolding keep_covered
options_for catalog p = keep_covered p catalog catalog.incidents

-- Amounts are int64 numbers of cents; the deductible is an int of basis points.
pub record Coverage : Type 0 where
  pub incident : IncidentType
  pub insured_value_minor : ℤ
  pub currency : Str
  pub deductible_basis_points : ℤ

pub record PolicyTerms : Type 0 where
  pub policy : Policy
  pub coverages : List Coverage

find_coverage : IncidentType → List Coverage → Option Coverage
find_coverage t [] = none
find_coverage t (c ∷ cs) =
    if same IncidentType-discrete c.incident t then some c else find_coverage t cs

unfoldable pub coverage_of : PolicyTerms → IncidentType → Option Coverage
unfolding find_coverage
coverage_of terms t = find_coverage t terms.coverages

pub record PayoutAccount : Type 0 where
  pub bank_code : Str
  pub bank_name : Str
  pub account_type : Str
  pub account_number : Str

pub record Holder : Type 0 where
  pub full_name : Str
  pub document_type : Str
  pub document_id : Str
  pub email : Str
  pub phone : Str
  pub payout_account : PayoutAccount
