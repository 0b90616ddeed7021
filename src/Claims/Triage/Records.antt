-- ===== src/Claims/Triage/Records.antt =====
-- When a calculation is recorded, and how it follows the one before.
use misw4501_202614_grupo.Base.{◌+◌, ◌≡◌, ◌≢◌, ◌↔◌, true, Option, none, some, [], ◌∷◌, arith}
use misw4501_202614_grupo.Base.Int.{ℤ}
use misw4501_202614_grupo.Base.Text.{Str, str_eq_iff}
use misw4501_202614_grupo.Base.Clock.{Time}
use misw4501_202614_grupo.Claims.Triage.{
  TriageInput, TriageAssessment, TriageRecord, entered_evaluation, same_amount, diff, next_triage,
}

pub same_amount_iff : (a b : Option ℤ) → (same_amount a b ≡ true) ↔ (a ≡ b)
unfolding same_amount
same_amount_iff none none = ground arith
same_amount_iff none (some b) = ground arith
same_amount_iff (some a) none = ground arith
same_amount_iff (some a) (some b) = ground arith

-- No cause is listed exactly if the two inputs are equal.
pub diff-nil_iff : (a b : TriageInput) → (diff a b ≡ []) ↔ (a ≡ b)
unfolding diff
diff-nil_iff a b = ground (
  arith,
  same_amount_iff a.estimated_amount_minor b.estimated_amount_minor,
  str_eq_iff a.coverage b.coverage,
  str_eq_iff a.policy_version b.policy_version,
)

-- The record `r` is a right successor of the last calculation of its claim: the first is number 1,
-- and every other has the next number, an input that differs from the last one with the causes of
-- the difference, and the last level as its previous level.
abbrev pub Follows : Option TriageRecord → TriageRecord → Type 0
Follows none r = (r.seq ≡ 1) × (r.causes ≡ entered_evaluation ∷ []) × (r.previous_level ≡ none)
Follows (some last) r =
    (r.seq ≡ last.seq + 1)
    × (r.assessment.input ≢ last.assessment.input)
    × (r.causes ≡ diff r.assessment.input last.assessment.input)
    × (r.previous_level ≡ some last.assessment.level)

-- The claim has a last calculation, with the input of this one.
abbrev pub IsUnchanged : TriageAssessment → Option TriageRecord → Type 0
IsUnchanged a none = ⊥
IsUnchanged a (some last) = a.input ≡ last.assessment.input

-- A calculation is recorded exactly if the claim has none yet or its input is not that of the last
-- one; what is recorded is of that claim, holds the assessment and follows the last calculation.
pub next_triage_lem :
    (id : Str) (a : TriageAssessment) (last : Option TriageRecord) (at : Time)
    → ((next_triage id a last at ≡ none) ↔ IsUnchanged a last)
      × ((r : TriageRecord)
          → next_triage id a last at ≡ some r
          → (r.claim_id ≡ id) × (r.assessment ≡ a) × Follows last r)
unfolding next_triage
next_triage_lem id a none at = ground arith
next_triage_lem id a (some l) at = ground (arith, diff-nil_iff a.input l.assessment.input)
