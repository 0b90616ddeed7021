-- ===== src/Origination/Activation.antt =====
-- The activation of a coverage, services/origination/internal: the event of domain/contract.go, what
-- domain/charge.go builds it from, and the policy of domain/renewal.go that is read from it.
use misw4501_202614_grupo.Base.{
  leb, Bool, true, false, not, ◌&&◌, ◌||◌, Option, none, some, List, [], ◌∷◌, if◌then◌else◌,
}
use misw4501_202614_grupo.Base.Int.{ℤ, pos, leb_ℤ}
use misw4501_202614_grupo.Base.Text.{Str, is_empty, is_word, every, byte_len}
use misw4501_202614_grupo.Base.Clock.{Time, is_zero, is_after}
use misw4501_202614_grupo.Origination.Charge.{Applicant, CoveredRisk, Charge, confirmed_charge}

pub record CoverageActivated : Type 0 where
  pub event_id : Str
  pub policy_id : Str
  pub acceptance_id : Str
  pub customer_id : Str
  pub holder : Applicant
  pub premium : ℤ
  pub currency : Str
  pub insured_amount : ℤ
  pub coverages : List CoveredRisk
  pub activated_at : Time
  pub coverage_start : Time
  pub coverage_end : Time
  pub renewal_of : Str

pub data ActivationError : Type 0 where
  event_and_customer_required bad_policy_id holder_required : ActivationError
  premium_required period_required : ActivationError

unfoldable pub valid_policy_id : Str → Bool
unfolding every
valid_policy_id s = not (is_empty s) && leb (byte_len s) 128 && every is_word s

abbrev pub no_coverages : List CoveredRisk → Bool
no_coverages [] = true
no_coverages (_ ∷ _) = false

-- `none` is an event that a document can be made of.
unfoldable pub validate_event : CoverageActivated → Option ActivationError
unfolding valid_policy_id
validate_event e =
    if is_empty e.event_id || is_empty e.customer_id
    then some event_and_customer_required
    else if not (valid_policy_id e.policy_id)
    then some bad_policy_id
    else if is_empty e.holder.full_name || is_empty e.holder.email
    then some holder_required
    else if leb_ℤ e.premium (pos 0) || is_empty e.currency || no_coverages e.coverages
    then some premium_required
    else if is_zero e.activated_at || not (is_after e.coverage_end e.coverage_start)
    then some period_required
    else none

unfoldable pub activation_event : Charge → CoverageActivated
activation_event c = record {
  event_id = c.activation.event_id;
  policy_id = c.activation.policy_id;
  acceptance_id = c.acceptance_id;
  customer_id = c.customer_id;
  holder = c.holder;
  premium = c.amount_minor;
  currency = c.currency;
  insured_amount = c.terms.insured_amount;
  coverages = c.terms.coverages;
  activated_at = c.activation.activated_at;
  coverage_start = c.activation.coverage_start;
  coverage_end = c.activation.coverage_end;
  renewal_of = c.renewal_of;
}

unfoldable pub activation_published : Charge → Bool
activation_published c = not (is_zero c.publication.published_at)

unfoldable pub validate_activation : (Time → ℤ → Time) → Time → Charge → Option ActivationError
unfolding activation_event confirmed_charge validate_event
validate_activation add_months at c =
    validate_event (activation_event (confirmed_charge add_months at [] c))

-- An active policy, as the portal shows it.
pub record Policy : Type 0 where
  pub id : Str
  pub acceptance_id : Str
  pub customer_id : Str
  pub holder : Applicant
  pub premium : ℤ
  pub currency : Str
  pub insured_amount : ℤ
  pub coverages : List CoveredRisk
  pub coverage_start : Time
  pub coverage_end : Time
  pub renewal_of : Str

unfoldable pub policy_from : CoverageActivated → Policy
policy_from e = record {
  id = e.policy_id;
  acceptance_id = e.acceptance_id;
  customer_id = e.customer_id;
  holder = e.holder;
  premium = e.premium;
  currency = e.currency;
  insured_amount = e.insured_amount;
  coverages = e.coverages;
  coverage_start = e.coverage_start;
  coverage_end = e.coverage_end;
  renewal_of = e.renewal_of;
}
