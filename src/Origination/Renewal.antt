-- ===== src/Origination/Renewal.antt =====
-- The renewal of one period of a policy, services/origination/internal/domain/renewal.go. The discount
-- of the renewal is in hundredths. The calendar is a parameter: a time some days later and the text of
-- a day.
pub mod Store
pub mod Service
pub mod Worker
pub mod Outcome
pub mod Rows
pub mod Periods
mod Tests
use misw4501_202614_grupo.Base.{
  ℕ, ◌+◌, ◌*◌, leb, ltb, Bool, true, false, not, ◌&&◌, ◌||◌, Option, none, some, ◌++◌,
  if◌then◌else◌,
}
use misw4501_202614_grupo.Base.Int.{ℤ, pos, negsuc, ◌-ℤ◌, leb_ℤ, ltb_ℤ}
use misw4501_202614_grupo.Base.Text.{Str, lit, is_empty}
use misw4501_202614_grupo.Base.Clock.{Time, Duration, is_zero, is_before, second}
use misw4501_202614_grupo.Origination.Charge.{
  CoverageTerms, Snapshot, Charge, charge_key_for, waiting_charge,
}
use misw4501_202614_grupo.Origination.Activation.{Policy}

pub record RenewalPolicy : Type 0 where
  pub window_days : ℤ
  pub term_months : ℤ
  pub retry_within : Duration
  pub grace_days : ℤ

abbrev pub default_renewal_policy : RenewalPolicy
default_renewal_policy = record {
  window_days = pos 30;
  term_months = pos 12;
  retry_within = pos (72 * 3600 * second);
  grace_days = pos 0;
}

pub data RulesError : Type 0 where
  bad_window bad_term bad_retry bad_grace : RulesError

unfoldable pub validate_rules : RenewalPolicy → Option RulesError
validate_rules p =
    if leb_ℤ p.window_days (pos 0) || ltb_ℤ (pos 365) p.window_days
    then some bad_window
    else if leb_ℤ p.term_months (pos 0) || ltb_ℤ (pos 600) p.term_months
    then some bad_term
    else if leb_ℤ p.retry_within (pos 0)
    then some bad_retry
    else if ltb_ℤ p.grace_days (pos 0) || ltb_ℤ (pos 90) p.grace_days
    then some bad_grace
    else none

module _ (add_days : Time → ℤ → Time) where
  unfoldable pub window_opens_at : RenewalPolicy → Policy → Time
  window_opens_at p policy = add_days policy.coverage_end (pos 0 -ℤ p.window_days)

  unfoldable pub in_window : RenewalPolicy → Policy → Time → Bool
  unfolding window_opens_at
  in_window p policy now =
      not (is_before now (window_opens_at p policy)) && is_before now policy.coverage_end

pub data RenewalStatus : Type 0 where
  accepted renewed not_renewed : RenewalStatus

pub data NotRenewedReason : Type 0 where
  no_response payment_failed : NotRenewedReason

pub record Renewal : Type 0 where
  pub id : Str
  pub policy_id : Str
  pub customer_id : Str
  pub period_end : Time
  pub status : RenewalStatus
  pub reason : Option NotRenewedReason
  pub terms : CoverageTerms
  pub premium : ℤ
  pub currency : Str
  pub discount_rate : ℕ
  pub requoted : Bool
  pub charge_id : Str
  pub new_policy_id : Str
  pub accepted_at : Time
  pub retry_until : Time
  pub closed_at : Time
  pub notified_at : Time
  pub notification_failed : Bool
  pub created_at : Time

unfoldable pub renewal_id : (Time → Str) → Str → Time → Str
renewal_id format_day policy_id period_end =
    lit "ren-" ++ policy_id ++ lit "-" ++ format_day period_end

unfoldable pub renewal_charge_id : Str → Str
renewal_charge_id renewal_id = renewal_id

-- `Renewal.Validate` refuses a renewal without a policy, a customer or a period.
unfoldable pub valid_renewal : Renewal → Bool
valid_renewal r = not (is_empty r.policy_id || is_empty r.customer_id || is_zero r.period_end)

unfoldable pub new_renewal_charge : (ℕ → Str) → Policy → Renewal → Time → Charge
unfolding charge_key_for
new_renewal_charge itoa p r now =
    waiting_charge
      (record {
        acceptance_id = r.charge_id;
        offer_id = r.id;
        customer_id = p.customer_id;
        channel = lit "renewal";
        accepted_at = r.accepted_at;
        offer_expires_at = 0;
        holder = p.holder;
        amount_minor = r.premium;
        currency = r.currency;
        terms = r.terms;
        renewal_of = p.id;
        coverage_not_before = p.coverage_end;
        created_at = now;
      })
      (charge_key_for itoa r.charge_id 1) r.accepted_at r.retry_until now
