-- ===== src/Origination/Renewal/Service.antt =====
-- The renewals of the portal, services/origination/internal/renewal/service.go. What the rating
-- engine makes of the renewal (`requote`) is a parameter. The charges and the renewals are in one database; a request reads the clock once.
use misw4501_202614_grupo.Base.{
  ℕ, ◌==◌, Bool, true, false, not, ◌&&◌, ◌||◌, Option, none, some, [], Result, ok, err,
  if◌then◌else◌,
}
use misw4501_202614_grupo.Base.Int.{ℤ}
use misw4501_202614_grupo.Base.Text.{Str, is_empty}
use misw4501_202614_grupo.Base.Clock.{Time, zero_time, is_before, add_time}
use misw4501_202614_grupo.Security.{Identity, SecurityError, require_owner_or_role}
use misw4501_202614_grupo.Origination.Charge.{Charge, CoverageTerms, PaymentMethod, captured}
use misw4501_202614_grupo.Origination.Charge.Store.{
  ChargeStore, ChargeError, charge_not_payable, get, create_pending, is_confirmed, is_failed,
  is_pending,
}
use misw4501_202614_grupo.Origination.Charge.Methods.{attach_payment_method}
use misw4501_202614_grupo.Origination.Activation.{Policy, ActivationError, validate_activation}
use misw4501_202614_grupo.Origination.Renewal.{
  RenewalPolicy, Renewal, accepted, not_renewed, renewed, payment_failed, in_window, renewal_id,
  renewal_charge_id, valid_renewal, new_renewal_charge,
}
use misw4501_202614_grupo.Origination.Renewal.Store.{
  Portfolio, RenewalError, is_accepted, is_not_renewed, create_renewal, get_renewal, mark_renewed,
  mark_not_renewed, get_policy,
}

pub data RequestError : Type 0 where
  renewal_error : RenewalError → RequestError
  denied : SecurityError → RequestError
  renewal_not_available renewal_closed invalid_renewal : RequestError
  cannot_activate : ActivationError → RequestError
  charge_error : ChargeError → RequestError

-- The renewed side of the conditions.
pub record Quote : Type 0 where
  pub terms : CoverageTerms
  pub premium : ℤ
  pub currency : Str
  pub discount_rate : ℕ
  pub requoted : Bool

pub record Accepted : Type 0 where
  pub renewal : Renewal
  pub charge : Charge
  pub created : Bool

unfoldable pub closed_error : Renewal → RequestError
closed_error r = if is_not_renewed r.status then renewal_not_available else renewal_closed

unfoldable pub owned_policy : Option Identity → Str → Portfolio → Result RequestError Policy
unfolding get_policy require_owner_or_role
owned_policy caller id p = elim (get_policy id p) [
  | err e ↦ err (renewal_error e)
  | ok policy ↦ elim (require_owner_or_role caller policy.customer_id []) [
    | some e ↦ err (denied e)
    | none ↦ ok policy
  ]
]

-- A payment that is not through at the deadline.
abbrev pub given_up : Time → Renewal → Charge → Bool
given_up now r c =
    not (is_before now r.retry_until)
    && (is_failed c.status || is_pending c.status && c.attempts == 0)

abbrev pub changed : Renewal → Renewal → Portfolio × Bool → Portfolio × Renewal
changed before after (p, true) = (p, after)
changed before after (p, false) = (p, before)

abbrev pub settled_renewed : Str → Time → Renewal → Renewal
settled_renewed policy_id now r = record r {
  status = renewed;
  new_policy_id = policy_id;
  closed_at = now;
}

abbrev pub settled_failed : Time → Renewal → Renewal
settled_failed now r = record r {
  status = not_renewed;
  reason = some payment_failed;
  closed_at = now;
}

-- The renewal with the outcome of its charge, if it has one.
unfoldable pub settle : Renewal → Time → Portfolio → Portfolio × Renewal
unfolding get mark_renewed mark_not_renewed
settle r now p =
    if not (is_accepted r.status) || is_empty r.charge_id
    then (p, r)
    else elim (get r.charge_id p.billing) [
      | err _ ↦ (p, r)
      | ok c ↦
          if is_confirmed c.status
          then changed r (settled_renewed c.activation.policy_id now r)
              (mark_renewed r.id c.activation.policy_id now p)
          else if given_up now r c
          then changed r (settled_failed now r) (mark_not_renewed r.id payment_failed now p)
          else (p, r)
    ]

-- The method that the policy was paid with, where there is one.
unfoldable pub paid_with : Policy → ChargeStore → Option PaymentMethod
unfolding get captured
paid_with policy s = elim (get policy.acceptance_id s) [
  | err _ ↦ none
  | ok c ↦ if captured c.payment_method.kind then some c.payment_method else none
]

-- `registeredMethod`: the method without its token.
unfoldable pub registered_method : Policy → ChargeStore → Option PaymentMethod
unfolding paid_with
registered_method policy s = elim (paid_with policy s) [
  | none ↦ none
  | some m ↦ some (record m { token = [] })
]

-- What became of an attached method: an error other than a refusal is one of the request.
abbrev pub with_attached :
    Charge → ChargeStore × Result ChargeError Charge → ChargeStore × Result RequestError Charge
with_attached stored (s, ok c) = (s, ok c)
with_attached stored (s, err charge_not_payable) = (s, ok stored)
with_attached stored (s, err e) = (s, err (charge_error e))

abbrev pub accepted_with :
    Portfolio
    → Renewal
    → Bool
    → ChargeStore × Result RequestError Charge
    → Portfolio × Result RequestError Accepted
accepted_with p r created (s, ok c) =
    (record p { billing = s }, ok (record { renewal = r; charge = c; created = created }))
accepted_with p r created (s, err e) = (record p { billing = s }, err e)

module _ (itoa : ℕ → Str) (add_months add_days : Time → ℤ → Time) (format_day : Time → Str)
    (rules : RenewalPolicy) where
  -- The charge that was created is charged with the method of the policy.
  unfoldable pub attach_registered :
      Policy → Renewal → Time → Charge → ChargeStore → ChargeStore × Result RequestError Charge
  unfolding paid_with attach_payment_method
  attach_registered policy r now stored s = elim (paid_with policy s) [
    | none ↦ (s, ok stored)
    | some m ↦ with_attached stored (attach_payment_method itoa r.charge_id m now s)
  ]

  abbrev pub charged :
      Policy
      → Renewal
      → Time
      → ChargeStore × Result ChargeError (Charge × Bool)
      → ChargeStore × Result RequestError Charge
  charged policy r now (s, err e) = (s, err (charge_error e))
  charged policy r now (s, ok (stored, false)) = (s, ok stored)
  charged policy r now (s, ok (stored, true)) = attach_registered policy r now stored s

  unfoldable pub finish :
      Policy → Renewal → Bool → Time → Portfolio → Portfolio × Result RequestError Accepted
  unfolding new_renewal_charge validate_activation create_pending attach_registered
  finish policy r created now p =
      let c = new_renewal_charge itoa policy r now in
      elim (validate_activation add_months now c) [
        | some e ↦ (p, err (cannot_activate e))
        | none ↦ accepted_with p r created (charged policy r now (create_pending c p.billing))
      ]

  abbrev pub accepted_renewal : Policy → Quote → Time → Renewal
  accepted_renewal policy q now =
      let id = renewal_id format_day policy.id policy.coverage_end in
      record {
        id = id;
        policy_id = policy.id;
        customer_id = policy.customer_id;
        period_end = policy.coverage_end;
        status = accepted;
        reason = none;
        terms = q.terms;
        premium = q.premium;
        currency = q.currency;
        discount_rate = q.discount_rate;
        requoted = q.requoted;
        charge_id = renewal_charge_id id;
        new_policy_id = [];
        accepted_at = now;
        retry_until = add_time now rules.retry_within;
        closed_at = zero_time;
        notified_at = zero_time;
        notification_failed = false;
        created_at = now;
      }

  -- The stored renewal, or why there is none to finish.
  abbrev pub finish_stored :
      Policy
      → Time
      → Portfolio × Result RenewalError (Renewal × Bool)
      → Portfolio × Result RequestError Accepted
  finish_stored policy now (p, err e) = (p, err (renewal_error e))
  finish_stored policy now (p, ok (stored, created)) =
      if not created && is_not_renewed stored.status
      then (p, err (closed_error stored))
      else finish policy stored created now p

  unfoldable pub accept_new :
      Policy → (Policy → Quote) → Time → Portfolio → Portfolio × Result RequestError Accepted
  unfolding in_window valid_renewal create_renewal finish
  accept_new policy requote now p =
      if not (in_window add_days rules policy now)
      then (p, err renewal_not_available)
      else let r = accepted_renewal policy (requote policy) now in
        if not (valid_renewal r)
        then (p, err invalid_renewal)
        else finish_stored policy now (create_renewal r p)

  -- `Service.Accept`.
  unfoldable pub accept :
      Option Identity
      → Str
      → (Policy → Quote)
      → Time
      → Portfolio
      → Portfolio × Result RequestError Accepted
  unfolding owned_policy get_renewal closed_error finish accept_new
  accept caller id requote now p = elim (owned_policy caller id p) [
    | err e ↦ (p, err e)
    | ok policy ↦ elim (get_renewal policy.id policy.coverage_end p) [
      | ok existing ↦
          if is_not_renewed existing.status
          then (p, err (closed_error existing))
          else finish policy existing false now p
      | err _ ↦ accept_new policy requote now p
    ]
  ]

  -- The charge of a renewal that has one.
  abbrev pub charge_of : Renewal → ChargeStore → Option Charge
  charge_of r s =
      if is_empty r.charge_id
      then none
      else elim (get r.charge_id s) [ err _ ↦ none | ok c ↦ some c ]

  -- `Service.Status`.
  unfoldable pub status :
      Option Identity
      → Str
      → Time
      → Portfolio
      → Portfolio × Result RequestError (Renewal × Option Charge)
  unfolding owned_policy get_renewal settle
  status caller id now p = elim (owned_policy caller id p) [
    | err e ↦ (p, err e)
    | ok policy ↦ elim (get_renewal policy.id policy.coverage_end p) [
      | err e ↦ (p, err (renewal_error e))
      | ok r ↦ let (p', r') = settle r now p in (p', ok (r', charge_of r' p'.billing))
    ]
  ]
