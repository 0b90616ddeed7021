-- ===== src/Origination/Billing.antt =====
-- The billing of the premiums, services/origination/internal/billing: service.go, starter.go and
-- terms.go. A request reads and writes the store, and other requests may act between the two: `read`
-- is the store that a charge was read from. The worker that is woken and the logs are no state.
pub mod Worker
pub mod Accepts
mod Tests
use misw4501_202614_grupo.Base.{
  ◌==◌, leb, ltb, Bool, true, false, not, ◌&&◌, ◌||◌, Option, none, some, List, [], ◌∷◌, Result, ok,
  err, ◌>>=◌, length, if◌then◌else◌,
}
use misw4501_202614_grupo.Base.{ℕ}
use misw4501_202614_grupo.Base.Int.{ℤ, pos, ltb_ℤ, leb_ℤ}
use misw4501_202614_grupo.Base.Text.{
  Str, lit, is_empty, trim_space, byte_len, every, is_digit, is_word, has_prefix,
}
use misw4501_202614_grupo.Base.Clock.{Time, is_zero, is_before}
use misw4501_202614_grupo.Resilience.{RetryPolicy, window_end}
use misw4501_202614_grupo.Security.{
  Identity, SecurityError, insured, advisor, operations, require_any_role, require_owner_or_role,
}
use misw4501_202614_grupo.Origination.Charge.{
  CoveredRisk, CoverageTerms, Charge, PaymentMethod, card, pse, valid_payer_type, max_installments,
  max_resume_note_length, Acceptance, Offer, new_charge,
}
use misw4501_202614_grupo.Origination.Charge.Store.{
  ChargeStore, ChargeError, charge_not_payable, get, resume, create_pending,
}
use misw4501_202614_grupo.Origination.Charge.Methods.{attach_payment_method}
use misw4501_202614_grupo.Origination.Charge.Queue.{list_exceptions}
use misw4501_202614_grupo.Origination.Activation.{ActivationError, validate_activation}

abbrev pub max_exceptions_limit : ℕ
max_exceptions_limit = 200

pub data InvalidMethod : Type 0 where
  token_needed token_is_card_number bad_last4 : InvalidMethod
  bank_needed payer_type_needed unknown_method bad_installments : InvalidMethod

pub data BillingError : Type 0 where
  charge_error : ChargeError → BillingError
  denied : SecurityError → BillingError
  invalid_note invalid_limit : BillingError
  invalid_payment_method : InvalidMethod → BillingError

-- The result of the store, as the service passes it on.
abbrev pub from_store : {A : Type 0} → Result ChargeError A → Result BillingError A
from_store (ok a) = ok a
from_store (err e) = err (charge_error e)

abbrev pub unless :
    {A : Type 0} → Option SecurityError → Result BillingError A → Result BillingError A
unless none r = r
unless (some e) r = err (denied e)

-- `Service.Get`.
unfoldable pub get_charge : Option Identity → Str → ChargeStore → Result BillingError Charge
unfolding get require_owner_or_role
get_charge caller id s = from_store (get id s) >>= λ c.
    unless (require_owner_or_role caller c.customer_id (advisor ∷ operations ∷ [])) (ok c)

-- `Service.ListExceptions`.
unfoldable pub exceptions : Option Identity → ℕ → ChargeStore → Result BillingError (List Charge)
unfolding require_any_role list_exceptions
exceptions caller limit s = unless (require_any_role caller (operations ∷ [])) (
    if ltb limit 1 || ltb max_exceptions_limit limit
    then err invalid_limit
    else ok (list_exceptions limit s))

unfoldable pub clean_note : Str → Result BillingError Str
unfolding trim_space
clean_note note =
    let trimmed = trim_space note in
    if is_empty trimmed || ltb max_resume_note_length (length trimmed)
    then err invalid_note
    else ok trimmed

abbrev pub subject_of : Option Identity → Str
subject_of none = []
subject_of (some c) = c.subject

abbrev pub billed :
    ChargeStore × Result ChargeError Charge → ChargeStore × Result BillingError Charge
billed (s, r) = (s, from_store r)

-- `Service.Resume`, with the `resume` that it shares with the monitor.
unfoldable pub resume_charge :
    RetryPolicy
    → Option Identity
    → Str
    → Str
    → Time
    → ChargeStore
    → ChargeStore × Result BillingError Charge
unfolding require_any_role clean_note window_end resume
resume_charge policy caller id note now s = elim (require_any_role caller (operations ∷ [])) [
  | some e ↦ (s, err (denied e))
  | none ↦ elim (clean_note note) [
    | err e ↦ (s, err e)
    | ok trimmed ↦ billed (
        resume id
          (record {
            by = subject_of caller;
            note = trimmed;
            at = now;
            window_ends_at = window_end policy now;
          })
          s)
  ]
]

unfoldable pub valid_token : Str → Bool
unfolding every
valid_token s = not (ltb (byte_len s) 8 || ltb 128 (byte_len s)) && every is_word s

unfoldable pub looks_like_a_card_number : Str → Bool
unfolding every
looks_like_a_card_number s =
    if ltb (byte_len s) 13 || ltb 19 (byte_len s) then false else every is_digit s

unfoldable pub four_digits : Str → Bool
unfolding every
four_digits s = byte_len s == 4 && every is_digit s

abbrev pub check_card : PaymentMethod → Option InvalidMethod
check_card m =
    if is_empty m.token || not (valid_token m.token)
    then some token_needed
    else if looks_like_a_card_number m.token
    then some token_is_card_number
    else if not (is_empty m.last4) && not (four_digits m.last4)
    then some bad_last4
    else none

abbrev pub check_pse : PaymentMethod → Option InvalidMethod
check_pse m =
    if is_empty m.bank_code
    then some bank_needed
    else if not (valid_payer_type m.payer_type)
    then some payer_type_needed
    else none

abbrev pub check_kind : PaymentMethod → Option InvalidMethod
check_kind m = elim m.kind [ card ↦ check_card m | pse ↦ check_pse m | _ ↦ some unknown_method ]

-- `none` is a method that the gateway can use.
unfoldable pub validate_payment_method : PaymentMethod → Option InvalidMethod
unfolding valid_token looks_like_a_card_number four_digits valid_payer_type
validate_payment_method m = elim (check_kind m) [
  | some e ↦ some e
  | none ↦
      if ltb_ℤ m.installments (pos 1) || ltb_ℤ (pos max_installments) m.installments
      then some bad_installments
      else none
]

-- `IsRenewalCharge` of domain/renewal.go.
unfoldable pub is_renewal_charge : Str → Bool
unfolding has_prefix
is_renewal_charge id = has_prefix id (lit "ren-")

abbrev pub past_deadline : Str → Time → Charge → Bool
past_deadline id now c =
    is_renewal_charge id && not (is_zero c.window_ends_at) && not (is_before now c.window_ends_at)

-- What `Service.AttachPaymentMethod` checks before it writes.
unfoldable pub attachable :
    Option Identity → Str → PaymentMethod → Time → ChargeStore → Result BillingError Charge
unfolding get require_owner_or_role validate_payment_method is_renewal_charge
attachable caller id m checked_at read = from_store (get id read) >>= λ c.
    unless (require_owner_or_role caller c.customer_id []) (elim (validate_payment_method m) [
      | some e ↦ err (invalid_payment_method e)
      | none ↦ if past_deadline id checked_at c then err (charge_error charge_not_payable) else ok c
    ])

unfoldable pub attach :
    (ℕ → Str)
    → Option Identity
    → Str
    → PaymentMethod
    → Time
    → Time
    → ChargeStore
    → ChargeStore
    → ChargeStore × Result BillingError Charge
unfolding attachable attach_payment_method
attach itoa caller id m checked_at now read s = elim (attachable caller id m checked_at read) [
  | err e ↦ (s, err e)
  | ok _ ↦ billed (attach_payment_method itoa id m now s)
]

-- The terms of an offer.
pub data TermsError : Type 0 where
  incomplete_terms : TermsError

unfoldable pub has_terms : CoverageTerms → Bool
has_terms t =
    not (leb_ℤ t.insured_amount (pos 0) && leb_ℤ (pos 0) t.insured_amount)
    || not (leb_ℤ t.term_months (pos 0) && leb_ℤ (pos 0) t.term_months)
    || ltb 0 (length t.coverages)

unfoldable pub complete_coverages : List CoveredRisk → Bool
complete_coverages [] = true
complete_coverages (c ∷ cs) =
    not (is_empty c.code || leb_ℤ c.insured_amount (pos 0)) && complete_coverages cs

-- `validateTerms` accepts the terms.
unfoldable pub complete_terms : CoverageTerms → Bool
unfolding complete_coverages
complete_terms t =
    not (leb_ℤ t.insured_amount (pos 0))
    && not (leb_ℤ t.term_months (pos 0))
    && ltb 0 (length t.coverages)
    && complete_coverages t.coverages

unfoldable pub offer_terms : CoverageTerms → Offer → Result TermsError CoverageTerms
unfolding has_prefix has_terms complete_terms
offer_terms demo offer =
    if has_prefix offer.id (lit "off-") || has_prefix offer.id (lit "adj-") && has_terms offer.terms
    then (if complete_terms offer.terms then ok offer.terms else err incomplete_terms)
    else ok demo

pub data StartError : Type 0 where
  no_terms : TermsError → StartError
  no_premium : StartError
  not_activatable : ActivationError → StartError
  not_stored : ChargeError → StartError

abbrev pub started :
    ChargeStore × Result ChargeError (Charge × Bool) → ChargeStore × Option StartError
started (s, ok _) = (s, none)
started (s, err e) = (s, some (not_stored e))

-- `Starter.Start`; `none` is no error.
unfoldable pub start :
    (Time → ℤ → Time)
    → RetryPolicy
    → CoverageTerms
    → Acceptance
    → Offer
    → Time
    → ChargeStore
    → ChargeStore × Option StartError
unfolding offer_terms new_charge window_end validate_activation create_pending
start add_months policy demo a offer now s = elim (offer_terms demo offer) [
  | err e ↦ (s, some (no_terms e))
  | ok terms ↦
      let c = new_charge a offer terms now (window_end policy now) in
      if leb_ℤ c.amount_minor (pos 0)
      then (s, some no_premium)
      else elim (validate_activation add_months now c) [
        | some e ↦ (s, some (not_activatable e))
        | none ↦ started (create_pending c s)
      ]
]
