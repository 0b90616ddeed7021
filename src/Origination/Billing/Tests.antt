-- ===== src/Origination/Billing/Tests.antt =====
-- The billing on concrete requests.
use misw4501_202614_grupo.Base.{◌≡◌, refl, ◌↔◌, ◌⊎◌, none, some}
use misw4501_202614_grupo.Base.Int.{pos, ◌≤ℤ◌}
use misw4501_202614_grupo.Base.Text.{lit}
use misw4501_202614_grupo.Origination.Charge.Samples.{visa}
use misw4501_202614_grupo.Origination.Billing.{validate_payment_method, token_is_card_number}
use misw4501_202614_grupo.Origination.Billing.Accepts.{
  IsCard, IsDebit, validate_payment_method-none_iff,
}

card_number :
    validate_payment_method (record visa { token = lit "4111111111111111" })
    ≡ some token_is_card_number
unfolding validate_payment_method
card_number = refl

validate_payment_method-none_iff_example :
    (validate_payment_method visa ≡ none)
    ↔ ((pos 1 ≤ℤ visa.installments) × (visa.installments ≤ℤ pos 36) × (IsCard visa ⊎ IsDebit visa))
validate_payment_method-none_iff_example = validate_payment_method-none_iff visa
