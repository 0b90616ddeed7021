-- ===== src/Origination/Billing/Accepts.antt =====
-- What the billing accepts from a customer and from an analyst.
use misw4501_202614_grupo.Base.{◌≤◌, ◌≡◌, ◌≢◌, ◌↔◌, ◌⊎◌, true, false, none, [], ok, arith, length}
use misw4501_202614_grupo.Base.Int.{pos, ◌≤ℤ◌}
use misw4501_202614_grupo.Base.Text.{Str, every, is_word, is_digit, byte_len, trim_space}
use misw4501_202614_grupo.Origination.Charge.{
  PaymentMethod, card, pse, natural, legal, valid_payer_type,
}
use misw4501_202614_grupo.Origination.Billing.{
  validate_payment_method, valid_token, looks_like_a_card_number, four_digits, clean_note,
}

-- A token of the gateway: 8 to 128 letters, digits, `_` or `-`, and not the 13 to 19 digits of a card.
abbrev pub IsToken : Str → Type 0
IsToken s =
    (8 ≤ byte_len s)
    × (byte_len s ≤ 128)
    × (every is_word s ≡ true)
    × (13 ≤ byte_len s → byte_len s ≤ 19 → every is_digit s ≡ false)

abbrev pub IsCard : PaymentMethod → Type 0
IsCard m =
    (m.kind ≡ card)
    × IsToken m.token
    × ((m.last4 ≡ []) ⊎ ((byte_len m.last4 ≡ 4) × (every is_digit m.last4 ≡ true)))

abbrev pub IsDebit : PaymentMethod → Type 0
IsDebit m =
    (m.kind ≡ pse) × (m.bank_code ≢ []) × ((m.payer_type ≡ natural) ⊎ (m.payer_type ≡ legal))

-- The billing accepts a payment method exactly if it is paid in 1 to 36 instalments and is a card with
-- a token that cannot be the number of a card, and no last digits or four of them, or a debit with a
-- bank and a payer that is a natural or a legal person.
pub validate_payment_method-none_iff :
    (m : PaymentMethod)
    → (validate_payment_method m ≡ none)
      ↔ ((pos 1 ≤ℤ m.installments) × (m.installments ≤ℤ pos 36) × (IsCard m ⊎ IsDebit m))
unfolding validate_payment_method valid_token looks_like_a_card_number four_digits valid_payer_type
validate_payment_method-none_iff m = ground arith

-- A note that is accepted is the text without the spaces around it, of 1 to 500 characters; any other
-- note is refused.
clean_note_lem :
    (note kept : Str)
    → (clean_note note ≡ ok kept)
      ↔ ((kept ≡ trim_space note) × (1 ≤ length kept) × (length kept ≤ 500))
unfolding clean_note
clean_note_lem note kept = ground arith
