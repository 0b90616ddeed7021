-- ===== src/Payments/Cards.antt =====
-- The numbers of cards and what a token keeps of one, of the gateway in
-- stubs/payment-gateway/cmd/pasarela-pagos/main.go.
use misw4501_202614_grupo.Base.{
  drop, ℕ, ◌+◌, ◌*◌, ◌-◌, ◌%◌, ◌==◌, ltb, Bool, true, false, not, ◌&&◌, ◌||◌, [], ◌∷◌, length,
  if◌then◌else◌,
}
use mathlib.Core.List.{reverse}
use misw4501_202614_grupo.Base.Text.{Str, lit, str_eq, has_prefix, is_digit}

pub record TokenInfo : Type 0 where
  pub brand : Str
  pub last4 : Str
  pub declines : Bool

unfoldable pub only_digits : Str → Str
only_digits [] = []
only_digits (c ∷ s) = let rest = only_digits s in if is_digit c then c ∷ rest else rest

-- The sum of the digits from the last one, every second one doubled.
unfoldable pub luhn_sum : Bool → Str → ℕ
luhn_sum double [] = 0
luhn_sum false (c ∷ s) = (c - 0x30) + luhn_sum true s
luhn_sum true (c ∷ s) =
    let rest = luhn_sum false s in
    let d = (c - 0x30) * 2 in if ltb 9 d then (d - 9) + rest else d + rest

abbrev divides_ten : ℕ → Bool
divides_ten n = n % 10 == 0

unfoldable pub luhn : Str → Bool
unfolding luhn_sum
luhn number = divides_ten (luhn_sum false (reverse number))

unfoldable pub brand_of : Str → Str
unfolding has_prefix
brand_of number =
    if has_prefix number (lit "4")
    then lit "visa"
    else if has_prefix number (lit "34") || has_prefix number (lit "37")
    then lit "amex"
    else if has_prefix number (lit "5") || has_prefix number (lit "2")
    then lit "mastercard"
    else lit "unknown"

-- `strings.HasSuffix`.
unfoldable pub has_suffix : Str → Str → Bool
unfolding has_prefix
has_suffix s end = has_prefix (reverse s) (reverse end)

abbrev pub info_of : Str → TokenInfo
info_of number = record {
  brand = brand_of number;
  last4 = drop (length number - 4) number;
  declines = not (str_eq number (lit "4111111111111111")) && has_suffix number (lit "0002");
}

abbrev pub bad_card : Str → Bool
bad_card number = ltb (length number) 13 || ltb 19 (length number) || not (luhn number)
