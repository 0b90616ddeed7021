-- ===== src/Claims/Decision/Amounts.antt =====
-- What an approval pays.
use misw4501_202614_grupo.Base.{
  ℕ, ◌+◌, ◌-◌, ◌*◌, ◌/◌, ◌≤◌, ◌<◌, ◌≡◌, refl, ◌≢◌, ◌↔◌, true, ◌||◌, some, arith, ok, err,
}
use misw4501_202614_grupo.Base.Int.{
  ℤ, pos, pos_part, negsuc, ◌-ℤ◌, ◌≤ℤ◌, wrap64, wrap64-pos, int64_limit, *ℤ-pos, +ℤ-pos, -ℤ-pos,
}
use misw4501_202614_grupo.Base.Text.{Str, is_empty, trim_space}
use misw4501_202614_grupo.Base.Clock.{Time}
use misw4501_202614_grupo.Idempotency
use misw4501_202614_grupo.Claims.Coverage.{Coverage, Holder}
use misw4501_202614_grupo.Claims.Case.{ClaimRecord}
use misw4501_202614_grupo.Claims.Decision.{
  deductible_of, approve, Decision, new_payout, payout_key, Outcome, amount_out_of_range,
  amount_exceeds_insured_value, nothing_to_pay, no_payout_account, Payout,
}

-- Where the product fits an int64, the deductible is the share rounded to the nearest cent.
pub deductible_of-pos :
    (gross bp : ℕ)
    → gross * bp + 5000 < int64_limit
    → deductible_of (pos gross) (pos bp) ≡ pos ((gross * bp + 5000) / 10_000)
unfolding deductible_of
deductible_of-pos gross bp h = rw (
  *ℤ-pos gross bp,
  wrap64-pos (gross * bp) (omega arith),
  +ℤ-pos (gross * bp) 5000,
  wrap64-pos (gross * bp + 5000) h,
)

-- A coverage whose insured value and share are the numbers `insured` and `bp`: the share is at most
-- 100 %, and the product that the deductible is computed from fits an int64.
pub record IsSound (cov : Coverage) (insured bp : ℕ) : Type 0 where
  pub insured_eq : cov.insured_value_minor ≡ pos insured
  pub share_eq : cov.deductible_basis_points ≡ pos bp
  pub share_le : bp ≤ 10_000
  pub product_fits : insured * bp + 5000 < int64_limit
  pub insured_fits : insured < int64_limit

-- The share of a gross amount, rounded to the nearest cent.
abbrev pub share : ℕ → ℕ → ℕ
share gross bp = (gross * bp + 5000) / 10_000

pub share_le_gross : (gross bp : ℕ) → bp ≤ 10_000 → share gross bp ≤ gross
share_le_gross gross bp h = grind arith

mul_le : (gross insured bp : ℕ) → gross ≤ insured → gross * bp ≤ insured * bp
mul_le gross insured bp h = grind arith

amount-eq :
    (cov : Coverage) (insured bp gross : ℕ)
    → IsSound cov insured bp
    → gross ≤ insured
    → wrap64 (pos gross -ℤ deductible_of (pos gross) cov.deductible_basis_points)
      ≡ pos (gross - share gross bp)
amount-eq cov insured bp gross h le =
    rw
      (
        h.share_eq,
        deductible_of-pos gross bp (omega (arith, mul_le gross insured bp le, h)),
        -ℤ-pos gross (share gross bp) (share_le_gross gross bp h.share_le),
      )
      (wrap64-pos _ (omega (arith, h)))

-- The payout that an approval leaves pays the gross amount less the deductible.
pub record PaysOut (c : ClaimRecord) (holder : Holder) (insured bp gross : ℕ) (d : Decision)
    (p : Payout) : Type 0 where
  pub within : gross ≤ insured
  pub payout_eq : d.payout ≡ some p
  pub gross_eq : d.gross_amount_minor ≡ pos gross
  pub amount_eq : p.amount_minor ≡ pos (gross - share gross bp)
  pub amount_pos : share gross bp < gross
  pub key_eq : p.key ≡ payout_key c.id
  pub destination_eq : p.destination ≡ holder.payout_account
  pub beneficiary_eq : p.beneficiary_id ≡ c.subject
  pub is_pending : p.status ≡ Idempotency.Status.pending
  pub claim_eq : d.claim_id ≡ c.id
  pub approved : d.outcome ≡ Outcome.approved

approve-pos_PaysOut :
    (c : ClaimRecord) (cov : Coverage) (holder : Holder) (insured bp gross : ℕ) (by : Str)
    (at : Time) {d : Decision}
    → IsSound cov insured bp
    → approve c cov holder (pos gross) by at ≡ ok d
    → PaysOut c holder insured bp gross d
        (new_payout c cov holder (pos (gross - share gross bp)) at)
unfolding approve
approve-pos_PaysOut c cov holder insured bp gross by at h e =
    ground (arith, amount-eq cov insured bp gross h, h)

approve-negsuc :
    (c : ClaimRecord) (cov : Coverage) (holder : Holder) (g : ℕ) (by : Str) (at : Time)
    {d : Decision}
    → approve c cov holder (negsuc g) by at ≢ ok d
unfolding approve
approve-negsuc c cov holder g by at = ground arith

-- Every approval, for whatever int64 gross amount, is of a positive amount within the insured value
-- of a sound coverage, and leaves a pending payout of the claim to the account of the insured, of
-- the gross amount less the rounded share, which is more than nothing.
pub approve-PaysOut :
    (c : ClaimRecord) (cov : Coverage) (holder : Holder) (insured bp : ℕ) (gross : ℤ) (by : Str)
    (at : Time) {d : Decision}
    → IsSound cov insured bp
    → approve c cov holder gross by at ≡ ok d
    → (g : ℕ) × (p : Payout) × (gross ≡ pos g) × PaysOut c holder insured bp g d p
approve-PaysOut c cov holder insured bp (pos g) by at h e = (
  g,
  new_payout c cov holder (pos (g - share g bp)) at,
  refl,
  approve-pos_PaysOut c cov holder insured bp g by at h e,
)
approve-PaysOut c cov holder insured bp (negsuc g) by at h e =
    absurd (approve-negsuc c cov holder g by at e)

-- Why an approval is refused, for a sound coverage: an amount that is not positive, one above the
-- insured value, one that the deductible takes whole, and in every other case an account of the
-- insured without a bank or a number.
pub approve-err_iff :
    (c : ClaimRecord) (cov : Coverage) (holder : Holder) (insured bp : ℕ) (gross : ℤ) (by : Str)
    (at : Time)
    → IsSound cov insured bp
    → let result = approve c cov holder gross by at in
      let account = holder.payout_account in
      ((result ≡ err amount_out_of_range) ↔ (gross ≤ℤ pos 0))
      × ((result ≡ err amount_exceeds_insured_value) ↔ ¬ (gross ≤ℤ pos insured))
      × ((result ≡ err nothing_to_pay)
          ↔ ((pos 1 ≤ℤ gross) × (gross ≤ℤ pos insured) × (pos (share (pos_part gross) bp) ≡ gross)))
      × ((result ≡ err no_payout_account) ↔ (
          (pos (share (pos_part gross) bp + 1) ≤ℤ gross)
          × (gross ≤ℤ pos insured)
          × ((is_empty (trim_space account.bank_code)
                || is_empty (trim_space account.account_number))
              ≡ true)))
unfolding approve
approve-err_iff c cov holder insured bp (pos g) by at h =
    ground (arith, amount-eq cov insured bp g h, h, share_le_gross g bp h.share_le)
approve-err_iff c cov holder insured bp (negsuc g) by at h = ground arith
