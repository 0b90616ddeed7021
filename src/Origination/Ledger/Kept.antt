-- ===== src/Origination/Ledger/Kept.antt =====
-- What a row keeps when a statement writes it.
use misw4501_202614_grupo.Base.{
  ℕ, ◌+◌, ◌≡◌, refl, ◌⊎◌, inl, inr, true, false, ◌++◌, arith, Bool-cases,
}
use misw4501_202614_grupo.Base.Text.{Str, lit}
use misw4501_202614_grupo.Base.Clock.{Time, Duration, is_zero}
use misw4501_202614_grupo.Idempotency.{Status}
use misw4501_202614_grupo.Origination.Charge.{
  Charge, PaymentMethod, ChargeResumption, ChargeFailureReason, base_key,
}
use misw4501_202614_grupo.Origination.Charge.Store.{
  due, holds_charge, holds_activation, is_failed, claimed_charge, confirmed_row, rescheduled_charge,
  failed_charge, resumed_charge, activation_claimed, published_charge, unpublished_charge,
}
use misw4501_202614_grupo.Origination.Charge.Methods.{
  payable, was_rejected, attached_charge, declined_charge, abandoned, swept,
}

-- A confirmed charge keeps what it charged and what it activates, and once its activation was
-- published it keeps the time of that.
abbrev pub KeptFinal : Status → Charge → Charge → Type 0
KeptFinal Status.confirmed c c' =
    (c'.status ≡ Status.confirmed)
    × (c'.confirmed_at ≡ c.confirmed_at)
    × (c'.idempotency_key ≡ c.idempotency_key)
    × (c'.payment_method ≡ c.payment_method)
    × (c'.activation ≡ c.activation)
    × (is_zero c.publication.published_at ≡ false
        → c'.publication.published_at ≡ c.publication.published_at)
KeptFinal _ c c' = Unit

-- The key stays, or the gateway declined the charge and its next payment has the next key.
abbrev pub KeptKey : (ℕ → Str) → Str → Charge → Charge → Type 0
KeptKey itoa id c c' =
    (c'.idempotency_key ≡ c.idempotency_key)
    ⊎ ((was_rejected c ≡ true)
        × (c'.idempotency_key ≡ base_key id ++ lit "-" ++ itoa (c.payment_attempt + 1))
        × (c'.payment_attempt ≡ c.payment_attempt + 1))

abbrev pub Kept : (ℕ → Str) → Str → Charge → Charge → Type 0
Kept itoa id c c' = (c'.snapshot ≡ c.snapshot) × KeptFinal c.status c c' × KeptKey itoa id c c'

KeptFinal-refl : (st : Status) (c : Charge) → c.status ≡ st → KeptFinal st c c
KeptFinal-refl Status.confirmed c e = (e, refl, refl, refl, refl, λ _. refl)
KeptFinal-refl Status.pending c e = tt
KeptFinal-refl Status.in_progress c e = tt
KeptFinal-refl Status.failed c e = tt

module _ (itoa : ℕ → Str) (id : Str) where
  pub Kept-refl : (c : Charge) → Kept itoa id c c
  Kept-refl c = (refl, KeptFinal-refl c.status c refl, inl refl)

  pub claimed-Kept :
      (now : Time) (lease : Duration) (c : Charge)
      → due now c ≡ true
      → Kept itoa id c (claimed_charge now lease c)
  unfolding due
  claimed-Kept now lease c e = (refl, ground arith, inl refl)

  pub rescheduled-Kept :
      (now next : Time) (cause : Str) (rec c : Charge)
      → holds_charge rec c ≡ true
      → Kept itoa id c (rescheduled_charge now next cause c)
  rescheduled-Kept now next cause rec c e = (refl, ground arith, inl refl)

  pub failed-Kept :
      (now : Time) (reason : ChargeFailureReason) (cause : Str) (rec c : Charge)
      → holds_charge rec c ≡ true
      → Kept itoa id c (failed_charge now reason cause c)
  failed-Kept now reason cause rec c e = (refl, ground arith, inl refl)

  pub confirmed-Kept :
      (now : Time) (cc rec c : Charge)
      → holds_charge rec c ≡ true
      → Kept itoa id c (confirmed_row now cc c)
  confirmed-Kept now cc rec c e = (refl, ground arith, inl refl)

  pub resumed-Kept :
      (r : ChargeResumption) (c : Charge)
      → is_failed c.status ≡ true
      → Kept itoa id c (resumed_charge r c)
  resumed-Kept r c e = (refl, ground arith, inl refl)

  pub declined-Kept :
      (code reference : Str) (c : Charge) → Kept itoa id c (declined_charge code reference c)
  declined-Kept code reference c = (refl, ground arith, inl refl)

  pub swept-Kept : (at : Time) (c : Charge) → Kept itoa id c (swept at c)
  unfolding swept abandoned
  swept-Kept at c = elim (Bool-cases (abandoned at c)) [
    | inl e ↦ rw (swept, e) (refl, ground arith, inl refl)
    | inr e ↦ rw (swept, e) (Kept-refl c)
  ]

  pub activation_claimed-Kept :
      (now : Time) (lease : Duration) (c : Charge) → Kept itoa id c (activation_claimed now lease c)
  activation_claimed-Kept now lease c = (refl, ground arith, inl refl)

  pub published-Kept :
      (now : Time) (rec c : Charge)
      → holds_activation rec c ≡ true
      → Kept itoa id c (published_charge now c)
  published-Kept now rec c e = (refl, ground arith, inl refl)

  pub unpublished-Kept :
      (now next : Time) (cause : Str) (c : Charge)
      → Kept itoa id c (unpublished_charge now next cause c)
  unpublished-Kept now next cause c = (refl, ground arith, inl refl)

  pub attached-Kept :
      (m : PaymentMethod) (at : Time) (c : Charge)
      → payable c ≡ true
      → Kept itoa id c (attached_charge itoa id m at c)
  unfolding payable
  attached-Kept m at c e = (
    refl,
    ground arith,
    elim (Bool-cases (is_failed c.status)) [
      | inl f ↦ rw f (inr (ground arith, refl, refl))
      | inr f ↦ rw f (inl refl)
    ],
  )
