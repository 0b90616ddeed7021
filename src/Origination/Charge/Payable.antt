-- ===== src/Origination/Charge/Payable.antt =====
-- When a charge takes a payment method, and under which key it is charged then.
use misw4501_202614_grupo.Base.{
  ℕ, ◌≤◌, ◌≡◌, refl, ◌↔◌, inl, inr, true, false, some, [], ◌∷◌, ok, err, arith, Bool-cases,
}
use misw4501_202614_grupo.Base.Text.{Str, str_eq_refl}
use misw4501_202614_grupo.Base.Dict.{Dict, lookup, insert, lookup-insert_self}
use misw4501_202614_grupo.Base.Clock.{Time}
use misw4501_202614_grupo.Idempotency.{Status}
use misw4501_202614_grupo.Origination.Charge.{
  Charge, PaymentMethod, ChargeResumption, charge_key_for, takes_payment_method,
  with_payment_method,
}
use misw4501_202614_grupo.Origination.Charge.Store.{
  ChargeStore, charge_not_payable, write, get, key_taken, update, refused, resume, resumed_charge,
}
use misw4501_202614_grupo.Origination.Charge.Methods.{
  payable, attached_key, attached_charge, attach_payment_method,
}

-- What the statement writes and what the domain says agree, but for the diagnosis and the lease.
pub record Agrees (row c : Charge) : Type 0 where
  pub snapshot_eq : row.snapshot ≡ c.snapshot
  pub key_eq : row.idempotency_key ≡ c.idempotency_key
  pub status_eq : row.status ≡ c.status
  pub attempts_eq : row.attempts ≡ c.attempts
  pub next_eq : row.next_attempt_at ≡ c.next_attempt_at
  pub window_eq : row.window_ends_at ≡ c.window_ends_at
  pub method_eq : row.payment_method ≡ c.payment_method
  pub payments_eq : row.payment_attempt ≡ c.payment_attempt
  pub activation_eq : row.activation ≡ c.activation

payable-takes : (c : Charge) → payable c ≡ takes_payment_method c
unfolding payable takes_payment_method
payable-takes c = ground arith

module _ (itoa : ℕ → Str) (id : Str) (m : PaymentMethod) (at : Time) where
  attached-Agrees :
      (c : Charge)
      → c.acceptance_id ≡ id
      → payable c ≡ true
      → (c.status ≡ Status.failed → 1 ≤ c.payment_attempt)
      → Agrees (attached_charge itoa id m at c) (with_payment_method itoa m at c)
  unfolding payable with_payment_method charge_key_for
  attached-Agrees c e p n = record {
    snapshot_eq = ground arith;
    key_eq = ground arith;
    status_eq = ground arith;
    attempts_eq = ground arith;
    next_eq = ground arith;
    window_eq = ground arith;
    method_eq = ground arith;
    payments_eq = ground arith;
    activation_eq = ground arith;
  }

  -- The statement that attaches a payment method to a charge refuses it exactly if the rule of the
  -- domain does; and where it accepts it, it stores and returns the charge that the domain builds: its
  -- status, dates, key, method and counters. The charge is stored under its acceptance, another charge
  -- does not have its new key, and it failed only after a payment.
  pub attach-with_payment_method :
      (s : ChargeStore) (c : Charge)
      → lookup id s.charges ≡ some c
      → c.acceptance_id ≡ id
      → key_taken (attached_key itoa id c) id s.charges ≡ false
      → (c.status ≡ Status.failed → 1 ≤ c.payment_attempt)
      → (((attach_payment_method itoa id m at s).1 ≡ err charge_not_payable)
          ↔ (takes_payment_method c ≡ false))
        × (takes_payment_method c ≡ true
            → (row : Charge) × (attach_payment_method itoa id m at s ≡ (write id row s, ok row))
              × Agrees row (with_payment_method itoa m at c))
  unfolding attach_payment_method refused get
  attach-with_payment_method s c e i k n = elim (Bool-cases (payable c)) [
    | inl p ↦ (
      ground (arith, payable-takes c),
      λ _. (
        attached_charge itoa id m at c,
        rw (attach_payment_method, e, p, k) refl,
        attached-Agrees c i p n,
      ),
    )
    | inr p ↦ (ground (arith, payable-takes c), λ f. absurd (ground (arith, payable-takes c)))
  ]

-- The key of a row is not looked at for the row itself.
key_taken-insert :
    (k id : Str) (c : Charge) (m : Dict Charge) → key_taken k id (insert id c m) ≡ key_taken k id m
unfolding key_taken insert
key_taken-insert k id c [] = ground (arith, str_eq_refl id)
key_taken-insert k id c ((j, d) ∷ m) = ground (arith, key_taken-insert k id c m)

-- Whatever a charge failed for, an attempt that may have charged it or not included: once operations
-- resumed it, it takes another payment method, and keeps the key. No other charge has its key.
pub resume-attach_payment_method :
    (itoa : ℕ → Str) (id : Str) (r : ChargeResumption) (m : PaymentMethod) (at : Time)
    (s : ChargeStore) (c : Charge)
    → lookup id s.charges ≡ some c
    → c.status ≡ Status.failed
    → key_taken c.idempotency_key id s.charges ≡ false
    → (c' : Charge) × ((attach_payment_method itoa id m at (resume id r s).0).1 ≡ ok c')
      × (c'.idempotency_key ≡ c.idempotency_key)
      × (c'.payment_method.token ≡ m.token)
      × (c'.status ≡ Status.pending)
      × (c'.next_attempt_at ≡ at)
unfolding attach_payment_method resume update write payable
resume-attach_payment_method itoa id r m at s c e f k =
    let c1 = resumed_charge r c in
    (
      attached_charge itoa id m at c1,
      rw (resume, update, e, f)
          (rw
            (
              attach_payment_method,
              lookup-insert_self id c1 s.charges,
              key_taken-insert c.idempotency_key id c1 s.charges,
              k,
            )
            refl),
      refl,
      refl,
      refl,
      refl,
    )
