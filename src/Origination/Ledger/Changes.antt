-- ===== src/Origination/Ledger/Changes.antt =====
-- What each statement writes to a row keeps the row good.
use misw4501_202614_grupo.Base.{ℕ, ◌+◌, ◌≤◌, ◌≡◌, ◌≢◌, refl, ap, inl, inr, true, arith, Bool-cases}
use misw4501_202614_grupo.Base.Int.{ℤ}
use misw4501_202614_grupo.Base.Text.{Str}
use misw4501_202614_grupo.Base.Clock.{Time, Duration, zero_time}
use misw4501_202614_grupo.Idempotency.{FailureReason, Outcome}
use misw4501_202614_grupo.Origination.Charge.{
  Charge, Snapshot, PaymentMethod, ChargeResumption, captured, base_key, waiting_charge,
  confirmed_charge, charge_failure_reason_for, policy_id_for, activation_event_id_for,
}
use misw4501_202614_grupo.Origination.Charge.Store.{
  due, holds_charge, is_failed, claimed_charge, confirmed_row, rescheduled_charge, failed_charge,
  resumed_charge, activation_claimed, published_charge, unpublished_charge, inserted_charge,
}
use misw4501_202614_grupo.Origination.Charge.Methods.{
  payable, attached_charge, declined_charge, abandoned, swept,
}
use misw4501_202614_grupo.Origination.Ledger.Invariant.{GoodKey, GoodCharge}

module _ (itoa : ℕ → Str) (add_months : Time → ℤ → Time) (id : Str) where
  pub claimed-Good :
      (now : Time) (lease : Duration) (c : Charge)
      → due now c ≡ true
      → GoodCharge itoa add_months id c
      → GoodCharge itoa add_months id (claimed_charge now lease c)
  unfolding due captured
  claimed-Good now lease c e h =
      let s = h.state in
      record { id_eq = h.id_eq; key = h.key; paid = h.paid; state = ground arith }

  pub rescheduled-Good :
      (now next : Time) (cause : Str) (rec c : Charge)
      → next ≢ zero_time
      → holds_charge rec c ≡ true
      → GoodCharge itoa add_months id c
      → GoodCharge itoa add_months id (rescheduled_charge now next cause c)
  unfolding captured
  rescheduled-Good now next cause rec c n e h =
      let s = h.state in
      record { id_eq = h.id_eq; key = h.key; paid = h.paid; state = ground arith }

  pub failed-Good :
      (now : Time) (reason : FailureReason) (cause : Str) (rec c : Charge)
      → holds_charge rec c ≡ true
      → GoodCharge itoa add_months id c
      → GoodCharge itoa add_months id (failed_charge now (charge_failure_reason_for reason) cause c)
  unfolding captured charge_failure_reason_for
  failed-Good now reason cause rec c e h =
      let s = h.state in
      record { id_eq = h.id_eq; key = h.key; paid = h.paid; state = ground arith }

  pub confirmed-Good :
      (now : Time) (out : Outcome) (rec c : Charge)
      → holds_charge rec c ≡ true
      → c.snapshot ≡ rec.snapshot
      → GoodCharge itoa add_months id c
      → GoodCharge itoa add_months id
          (confirmed_row now (confirmed_charge add_months now out.reference rec) c)
  unfolding confirmed_charge captured policy_id_for activation_event_id_for
  confirmed-Good now out rec c e f h =
      let s = h.state in
      record { id_eq = h.id_eq; key = h.key; paid = h.paid; state = ground arith }

  pub resumed-Good :
      (r : ChargeResumption) (c : Charge)
      → r.at ≢ zero_time
      → is_failed c.status ≡ true
      → GoodCharge itoa add_months id c
      → GoodCharge itoa add_months id (resumed_charge r c)
  unfolding captured
  resumed-Good r c n e h =
      let s = h.state in
      record { id_eq = h.id_eq; key = h.key; paid = h.paid; state = ground arith }

  pub declined-Good :
      (code reference : Str) (c : Charge)
      → GoodCharge itoa add_months id c
      → GoodCharge itoa add_months id (declined_charge code reference c)
  declined-Good code reference c h =
      let s = h.state in
      record { id_eq = h.id_eq; key = h.key; paid = h.paid; state = ground arith }

  pub swept-Good :
      (at : Time) (c : Charge)
      → GoodCharge itoa add_months id c
      → GoodCharge itoa add_months id (swept at c)
  unfolding swept abandoned captured
  swept-Good at c h = elim (Bool-cases (abandoned at c)) [
    | inl e ↦
        let s = h.state in
        rw (swept, e) (record { id_eq = h.id_eq; key = h.key; paid = h.paid; state = ground arith })
    | inr e ↦ rw (swept, e) h
  ]

  pub activation_claimed-Good :
      (now : Time) (lease : Duration) (c : Charge)
      → GoodCharge itoa add_months id c
      → GoodCharge itoa add_months id (activation_claimed now lease c)
  activation_claimed-Good now lease c h =
      let s = h.state in
      record { id_eq = h.id_eq; key = h.key; paid = h.paid; state = ground arith }

  pub published-Good :
      (now : Time) (c : Charge)
      → GoodCharge itoa add_months id c
      → GoodCharge itoa add_months id (published_charge now c)
  published-Good now c h =
      let s = h.state in
      record { id_eq = h.id_eq; key = h.key; paid = h.paid; state = ground arith }

  pub unpublished-Good :
      (now next : Time) (cause : Str) (c : Charge)
      → GoodCharge itoa add_months id c
      → GoodCharge itoa add_months id (unpublished_charge now next cause c)
  unpublished-Good now next cause c h =
      let s = h.state in
      record { id_eq = h.id_eq; key = h.key; paid = h.paid; state = ground arith }

  -- A new key is that of the next payment, which is not the first one.
  attached-GoodKey :
      (m : PaymentMethod) (at : Time) (c : Charge)
      → payable c ≡ true
      → GoodCharge itoa add_months id c
      → GoodKey itoa id (attached_charge itoa id m at c).idempotency_key (c.payment_attempt + 1)
  unfolding payable captured
  attached-GoodKey m at c e h =
      let s = h.state in
      elim (Bool-cases (is_failed c.status)) [
        | inl f ↦
            let some_payment : 1 ≤ c.payment_attempt = h.paid (ground arith) in
            rw f (inr (c.payment_attempt + 1, omega arith, omega arith, refl))
        | inr f ↦
            rw f (elim h.key [ inl k ↦ inl k | inr (n, two, le, k) ↦ inr (n, two, omega arith, k) ])
      ]

  pub attached-Good :
      (m : PaymentMethod) (at : Time) (c : Charge)
      → at ≢ zero_time
      → captured m.kind ≡ true
      → payable c ≡ true
      → GoodCharge itoa add_months id c
      → GoodCharge itoa add_months id (attached_charge itoa id m at c)
  unfolding payable captured
  attached-Good m at c n f e h =
      let s = h.state in
      record {
        id_eq = h.id_eq;
        key = attached-GoodKey m at c e h;
        paid = λ _. omega arith;
        state = ground arith;
      }

  pub inserted-Good :
      (snapshot : Snapshot) (started ends now : Time)
      → snapshot.acceptance_id ≡ id
      → GoodCharge itoa add_months id (
          inserted_charge
            (waiting_charge snapshot (base_key snapshot.acceptance_id) started ends now))
  unfolding captured
  inserted-Good snapshot started ends now e = record {
    id_eq = e;
    key = inl (ap base_key e);
    paid = λ f. absurd (ground arith);
    state = ground arith;
  }
