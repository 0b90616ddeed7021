-- ===== src/Origination/Charge/Methods.antt =====
-- The payment methods of the charges in PostgreSQL,
-- services/origination/internal/adapters/postgres/charges.go: the method of a customer, the answer of
-- an issuer and the end of the wait for a method.
use misw4501_202614_grupo.Base.{
  ◌+◌, ◌==◌, Bool, not, ◌&&◌, ◌||◌, none, some, List, [], ◌∷◌, ◌++◌, Result, ok, err, if◌then◌else◌,
}
use misw4501_202614_grupo.Base.{ℕ}
use misw4501_202614_grupo.Base.Text.{Str, lit, is_empty}
use misw4501_202614_grupo.Base.Dict.{Dict, lookup}
use misw4501_202614_grupo.Base.Clock.{Time, zero_time, is_zero}
use misw4501_202614_grupo.Idempotency.{Status}
use misw4501_202614_grupo.Origination.Charge.{
  Charge, payment_method_missing, PaymentMethod, is_rejected, base_key,
}
use misw4501_202614_grupo.Origination.Charge.Store.{
  ChargeStore, ChargeError, charge_not_payable, duplicate_key, update, write, key_taken, is_pending,
  is_failed, reached, refused,
}

-- The `WHERE` of the statement that attaches a method.
unfoldable pub payable : Charge → Bool
payable c =
    is_pending c.status && c.attempts == 0 || is_failed c.status && is_rejected c.failure_reason

module _ (itoa : ℕ → Str) where
  abbrev pub attached_key : Str → Charge → Str
  attached_key id c =
      if is_failed c.status
      then base_key id ++ lit "-" ++ itoa (c.payment_attempt + 1)
      else c.idempotency_key

  abbrev pub attached_charge : Str → PaymentMethod → Time → Charge → Charge
  attached_charge id m at c =
      let diagnosis = c.diagnosis in
      record c {
        payment_method = record m { captured_at = at };
        payment_attempt = c.payment_attempt + 1;
        status = Status.pending;
        next_attempt_at = at;
        claimed_until = zero_time;
        attempts = if is_failed c.status then 0 else c.attempts;
        idempotency_key = attached_key id c;
        failure_reason = none;
        diagnosis = record diagnosis {
          last_error = [];
          decline_code = [];
          provider_reference = [];
          updated_at = at;
        };
      }

  -- The row, unless another charge has its new key.
  unfoldable pub attach_payment_method :
      Str → PaymentMethod → Time → ChargeStore → ChargeStore × Result ChargeError Charge
  unfolding payable write refused
  attach_payment_method id m at s = elim (lookup id s.charges) [
    | none ↦ refused id charge_not_payable s
    | some c ↦
        if not (payable c)
        then refused id charge_not_payable s
        else if key_taken (attached_key id c) id s.charges
        then (s, err duplicate_key)
        else (write id (attached_charge id m at c) s, ok (attached_charge id m at c))
  ]

-- `COALESCE(value, column)`.
abbrev pub or_else : Str → Str → Str
or_else [] old = old
or_else (x ∷ xs) old = x ∷ xs

abbrev pub was_rejected : Charge → Bool
was_rejected c = is_failed c.status && is_rejected c.failure_reason

abbrev pub declined_charge : Str → Str → Charge → Charge
declined_charge code reference c =
    let diagnosis = c.diagnosis in
    record c {
      diagnosis = record diagnosis {
        decline_code = or_else code c.diagnosis.decline_code;
        provider_reference = or_else reference c.diagnosis.provider_reference;
      };
    }

unfoldable pub record_decline : Str → Str → Str → ChargeStore → ChargeStore
unfolding update
record_decline id code reference s =
    if is_empty code && is_empty reference
    then s
    else (update id was_rejected (declined_charge code reference) s).0

-- Pending without a date, in a window that is over.
unfoldable pub abandoned : Time → Charge → Bool
abandoned at c = is_pending c.status && is_zero c.next_attempt_at && reached c.window_ends_at at

abbrev pub expired_charge : Time → Charge → Charge
expired_charge at c =
    let diagnosis = c.diagnosis in
    record c {
      status = Status.failed;
      failure_reason = some payment_method_missing;
      next_attempt_at = zero_time;
      diagnosis = record diagnosis {
        last_failure_at = at;
        last_error =
            lit "the customer did not hand over a payment method before the retry window ended";
        updated_at = at;
      };
    }

-- Every row is tested and written by itself.
unfoldable pub swept : Time → Charge → Charge
unfolding abandoned
swept at c = if abandoned at c then expired_charge at c else c

unfoldable pub expire_rows : Time → Dict Charge → Dict Charge
unfolding swept
expire_rows at [] = []
expire_rows at ((id, c) ∷ m) = (id, swept at c) ∷ expire_rows at m

unfoldable pub abandoned_ids : Time → Dict Charge → List Str
unfolding abandoned
abandoned_ids at [] = []
abandoned_ids at ((id, c) ∷ m) =
    let rest = abandoned_ids at m in if abandoned at c then id ∷ rest else rest

unfoldable pub expire_without_payment_method : Time → ChargeStore → ChargeStore × List Str
unfolding expire_rows abandoned_ids
expire_without_payment_method at s =
    (record s { charges = expire_rows at s.charges }, abandoned_ids at s.charges)
