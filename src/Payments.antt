-- ===== src/Payments.antt =====
-- The client of the payment gateway, pkg/adapters/payments/client.go. What HTTP, JSON and the circuit
-- breaker did is a value: the breaker refused the call, the transport failed, or a reply came with
-- its status and what its body decodes to.
pub mod Cards
pub mod Gateway
pub mod Outcomes
mod Tests
use misw4501_202614_grupo.Base.{
  ℕ, ◌==◌, leb, ltb, Bool, true, false, not, ◌&&◌, ◌||◌, Option, none, some, List, [], ◌∷◌, ◌++◌,
  Result, ok, err, if◌then◌else◌,
}
use misw4501_202614_grupo.Base.Int.{ℤ, pos, leb_ℤ}
use misw4501_202614_grupo.Base.Text.{Str, lit, is_empty, str_eq}
use misw4501_202614_grupo.Idempotency.{
  CallError, Cause, err_ambiguous, err_not_sent, other_cause, rejected_error, Rejection,
}

pub record ChargeRequest : Type 0 where
  pub idempotency_key : Str
  pub reference : Str
  pub customer_id : Str
  pub amount_minor : ℤ
  pub currency : Str
  pub payment_token : Str

pub record PayoutDestination : Type 0 where
  pub bank_code : Str
  pub account_type : Str
  pub account_number : Str

pub record PayoutRequest : Type 0 where
  pub idempotency_key : Str
  pub reference : Str
  pub beneficiary_id : Str
  pub amount_minor : ℤ
  pub currency : Str
  pub destination : PayoutDestination

-- `errorBody`, with the fields that the client reads.
pub record ErrorBody : Type 0 where
  pub error : Str
  pub decline_code : Str
  pub charge_id : Str
  pub payout_id : Str

-- `RejectedError`; `operation` is empty for a charge.
pub record RejectedError : Type 0 where
  pub status_code : ℕ
  pub code : Str
  pub decline_code : Str
  pub reference : Str
  pub operation : Str

-- A reply: the status, the value that its body decodes to or the text of the failure, and the error
-- that it decodes to (with empty fields where there is none).
pub record Reply (V : Type 0) : Type 0 where
  pub status : ℕ
  pub value : Result Str V
  pub error_body : ErrorBody

-- What came of a call: the breaker let nothing through, there was no reply, or there was one.
pub data Exchange (V : Type 0) : Type 0 where
  breaker_open : Exchange V
  no_reply : Str → Exchange V
  replied : Reply V → Exchange V

pub data Operation : Type 0 where
  charging paying_out : Operation

abbrev pub operation_name : Operation → Str
operation_name charging = lit "charge"
operation_name paying_out = lit "payout"

unfoldable pub retryable_status : ℕ → Bool
retryable_status code =
    (code == 408 || code == 409 || code == 425 || code == 429) || (ltb code 400 || leb 500 code)

-- The answer of one call: a value or a rejection; an error where the outcome is unknown.
pub data Sent (V : Type 0) : Type 0 where
  value : V → Sent V
  rejected : RejectedError → Sent V

abbrev pub rejection_of : Operation → ℕ → ErrorBody → RejectedError
rejection_of operation status eb = record {
  status_code = status;
  code = eb.error;
  decline_code = eb.decline_code;
  reference = if is_empty eb.charge_id then eb.payout_id else eb.charge_id;
  operation = elim operation [ charging ↦ [] | paying_out ↦ operation_name paying_out ];
}

module _ (itoa : ℕ → Str) where
  -- `RejectedError.Error`.
  unfoldable pub error_message : RejectedError → Str
  error_message e =
      lit "payment gateway rejected the "
      ++ (if is_empty e.operation then lit "charge" else e.operation)
      ++ lit " (status "
      ++ itoa e.status_code
      ++ (if is_empty e.code then [] else lit ", code " ++ e.code)
      ++ (if is_empty e.decline_code then [] else lit ", decline code " ++ e.decline_code)
      ++ lit ")"

  -- The error that `ErrAmbiguous` wraps together with another one.
  abbrev pub ambiguous_error : Str → CallError
  ambiguous_error text = record {
    chain = err_ambiguous ∷ other_cause ∷ [];
    message =
        lit "payment gateway outcome unknown: idempotency: the outcome of the call is unknown: "
        ++ text;
  }

  abbrev pub unavailable : CallError
  unavailable = record {
    chain = err_not_sent ∷ [];
    message =
        lit "payment gateway isolated by its circuit breaker: idempotency: the call was not sent";
  }

  abbrev pub rejected_call : RejectedError → CallError
  rejected_call e = record {
    chain =
        rejected_error
          (record { code = e.code; decline_code = e.decline_code; reference = e.reference })
        ∷ [];
    message = error_message e;
  }

  module _ {V : Type 0} where
    unfoldable pub send : Operation → Reply V → Result Str (Sent V)
    unfolding retryable_status
    send operation r =
        if r.status == 200 || r.status == 201
        then elim r.value [
          | ok v ↦ ok (value v)
          | err text ↦ err (lit "decode the " ++ operation_name operation ++ lit ": " ++ text)
        ]
        else if retryable_status r.status
        then err (lit "unexpected status " ++ itoa r.status)
        else ok (rejected (rejection_of operation r.status r.error_body))

    abbrev pub answered : Result Str (Sent V) → Result CallError V
    answered (ok (value v)) = ok v
    answered (ok (rejected e)) = err (rejected_call e)
    answered (err text) = err (ambiguous_error text)

    unfoldable pub call : Operation → Exchange V → Result CallError V
    unfolding send
    call operation breaker_open = err unavailable
    call operation (no_reply text) = err (ambiguous_error text)
    call operation (replied r) = answered (send operation r)

abbrev pub invalid_charge : CallError
invalid_charge = record {
  chain = other_cause ∷ [];
  message =
      lit "idempotency key, reference, customer id, a positive amount and currency are required";
}

abbrev pub invalid_payout : CallError
invalid_payout = record {
  chain = other_cause ∷ [];
  message =
      lit
        "idempotency key, reference, beneficiary id, a positive amount, currency, bank code and account number are required";
}

unfoldable pub valid_charge : ChargeRequest → Bool
valid_charge r = not (
    is_empty r.idempotency_key
    || is_empty r.reference
    || is_empty r.customer_id
    || leb_ℤ r.amount_minor (pos 0)
    || is_empty r.currency)

unfoldable pub valid_payout_request : PayoutRequest → Bool
valid_payout_request r = not (
    is_empty r.idempotency_key
    || is_empty r.reference
    || is_empty r.beneficiary_id
    || leb_ℤ r.amount_minor (pos 0)
    || is_empty r.currency
    || is_empty r.destination.bank_code
    || is_empty r.destination.account_number)

-- `Client.Charge` and `Client.Payout`: a request that is not complete is not sent.
unfoldable pub charge :
    {V : Type 0} → (ℕ → Str) → (ChargeRequest → Exchange V) → ChargeRequest → Result CallError V
unfolding call valid_charge
charge itoa exchange r =
    if valid_charge r then call itoa charging (exchange r) else err invalid_charge

unfoldable pub payout :
    {V : Type 0} → (ℕ → Str) → (PayoutRequest → Exchange V) → PayoutRequest → Result CallError V
unfolding call valid_payout_request
payout itoa exchange r =
    if valid_payout_request r then call itoa paying_out (exchange r) else err invalid_payout
