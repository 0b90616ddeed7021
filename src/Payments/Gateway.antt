-- ===== src/Payments/Gateway.antt =====
-- The gateway that the services are tried against, stubs/payment-gateway/cmd/pasarela-pagos/main.go.
-- A handler takes the decoded request and returns the status and the body; the mutex makes it one
-- step. The delay, the log and the JSON of the debug route are left out. A counter of a key that is
-- not in its map is 0.
pub mod Once
pub mod Replay
use misw4501_202614_grupo.Base.{
  drop, ℕ, zero, suc, ◌+◌, ◌*◌, ◌-◌, ◌%◌, ◌==◌, leb, ltb, Bool, true, false, not, ◌&&◌, ◌||◌,
  Option, none, some, List, [], ◌∷◌, ◌++◌, length, if◌then◌else◌,
}
use mathlib.Core.List.{reverse}
use misw4501_202614_grupo.Base.Int.{ℤ, pos, leb_ℤ, eq_ℤ}
use misw4501_202614_grupo.Base.Text.{
  contains_text, Str, lit, is_empty, str_eq, trim_space, byte_len, has_prefix, is_digit,
}
use misw4501_202614_grupo.Base.Dict.{Dict, lookup, insert}
use misw4501_202614_grupo.Base.Clock.{Time}
use misw4501_202614_grupo.Payments.{PayoutDestination}
use misw4501_202614_grupo.Payments.Cards.{
  TokenInfo, only_digits, luhn, brand_of, has_suffix, info_of, bad_card,
}

pub record GatewayCharge : Type 0 where
  pub reference : Str
  pub customer_id : Str
  pub amount_minor : ℤ
  pub currency : Str
  pub payment_token : Str

pub record GatewayPayout : Type 0 where
  pub reference : Str
  pub beneficiary_id : Str
  pub amount_minor : ℤ
  pub currency : Str
  pub destination : PayoutDestination

-- The bodies of the answers: a charge or a payout that was made, a token, or an error.
pub record MadeCharge : Type 0 where
  pub id : Str
  pub idempotency_key : Str
  pub request : GatewayCharge
  pub created_at : Time

pub record MadePayout : Type 0 where
  pub id : Str
  pub idempotency_key : Str
  pub request : GatewayPayout
  pub created_at : Time

pub record GatewayError : Type 0 where
  pub error : Str
  pub message : Str
  pub charge_id : Str
  pub decline_code : Str
  pub payout_id : Str

pub data Body : Type 0 where
  charge_body : MadeCharge → Body
  payout_body : MadePayout → Body
  token_body : Str → TokenInfo → Body
  error_body : GatewayError → Body

pub record ChargeResult : Type 0 where
  pub request : GatewayCharge
  pub status : ℕ
  pub body : Body

pub record PayoutResult : Type 0 where
  pub request : GatewayPayout
  pub body : MadePayout

pub record Gateway : Type 0 where
  pub supports_idempotency : Bool
  pub by_key : Dict ChargeResult
  pub by_token : Dict TokenInfo
  pub requests : Dict ℕ
  pub real_charges : Dict ℕ
  pub total : ℕ
  pub seq : ℕ
  pub token_seq : ℕ
  pub payout_by_key : Dict PayoutResult
  pub payout_requests : Dict ℕ
  pub real_payouts : Dict ℕ
  pub payout_seq : ℕ

-- `reset`, of a gateway that honours the keys or not.
abbrev pub new_gateway : Bool → Gateway
new_gateway supports = record {
  supports_idempotency = supports;
  by_key = [];
  by_token = [];
  requests = [];
  real_charges = [];
  total = 0;
  seq = 0;
  token_seq = 0;
  payout_by_key = [];
  payout_requests = [];
  real_payouts = [];
  payout_seq = 0;
}

abbrev pub or_zero : Option ℕ → ℕ
or_zero none = 0
or_zero (some n) = n

-- `m[key]` and `m[key]++`.
abbrev pub count_of : Str → Dict ℕ → ℕ
count_of k m = or_zero (lookup k m)

abbrev pub counted : Str → Dict ℕ → Dict ℕ
counted k m = insert k (count_of k m + 1) m

abbrev pub failure : Str → Str → GatewayError
failure error message = record {
  error = error;
  message = message;
  charge_id = [];
  decline_code = [];
  payout_id = [];
}

-- `==` of requests, field by field.
unfoldable pub same_charge : GatewayCharge → GatewayCharge → Bool
same_charge r q =
    str_eq r.reference q.reference
    && str_eq r.customer_id q.customer_id
    && eq_ℤ r.amount_minor q.amount_minor
    && str_eq r.currency q.currency
    && str_eq r.payment_token q.payment_token

abbrev pub same_destination : PayoutDestination → PayoutDestination → Bool
same_destination d e =
    str_eq d.bank_code e.bank_code
    && str_eq d.account_type e.account_type
    && str_eq d.account_number e.account_number

unfoldable pub same_payout : GatewayPayout → GatewayPayout → Bool
same_payout r q =
    str_eq r.reference q.reference
    && str_eq r.beneficiary_id q.beneficiary_id
    && eq_ℤ r.amount_minor q.amount_minor
    && str_eq r.currency q.currency
    && same_destination r.destination q.destination

-- `tokenise`, of a request that decodes.
unfoldable pub tokenise : (ℕ → Str) → Str → Gateway → Gateway × ℕ × Body
unfolding only_digits luhn brand_of has_suffix
tokenise itoa sent g =
    let number = only_digits sent in
    if bad_card number
    then (g, 400, error_body (failure (lit "invalid_card") (lit "the card number is not valid")))
    else let info = info_of number in
      let token = lit "tok_" ++ itoa (g.token_seq + 1) ++ info.last4 in
      (
        record g { token_seq = g.token_seq + 1; by_token = insert token info g.by_token },
        201,
        token_body token info,
      )

-- Why a charge is declined, or `none`.
unfoldable pub decide : GatewayCharge → Gateway → Option Str
unfolding contains_text
decide r g =
    if not (is_empty r.payment_token)
    then elim (lookup r.payment_token g.by_token) [
      | none ↦ some (lit "the payment token is unknown or expired")
      | some info ↦
          if info.declines
          then some (lit "the issuer declined the charge: insufficient_funds")
          else none
    ]
    else if contains_text r.reference (lit "declined")
    then some (lit "the issuer declined the charge")
    else none

abbrev pub replay_status : ℕ → ℕ
replay_status status = if status == 201 then 200 else status

abbrev pub reused : Str → GatewayError
reused message = failure (lit "idempotency_key_reused") message

abbrev pub declined_error : Str → Str → GatewayError
declined_error reason id = record {
  error = lit "payment_declined";
  message = reason;
  charge_id = id;
  decline_code = lit "51";
  payout_id = [];
}

-- The request is counted before it is decided.
abbrev pub charge_counted : Str → Gateway → Gateway
charge_counted key g = record g { requests = counted key g.requests; total = g.total + 1 }

module _ (itoa : ℕ → Str) where
  abbrev pub declined_result : GatewayCharge → Str → Gateway → ChargeResult
  declined_result r reason g = record {
    request = r;
    status = 402;
    body = error_body (declined_error reason (lit "ch-" ++ itoa (g.seq + 1)));
  }

  abbrev pub made_result : Str → GatewayCharge → Time → Gateway → ChargeResult
  made_result key r now g = record {
    request = r;
    status = 201;
    body = charge_body (record {
      id = lit "ch-" ++ itoa (g.seq + 1);
      idempotency_key = key;
      request = r;
      created_at = now;
    });
  }

  -- A key that the gateway did not see, or one that it does not honour.
  unfoldable pub process_new : Str → GatewayCharge → Time → Gateway → Gateway × ℕ × Body
  unfolding decide
  process_new key r now g = elim (decide r g) [
    | some reason ↦
        let res = declined_result r reason g in
        (record g { seq = g.seq + 1; by_key = insert key res g.by_key }, res.status, res.body)
    | none ↦
        let res = made_result key r now g in
        (
          record g {
            seq = g.seq + 1;
            real_charges = counted key g.real_charges;
            by_key = insert key res g.by_key;
          },
          res.status,
          res.body,
        )
  ]

  abbrev pub process_seen :
      Str → GatewayCharge → Time → Option ChargeResult → Gateway → Gateway × ℕ × Body
  process_seen key r now none g = process_new key r now g
  process_seen key r now (some prev) g =
      if not g.supports_idempotency
      then process_new key r now g
      else if same_charge prev.request r
      then (g, replay_status prev.status, prev.body)
      else (
        g,
        422,
        error_body (reused (lit "this Idempotency-Key was used with a different charge")),
      )

  unfoldable pub process : Str → GatewayCharge → Time → Gateway → Gateway × ℕ × Body
  unfolding process_new same_charge
  process key r now g = process_seen key r now (lookup key g.by_key) (charge_counted key g)

  abbrev pub invalid_account : Gateway → GatewayError
  invalid_account g = record {
    error = lit "invalid_destination_account";
    message = lit "the destination account number is not valid according to the bank";
    charge_id = [];
    decline_code = [];
    payout_id = lit "po-" ++ itoa (g.payout_seq + 1);
  }

  abbrev pub made_payout : Str → GatewayPayout → Time → Gateway → MadePayout
  made_payout key r now g = record {
    id = lit "po-" ++ itoa (g.payout_seq + 1);
    idempotency_key = key;
    request = r;
    created_at = now;
  }

  unfoldable pub pay_new : Str → GatewayPayout → Time → Gateway → Gateway × ℕ × Body
  unfolding only_digits has_suffix
  pay_new key r now g =
      if has_suffix (only_digits r.destination.account_number) (lit "89")
      then (record g { payout_seq = g.payout_seq + 1 }, 422, error_body (invalid_account g))
      else (
        record g {
          payout_seq = g.payout_seq + 1;
          real_payouts = counted key g.real_payouts;
          payout_by_key =
              insert key (record { request = r; body = made_payout key r now g }) g.payout_by_key;
        },
        201,
        payout_body (made_payout key r now g),
      )

  abbrev pub pay_seen :
      Str → GatewayPayout → Time → Option PayoutResult → Gateway → Gateway × ℕ × Body
  pay_seen key r now none g = pay_new key r now g
  pay_seen key r now (some prev) g =
      if not g.supports_idempotency
      then pay_new key r now g
      else if same_payout prev.request r
      then (g, 200, payout_body prev.body)
      else (
        g,
        422,
        error_body (reused (lit "this Idempotency-Key already paid a different payout")),
      )

  unfoldable pub process_payout : Str → GatewayPayout → Time → Gateway → Gateway × ℕ × Body
  unfolding pay_new
  process_payout key r now g =
      pay_seen key r now (lookup key g.payout_by_key)
        (record g { payout_requests = counted key g.payout_requests })

unfoldable pub valid_charge_request : GatewayCharge → Bool
unfolding only_digits
valid_charge_request r =
    not (
      is_empty r.reference
      || is_empty r.customer_id
      || leb_ℤ r.amount_minor (pos 0)
      || is_empty r.currency
      || ltb 256 (byte_len r.reference)
      || ltb 256 (byte_len r.customer_id)
      || ltb 8 (byte_len r.currency))
    && not (
        ltb 128 (byte_len r.payment_token)
        || leb 13 (length (only_digits r.payment_token))
          && str_eq (only_digits r.payment_token) r.payment_token)

unfoldable pub valid_payout : GatewayPayout → Bool
unfolding only_digits
valid_payout r =
    let account = only_digits r.destination.account_number in
    not (is_empty r.reference)
    && not (is_empty r.beneficiary_id)
    && not (leb_ℤ r.amount_minor (pos 0))
    && not (is_empty r.currency)
    && leb (byte_len r.reference) 256
    && leb (byte_len r.beneficiary_id) 256
    && leb (byte_len r.currency) 8
    && not (is_empty r.destination.bank_code)
    && leb (byte_len r.destination.bank_code) 16
    && leb (byte_len r.destination.account_type) 32
    && leb 6 (length account)
    && leb (length account) 20
    && leb (byte_len r.destination.account_number) 32

abbrev pub bad_key : Str → Bool
bad_key key = is_empty key || ltb 255 (byte_len key)

abbrev refuse : Gateway → Str → Gateway × ℕ × Body
refuse g message = (g, 400, error_body (failure (lit "invalid_request") message))

-- The handlers, of a request that decodes.
unfoldable pub handle_charge : (ℕ → Str) → Str → GatewayCharge → Time → Gateway → Gateway × ℕ × Body
unfolding trim_space valid_charge_request process
handle_charge itoa header r now g =
    let key = trim_space header in
    if bad_key key
    then refuse g (lit "the Idempotency-Key header (up to 255 characters) is required")
    else if not (valid_charge_request r)
    then refuse g (lit "reference, customer_id, a positive amount_minor and currency are required")
    else process itoa key r now g

unfoldable pub handle_payout : (ℕ → Str) → Str → GatewayPayout → Time → Gateway → Gateway × ℕ × Body
unfolding trim_space valid_payout process_payout
handle_payout itoa header r now g =
    let key = trim_space header in
    if bad_key key
    then refuse g (lit "the Idempotency-Key header (up to 255 characters) is required")
    else if not (valid_payout r)
    then refuse g (
        lit
          "reference, beneficiary_id, a positive amount_minor, currency and a destination with bank_code and a 6 to 20 digit account_number are required")
    else process_payout itoa key r now g
