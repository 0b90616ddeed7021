-- ===== src/Payments/Tests.antt =====
-- The gateway and its client on concrete requests.
use misw4501_202614_grupo.Base.{ℕ, ◌+◌, ◌≤◌, ◌≡◌, refl, ◌↔◌, true, some, List, [], ◌∷◌, err}
use misw4501_202614_grupo.Base.Int.{pos, eq_ℤ}
use misw4501_202614_grupo.Base.Text.{Str, lit, str_eq}
use misw4501_202614_grupo.Base.Dict.{lookup, insert}
use misw4501_202614_grupo.Idempotency.{CallOutcome, classify}
use misw4501_202614_grupo.Payments.{charging, Reply, breaker_open, replied, call}
use misw4501_202614_grupo.Payments.Cards.{luhn}
use misw4501_202614_grupo.Payments.Gateway.{
  GatewayCharge, new_gateway, count_of, handle_charge, replay_status,
}
use misw4501_202614_grupo.Payments.Gateway.Once.{
  Request, ask_charge, ask_token, serve_all, status_of, charged_once,
}
use misw4501_202614_grupo.Payments.Gateway.Replay.{replayed}
use misw4501_202614_grupo.Payments.Outcomes.{error_of, Succeeded, Refused, call-classify}

-- The decimal text of a digit.
abbrev digit : ℕ → Str
digit n = (n + 0x30) ∷ []

abbrev premium : GatewayCharge
premium = record {
  reference = lit "off-1";
  customer_id = lit "ana";
  amount_minor = pos 8_950_000;
  currency = lit "COP";
  payment_token = [];
}

-- The same charge with a card.
abbrev by_card : GatewayCharge
by_card = record premium { payment_token = lit "tok_11111" }

abbrev requests : List Request
requests =
    ask_token (lit "4111 1111 1111 1111")
    ∷ ask_charge (lit "cobro-1") premium 5
    ∷ ask_charge (lit "cobro-1") premium 6
    ∷ ask_charge (lit "cobro-1") by_card 7
    ∷ ask_charge (lit "cobro-1-2") by_card 8
    ∷ []

approved_card : luhn (lit "4111111111111111") ≡ true
unfolding luhn
approved_card = refl

-- Two keys of one acceptance are two charges.
two_charges :
    (count_of (lit "cobro-1") (serve_all digit (new_gateway true) requests).real_charges ≡ 1)
    × (count_of (lit "cobro-1-2") (serve_all digit (new_gateway true) requests).real_charges ≡ 1)
unfolding serve_all lookup insert str_eq eq_ℤ
two_charges = (refl, refl)

charged_once_example :
    let g = serve_all digit (new_gateway true) requests in
    (count_of (lit "cobro-1") g.real_charges ≤ 1)
    × (count_of (lit "cobro-1") g.real_payouts ≤ 1)
    × ((count_of (lit "cobro-1") g.real_charges ≡ 1)
        ↔ (status_of (lookup (lit "cobro-1") g.by_key) ≡ some 201))
charged_once_example = charged_once digit requests (lit "cobro-1")

replayed_example :
    let first = handle_charge digit (lit "cobro-1") premium 1 (new_gateway true) in
    let again = handle_charge digit (lit "cobro-1") premium 9 (serve_all digit first.0 requests) in
    (again.1 ≡ replay_status first.1) × (again.2 ≡ first.2)
replayed_example = replayed digit (lit "cobro-1") premium 1 9 (new_gateway true) requests refl

abbrev declined : Reply Str
declined = record {
  status = 402;
  value = err (lit "no charge");
  error_body = record {
    error = lit "payment_declined";
    decline_code = lit "51";
    charge_id = lit "ch-1";
    payout_id = [];
  };
}

call-classify_example :
    let outcome = classify (error_of (call digit charging (replied declined))) in
    ((outcome ≡ CallOutcome.confirmed) ↔ Succeeded (replied declined))
    × ((outcome ≡ CallOutcome.rejected) ↔ Refused (replied declined))
    × ((outcome ≡ CallOutcome.not_sent) ↔ (replied declined ≡ breaker_open))
call-classify_example = call-classify digit charging (replied declined)
