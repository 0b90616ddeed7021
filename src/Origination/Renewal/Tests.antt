-- ===== src/Origination/Renewal/Tests.antt =====
-- The renewals on concrete policies.
use misw4501_202614_grupo.Base.{◌≡◌, refl, true, false, none, some, List, [], ◌∷◌, ok, arith}
use misw4501_202614_grupo.Base.Int.{ℤ, pos}
use misw4501_202614_grupo.Base.Text.{Str, lit, str_eq}
use misw4501_202614_grupo.Base.Dict.{lookup}
use misw4501_202614_grupo.Base.Clock.{Time}
use misw4501_202614_grupo.Idempotency.{Status, Outcome}
use misw4501_202614_grupo.Origination.Charge.{Charge, policy_id_for}
use misw4501_202614_grupo.Origination.Charge.Store.{claim, confirm}
use misw4501_202614_grupo.Origination.Charge.Samples.{
  digit, add_months, lease, snapshot, due_charge, one,
}
use misw4501_202614_grupo.Origination.Renewal.{
  Renewal, accepted, not_renewed, payment_failed, default_renewal_policy,
}
use misw4501_202614_grupo.Origination.Renewal.Store.{Portfolio, find_period}
use misw4501_202614_grupo.Origination.Renewal.Service.{settle}
use misw4501_202614_grupo.Origination.Renewal.Outcome.{settle-lapsed_then_charged}
use misw4501_202614_grupo.Origination.Renewal.Rows.{Follows}
use misw4501_202614_grupo.Origination.Renewal.Periods.{
  Event, sweeps, bills, happen_all, one_outcome,
}

abbrev add_days : Time → ℤ → Time
add_days t n = t

abbrev day : Time → Str
day t = lit "2027-01-01"

abbrev renewal : Renewal
renewal = record {
  id = lit "ren-pol-1";
  policy_id = lit "pol-1";
  customer_id = lit "ana";
  period_end = 50;
  status = accepted;
  reason = none;
  terms = snapshot.terms;
  premium = pos 8_950_000;
  currency = lit "COP";
  discount_rate = 0;
  requoted = true;
  charge_id = lit "7";
  new_policy_id = [];
  accepted_at = 1;
  retry_until = 60;
  closed_at = 0;
  notified_at = 0;
  notification_failed = false;
  created_at = 1;
}

abbrev portfolio : Portfolio
portfolio = record { policies = []; renewals = renewal ∷ []; billing = one due_charge }

abbrev answer : Outcome
answer = record { reference = lit "ch-1" }

settle-lapsed_then_charged_example :
    let (after, closed) = settle renewal 60 portfolio in
    let (claimed, found) = claim (lit "7") 60 (pos lease) after.billing in
    (find_period (lit "pol-1") 50 after.renewals ≡ some closed)
    × (closed.status ≡ not_renewed)
    × (closed.reason ≡ some payment_failed)
    × (after.billing ≡ portfolio.billing)
    × (rec : Charge) × (found ≡ ok (some rec))
    × (let (charged, reply) = confirm add_months rec 61 answer claimed in
        (paid : Charge) × (reply ≡ ok paid)
        × (lookup (lit "7") charged.charges ≡ some paid)
        × (paid.status ≡ Status.confirmed)
        × (paid.activation.policy_id ≡ policy_id_for (lit "7"))
        × ((later : List Event)
            → (q : Renewal) × (find_period
                  (lit "pol-1")
                  50
                  (happen_all digit add_months add_days day default_renewal_policy
                    (record after { billing = charged })
                    later).renewals
                ≡ some q)
              × (q.status ≡ not_renewed)
              × (q.reason ≡ some payment_failed)))
unfolding find_period lookup str_eq
settle-lapsed_then_charged_example =
    settle-lapsed_then_charged digit add_months add_days day default_renewal_policy renewal
      due_charge portfolio 60 61 lease answer refl refl refl refl refl refl refl refl (omega arith)

abbrev events : List Event
events = sweeps none 60 ∷ bills (one due_charge) ∷ sweeps none 70 ∷ []

one_outcome_example :
    (q : Renewal) × (find_period
        (lit "pol-1")
        50
        (happen_all digit add_months add_days day default_renewal_policy portfolio events).renewals
      ≡ some q)
    × Follows renewal q
unfolding find_period str_eq
one_outcome_example =
    one_outcome digit add_months add_days day default_renewal_policy portfolio events (lit "pol-1")
      50 renewal refl
