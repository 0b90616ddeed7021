-- ===== src/Origination/Renewal/Worker.antt =====
-- The sweep of the renewals and the projection of the activations,
-- services/origination/internal/renewal/worker.go. The provider of the notices is a parameter.
use misw4501_202614_grupo.Base.{
  ℕ, ◌+◌, ◌*◌, ◌-◌, Bool, true, false, Option, none, some, List, [], ◌∷◌, Result, ok, err,
  if◌then◌else◌,
}
use misw4501_202614_grupo.Base.Int.{ℤ, pos}
use misw4501_202614_grupo.Base.Text.{Str}
use misw4501_202614_grupo.Base.Clock.{Time, zero_time, second}
use misw4501_202614_grupo.Origination.Activation.{Policy, CoverageActivated, policy_from}
use misw4501_202614_grupo.Origination.Renewal.{
  RenewalPolicy, Renewal, not_renewed, no_response, renewal_id,
}
use misw4501_202614_grupo.Origination.Renewal.Store.{
  Portfolio, RenewalError, create_renewal, list_accepted, list_unnotified, mark_notified,
  create_policy, get_policy, list_lapsed,
}
use misw4501_202614_grupo.Origination.Renewal.Service.{settle}

module _ (itoa : ℕ → Str) (add_months add_days : Time → ℤ → Time) (format_day : Time → Str)
    (rules : RenewalPolicy) where
  abbrev pub lapse : Time → Policy → Renewal
  lapse now policy = record {
    id = renewal_id format_day policy.id policy.coverage_end;
    policy_id = policy.id;
    customer_id = policy.customer_id;
    period_end = policy.coverage_end;
    status = not_renewed;
    reason = some no_response;
    terms = record { insured_amount = pos 0; term_months = pos 0; coverages = [] };
    premium = pos 0;
    currency = policy.currency;
    discount_rate = 0;
    requoted = false;
    charge_id = [];
    new_policy_id = [];
    accepted_at = zero_time;
    retry_until = zero_time;
    closed_at = now;
    notified_at = zero_time;
    notification_failed = false;
    created_at = now;
  }

  abbrev pub count_created : ℕ → Portfolio × Result RenewalError (Renewal × Bool) → Portfolio × ℕ
  count_created n (p, ok (_, true)) = (p, n + 1)
  count_created n (p, ok (_, false)) = (p, n)
  count_created n (p, err _) = (p, n)

  unfoldable pub lapse_all : Time → List Policy → Portfolio × ℕ → Portfolio × ℕ
  unfolding create_renewal
  lapse_all now [] z = z
  lapse_all now (policy ∷ rest) (p, n) =
      lapse_all now rest (count_created n (create_renewal (lapse now policy) p))

  unfoldable pub settle_all : Time → List Renewal → Portfolio → Portfolio
  unfolding settle
  settle_all now [] p = p
  settle_all now (r ∷ rs) p = settle_all now rs (settle r now p).0

  -- The notices: a renewal is marked when the provider took the notice of its policy.
  unfoldable pub notify_all :
      (Policy → Renewal → Bool) → Time → List Renewal → Portfolio → Portfolio
  unfolding get_policy mark_notified
  notify_all send now [] p = p
  notify_all send now (r ∷ rs) p = elim (get_policy r.policy_id p) [
    | err _ ↦ notify_all send now rs p
    | ok policy ↦
        notify_all send now rs (if send policy r then mark_notified r.id now false p else p)
  ]

  -- The lapses and the payments of a sweep.
  unfoldable pub close_windows : Time → Portfolio → Portfolio × ℕ
  unfolding list_lapsed list_accepted lapse_all settle_all
  close_windows now p =
      let lapsed = list_lapsed (now - 30 * 24 * 3600 * second) now 100 p in
      let (p1, recorded) = lapse_all now lapsed (p, 0) in
      (settle_all now (list_accepted 100 p1) p1, recorded)

  -- `Service.Sweep`, with the number of the lapses that it records.
  unfoldable pub sweep : Option (Policy → Renewal → Bool) → Time → Portfolio → Portfolio × ℕ
  unfolding close_windows list_unnotified notify_all
  sweep none now p = close_windows now p
  sweep (some send) now p =
      let (q, recorded) = close_windows now p in
      (notify_all send now (list_unnotified 100 q) q, recorded)

-- `Projector.Receive`.
unfoldable pub receive : CoverageActivated → Portfolio → Portfolio
unfolding policy_from create_policy
receive e p = create_policy (policy_from e) p
