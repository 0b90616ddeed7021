-- ===== src/Origination/Renewal/Periods.antt =====
-- The renewals of the portal under every sequence of requests and sweeps, with the charges changing
-- meanwhile.
use misw4501_202614_grupo.Base.{
  ℕ, ◌-◌, ◌*◌, ◌≡◌, refl, inl, inr, Bool, true, false, not, ◌&&◌, Option, none, some, List, [], ◌∷◌,
  Result, ok, err, Option-cases, Result-cases, Bool-cases,
}
use misw4501_202614_grupo.Base.Int.{ℤ}
use misw4501_202614_grupo.Base.Text.{Str}
use misw4501_202614_grupo.Base.Clock.{Time, second}
use misw4501_202614_grupo.Base.Dict.{lookup}
use misw4501_202614_grupo.Security.{Identity}
use misw4501_202614_grupo.Origination.Charge.{Charge}
use misw4501_202614_grupo.Origination.Charge.Store.{ChargeStore}
use misw4501_202614_grupo.Origination.Activation.{
  Policy, CoverageActivated, policy_from, validate_activation,
}
use misw4501_202614_grupo.Origination.Renewal.{
  Renewal, RenewalPolicy, in_window, valid_renewal, new_renewal_charge,
}
use misw4501_202614_grupo.Origination.Renewal.Store.{
  Portfolio, RenewalError, is_not_renewed, find_period, create_renewal, get_renewal, create_policy,
  get_policy, list_lapsed, list_accepted, list_unnotified, mark_notified,
}
use misw4501_202614_grupo.Origination.Renewal.Service.{
  RequestError, Quote, owned_policy, settle, finish, finish_stored, accepted_with, accepted_renewal,
  accept_new, accept, status,
}
use misw4501_202614_grupo.Origination.Renewal.Worker.{
  lapse, lapse_all, count_created, settle_all, notify_all, close_windows, sweep, receive,
}
use misw4501_202614_grupo.Origination.Renewal.Rows.{
  Follows, Keeps, Keeps-refl, Keeps-trans, mark_notified-Keeps, create_renewal-Keeps, settle-Keeps,
}

-- What can happen: a request of an insured to accept a renewal or to see it, a sweep, an activation,
-- and whatever the billing makes of the charges.
pub data Event : Type 0 where
  accepts : Option Identity → Str → (Policy → Quote) → Time → Event
  looks : Option Identity → Str → Time → Event
  sweeps : Option (Policy → Renewal → Bool) → Time → Event
  activates : CoverageActivated → Event
  bills : ChargeStore → Event

module _ (itoa : ℕ → Str) (add_months add_days : Time → ℤ → Time) (format_day : Time → Str)
    (rules : RenewalPolicy) where
  unfoldable pub happen : Portfolio → Event → Portfolio
  unfolding accept status sweep receive
  happen p (accepts caller id requote now) =
      (accept itoa add_months add_days format_day rules caller id requote now p).0
  happen p (looks caller id now) =
      (status itoa add_months add_days format_day rules caller id now p).0
  happen p (sweeps notifier now) =
      (sweep itoa add_months add_days format_day rules notifier now p).0
  happen p (activates e) = receive e p
  happen p (bills s) = record p { billing = s }

  unfoldable pub happen_all : Portfolio → List Event → Portfolio
  unfolding happen
  happen_all p [] = p
  happen_all p (e ∷ es) = happen_all (happen p e) es

  accepted_with-renewals :
      (p : Portfolio) (r : Renewal) (created : Bool) (z : ChargeStore × Result RequestError Charge)
      → (accepted_with p r created z).0.renewals ≡ p.renewals
  accepted_with-renewals p r created (s, ok c) = refl
  accepted_with-renewals p r created (s, err e) = refl

  finish-renewals :
      (policy : Policy) (r : Renewal) (created : Bool) (now : Time) (p : Portfolio)
      → (finish itoa add_months add_days format_day rules policy r created now p).0.renewals
        ≡ p.renewals
  unfolding finish
  finish-renewals policy r created now p =
      let c = new_renewal_charge itoa policy r now in
      elim (Option-cases (validate_activation add_months now c)) [
        | inr (x, e) ↦ rw (finish, e) refl
        | inl e ↦ rw (finish, e) (accepted_with-renewals p r created _)
      ]

  finish_stored-renewals :
      (policy : Policy) (now : Time) (z : Portfolio × Result RenewalError (Renewal × Bool))
      → (finish_stored itoa add_months add_days format_day rules policy now z).0.renewals
        ≡ z.0.renewals
  finish_stored-renewals policy now (p, err e) = refl
  finish_stored-renewals policy now (p, ok (stored, created)) =
      elim (Bool-cases (not created && is_not_renewed stored.status)) [
        | inl b ↦ rw b refl
        | inr b ↦ rw b (finish-renewals policy stored created now p)
      ]

  accept_new-Keeps :
      (policy : Policy) (requote : Policy → Quote) (now : Time) (p : Portfolio)
      → Keeps p.renewals
          (accept_new itoa add_months add_days format_day rules policy requote now p).0.renewals
  unfolding accept_new
  accept_new-Keeps policy requote now p =
      let r =
        accepted_renewal itoa add_months add_days format_day rules policy (requote policy) now in
      elim (Bool-cases (not (in_window add_days rules policy now))) [
        | inl b ↦ rw (accept_new, b) (Keeps-refl p.renewals)
        | inr b ↦ elim (Bool-cases (not (valid_renewal r))) [
          | inl d ↦ rw (accept_new, b, d) (Keeps-refl p.renewals)
          | inr d ↦
              rw (accept_new, b, d, finish_stored-renewals policy now (create_renewal r p))
                (create_renewal-Keeps r p)
        ]
      ]

  accept-Keeps :
      (caller : Option Identity) (id : Str) (requote : Policy → Quote) (now : Time) (p : Portfolio)
      → Keeps p.renewals
          (accept itoa add_months add_days format_day rules caller id requote now p).0.renewals
  unfolding accept
  accept-Keeps caller id requote now p = elim (Result-cases (owned_policy caller id p)) [
    | inl (x, e) ↦ rw (accept, e) (Keeps-refl p.renewals)
    | inr (policy, e) ↦ elim (Result-cases (get_renewal policy.id policy.coverage_end p)) [
      | inl (x, f) ↦ rw (accept, e, f) (accept_new-Keeps policy requote now p)
      | inr (r, f) ↦ elim (Bool-cases (is_not_renewed r.status)) [
        | inl b ↦ rw (accept, e, f, b) (Keeps-refl p.renewals)
        | inr b ↦ rw (accept, e, f, b, finish-renewals policy r false now p) (Keeps-refl p.renewals)
      ]
    ]
  ]

  status-Keeps :
      (caller : Option Identity) (id : Str) (now : Time) (p : Portfolio)
      → Keeps p.renewals
          (status itoa add_months add_days format_day rules caller id now p).0.renewals
  unfolding status
  status-Keeps caller id now p = elim (Result-cases (owned_policy caller id p)) [
    | inl (x, e) ↦ rw (status, e) (Keeps-refl p.renewals)
    | inr (policy, e) ↦ elim (Result-cases (get_renewal policy.id policy.coverage_end p)) [
      | inl (x, f) ↦ rw (status, e, f) (Keeps-refl p.renewals)
      | inr (r, f) ↦ rw (status, e, f) (settle-Keeps r now p)
    ]
  ]

  count_created-renewals :
      (n : ℕ) (z : Portfolio × Result RenewalError (Renewal × Bool))
      → (count_created itoa add_months add_days format_day rules n z).0 ≡ z.0
  count_created-renewals n (p, ok (r, true)) = refl
  count_created-renewals n (p, ok (r, false)) = refl
  count_created-renewals n (p, err e) = refl

  lapse_all-Keeps :
      (now : Time) (policies : List Policy) (p : Portfolio) (n : ℕ)
      → Keeps p.renewals
          (lapse_all itoa add_months add_days format_day rules now policies (p, n)).0.renewals
  unfolding lapse_all
  lapse_all-Keeps now [] p n = Keeps-refl p.renewals
  lapse_all-Keeps now (policy ∷ rest) p n =
      let r = lapse itoa add_months add_days format_day rules now policy in
      let z = count_created itoa add_months add_days format_day rules n (create_renewal r p) in
      Keeps-trans p.renewals z.0.renewals
        (lapse_all itoa add_months add_days format_day rules now rest z).0.renewals
        (rw (count_created-renewals n (create_renewal r p)) (create_renewal-Keeps r p))
        (lapse_all-Keeps now rest z.0 z.1)

  settle_all-Keeps :
      (now : Time) (rs : List Renewal) (p : Portfolio)
      → Keeps p.renewals (settle_all itoa add_months add_days format_day rules now rs p).renewals
  unfolding settle_all
  settle_all-Keeps now [] p = Keeps-refl p.renewals
  settle_all-Keeps now (r ∷ rs) p =
      Keeps-trans p.renewals (settle r now p).0.renewals
        (settle_all itoa add_months add_days format_day rules now rs (settle r now p).0).renewals
        (settle-Keeps r now p) (settle_all-Keeps now rs (settle r now p).0)

  notify_all-Keeps :
      (send : Policy → Renewal → Bool) (now : Time) (rs : List Renewal) (p : Portfolio)
      → Keeps p.renewals
          (notify_all itoa add_months add_days format_day rules send now rs p).renewals
  unfolding notify_all
  notify_all-Keeps send now [] p = Keeps-refl p.renewals
  notify_all-Keeps send now (r ∷ rs) p = elim (Result-cases (get_policy r.policy_id p)) [
    | inl (x, e) ↦ rw (notify_all, e) (notify_all-Keeps send now rs p)
    | inr (policy, e) ↦ elim (Bool-cases (send policy r)) [
      | inr b ↦ rw (notify_all, e, b) (notify_all-Keeps send now rs p)
      | inl b ↦
          let q = mark_notified r.id now false p in
          rw (notify_all, e, b)
            (Keeps-trans p.renewals q.renewals
              (notify_all itoa add_months add_days format_day rules send now rs q).renewals
              (mark_notified-Keeps r.id now false p) (notify_all-Keeps send now rs q))
    ]
  ]

  close_windows-Keeps :
      (now : Time) (p : Portfolio)
      → Keeps p.renewals (close_windows itoa add_months add_days format_day rules now p).0.renewals
  unfolding close_windows
  close_windows-Keeps now p =
      let lapsed = list_lapsed (now - 30 * 24 * 3600 * second) now 100 p in
      let p1 = (lapse_all itoa add_months add_days format_day rules now lapsed (p, 0)).0 in
      Keeps-trans p.renewals p1.renewals
        (settle_all itoa add_months add_days format_day rules now (list_accepted 100 p1)
          p1).renewals
        (lapse_all-Keeps now lapsed p 0) (settle_all-Keeps now (list_accepted 100 p1) p1)

  receive-Keeps : (e : CoverageActivated) (p : Portfolio) → Keeps p.renewals (receive e p).renewals
  unfolding receive create_policy
  receive-Keeps e p = elim (Option-cases (lookup (policy_from e).id p.policies)) [
    | inl f ↦ rw (receive, create_policy, f) (Keeps-refl p.renewals)
    | inr (q, f) ↦ rw (receive, create_policy, f) (Keeps-refl p.renewals)
  ]

  sweep-Keeps :
      (notifier : Option (Policy → Renewal → Bool)) (now : Time) (p : Portfolio)
      → Keeps p.renewals (sweep itoa add_months add_days format_day rules notifier now p).0.renewals
  unfolding sweep
  sweep-Keeps none now p = close_windows-Keeps now p
  sweep-Keeps (some send) now p =
      let q = (close_windows itoa add_months add_days format_day rules now p).0 in
      Keeps-trans p.renewals q.renewals
        (notify_all itoa add_months add_days format_day rules send now (list_unnotified 100 q)
          q).renewals
        (close_windows-Keeps now p) (notify_all-Keeps send now (list_unnotified 100 q) q)

  happen-Keeps : (p : Portfolio) (e : Event) → Keeps p.renewals (happen p e).renewals
  unfolding happen
  happen-Keeps p (accepts caller id requote now) = accept-Keeps caller id requote now p
  happen-Keeps p (looks caller id now) = status-Keeps caller id now p
  happen-Keeps p (sweeps notifier now) = sweep-Keeps notifier now p
  happen-Keeps p (activates e) = receive-Keeps e p
  happen-Keeps p (bills s) = Keeps-refl p.renewals

  happen_all-Keeps : (p : Portfolio) (es : List Event) → Keeps p.renewals (happen_all p es).renewals
  unfolding happen_all
  happen_all-Keeps p [] = Keeps-refl p.renewals
  happen_all-Keeps p (e ∷ es) =
      Keeps-trans p.renewals (happen p e).renewals (happen_all (happen p e) es).renewals
        (happen-Keeps p e) (happen_all-Keeps (happen p e) es)

  -- Whatever requests, sweeps and activations come, in whatever order and whatever becomes of the
  -- charges meanwhile: the period of a policy that has a renewal keeps it, under its id, and once that
  -- renewal has an outcome its status, its reason and the policy that it created stay what they are.
  pub one_outcome :
      (p : Portfolio) (es : List Event) (policy_id : Str) (period_end : Time) (r : Renewal)
      → find_period policy_id period_end p.renewals ≡ some r
      → (q : Renewal) × (find_period policy_id period_end (happen_all p es).renewals ≡ some q)
        × Follows r q
  one_outcome p es policy_id period_end r = happen_all-Keeps p es policy_id period_end r
