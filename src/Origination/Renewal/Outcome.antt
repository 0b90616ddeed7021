-- ===== src/Origination/Renewal/Outcome.antt =====
-- The outcome of a period of a policy: there is one, and it does not change.
use misw4501_202614_grupo.Base.{
  ℕ, ◌≤◌, ◌≡◌, refl, sym, ap, ◌∙◌, ◌&&◌, inl, inr, Bool, true, false, some, List, [], ◌∷◌, ok,
  arith, Bool-cases,
}
use misw4501_202614_grupo.Base.Int.{ℤ, pos}
use misw4501_202614_grupo.Base.Text.{Str, str_eq, str_eq_refl, is_empty}
use misw4501_202614_grupo.Base.Dict.{lookup, lookup-insert_self}
use misw4501_202614_grupo.Base.Clock.{Time}
use misw4501_202614_grupo.Idempotency.{Status, Outcome}
use misw4501_202614_grupo.Origination.Charge.{Charge, policy_id_for, confirmed_charge}
use misw4501_202614_grupo.Origination.Charge.Store.{
  ChargeStore, is_confirmed, get, reached, due, holds_charge, update, write, claim, claimed_charge,
  confirm, confirmed_row,
}
use misw4501_202614_grupo.Origination.Renewal.{
  Renewal, RenewalPolicy, NotRenewedReason, accepted, not_renewed, payment_failed,
}
use misw4501_202614_grupo.Origination.Renewal.Store.{
  Portfolio, is_accepted, is_period, find_period, close_rows, not_renewed_row, mark_not_renewed,
}
use misw4501_202614_grupo.Origination.Renewal.Rows.{Follows}
use misw4501_202614_grupo.Origination.Renewal.Periods.{Event, happen_all, one_outcome}
use misw4501_202614_grupo.Origination.Renewal.Service.{settle, given_up, changed, settled_failed}

changed-true :
    (before after : Renewal) (z : Portfolio × Bool)
    → z.1 ≡ true
    → changed before after z ≡ (z.0, after)
changed-true before after (p, true) e = refl
changed-true before after (p, false) e = absurd (ground arith)

some_inj : {x y : Renewal} → some x ≡ some y → x ≡ y
some_inj e = cc

-- The row of an accepted renewal is closed by its id.
close_rows-period :
    (why : NotRenewedReason) (now : Time) (policy_id : Str) (period_end : Time) (r : Renewal)
    (rows : List Renewal)
    → r.status ≡ accepted
    → find_period policy_id period_end rows ≡ some r
    → let z = close_rows r.id (not_renewed_row why now) rows in
      (find_period policy_id period_end z.0 ≡ some (not_renewed_row why now r)) × (z.1 ≡ true)
unfolding find_period close_rows
close_rows-period why now policy_id period_end r [] a e = absurd (ground arith)
close_rows-period why now policy_id period_end r (x ∷ rows) a e =
    elim (Bool-cases (is_period policy_id period_end x)) [
      | inl b ↦
          let same : x ≡ r = some_inj (rw b at e) in
          let closes : (str_eq x.id r.id && is_accepted x.status) ≡ true =
            rw same (ground (arith, str_eq_refl r.id)) in
          rw (close_rows, closes, b) (ap (λ q. some (not_renewed_row why now q)) same, refl)
      | inr b ↦
          let (f, g) = close_rows-period why now policy_id period_end r rows a (rw b at e) in
          elim (Bool-cases (str_eq x.id r.id && is_accepted x.status)) [
            | inl d ↦ rw (close_rows, d, b) (f, refl)
            | inr d ↦ rw (close_rows, d, b) (f, g)
          ]
    ]

settle-given_up :
    (r : Renewal) (c : Charge) (p : Portfolio) (now : Time)
    → r.status ≡ accepted
    → is_empty r.charge_id ≡ false
    → (close_rows r.id (not_renewed_row payment_failed now) p.renewals).1 ≡ true
    → lookup r.charge_id p.billing.charges ≡ some c
    → c.status ≡ Status.pending
    → given_up now r c ≡ true
    → settle r now p ≡ ((mark_not_renewed r.id payment_failed now p).0, settled_failed now r)
unfolding settle get mark_not_renewed
settle-given_up r c p now st ne row found pending up =
    let open_yet : is_confirmed c.status ≡ false = ap is_confirmed pending in
    rw (settle, st, ne, get, found, open_yet, up)
      (changed-true r (settled_failed now r) (mark_not_renewed r.id payment_failed now p) row)

claim-due :
    (id : Str) (c : Charge) (s : ChargeStore) (now : Time) (lease : ℕ)
    → lookup id s.charges ≡ some c
    → due now c ≡ true
    → claim id now (pos lease) s ≡ (
      write id (claimed_charge now (pos lease) c) s,
      ok (some (claimed_charge now (pos lease) c)),
    )
unfolding claim update
claim-due id c s now lease e d = rw (claim, update, e, d) refl

confirm-held :
    (add_months : Time → ℤ → Time) (rec : Charge) (now : Time) (out : Outcome) (s : ChargeStore)
    → lookup rec.acceptance_id s.charges ≡ some rec
    → holds_charge rec rec ≡ true
    → let paid = confirmed_row now (confirmed_charge add_months now out.reference rec) rec in
      confirm add_months rec now out s ≡ (write rec.acceptance_id paid s, ok paid)
unfolding confirm update
confirm-held add_months rec now out s e h = rw (confirm, update, e, h) refl

claimed-row :
    (id : Str) (c : Charge) (s : ChargeStore) (now : Time) (lease : ℕ)
    → c.acceptance_id ≡ id
    → lookup c.acceptance_id (write id (claimed_charge now (pos lease) c) s).charges
      ≡ some (claimed_charge now (pos lease) c)
unfolding write
claimed-row id c s now lease e =
    rw (sym e) (lookup-insert_self c.acceptance_id (claimed_charge now (pos lease) c) s.charges)

write-row : (id : Str) (c : Charge) (s : ChargeStore) → lookup id (write id c s).charges ≡ some c
unfolding write
write-row id c s = lookup-insert_self id c s.charges

closed-lasts :
    (r q : Renewal)
    → r.status ≡ not_renewed
    → r.reason ≡ some payment_failed
    → Follows r q
    → (q.status ≡ not_renewed) × (q.reason ≡ some payment_failed)
closed-lasts r q st why f =
    let kept = f.outcome_eq (ap is_accepted st) in (kept.0 ∙ st, kept.1 ∙ why)

module _ (itoa : ℕ → Str) (add_months add_days : Time → ℤ → Time) (format_day : Time → Str)
    (rules : RenewalPolicy) where
  -- An accepted renewal, the row of its period, at its deadline, whose charge is in the table under its
  -- acceptance, pending, due and not tried yet: the row of the period becomes not renewed, for a payment
  -- that failed, while the charges stay as they were. A worker then claims the charge and confirms it,
  -- with the policy of the renewal, and the period is and stays not renewed, whatever requests, sweeps
  -- and activations come later.
  pub settle-lapsed_then_charged :
      (r : Renewal) (c : Charge) (p : Portfolio) (now answered : Time) (lease : ℕ) (out : Outcome)
      → find_period r.policy_id r.period_end p.renewals ≡ some r
      → r.status ≡ accepted
      → is_empty r.charge_id ≡ false
      → lookup r.charge_id p.billing.charges ≡ some c
      → c.acceptance_id ≡ r.charge_id
      → c.status ≡ Status.pending
      → c.attempts ≡ 0
      → reached c.next_attempt_at now ≡ true
      → r.retry_until ≤ now
      → let (after, closed) = settle r now p in
        let (claimed, found) = claim r.charge_id now (pos lease) after.billing in
        (find_period r.policy_id r.period_end after.renewals ≡ some closed)
        × (closed.status ≡ not_renewed)
        × (closed.reason ≡ some payment_failed)
        × (after.billing ≡ p.billing)
        × (rec : Charge) × (found ≡ ok (some rec))
        × (let (charged, answer) = confirm add_months rec answered out claimed in
            (paid : Charge) × (answer ≡ ok paid)
            × (lookup r.charge_id charged.charges ≡ some paid)
            × (paid.status ≡ Status.confirmed)
            × (paid.activation.policy_id ≡ policy_id_for r.charge_id)
            × ((later : List Event)
                → (q : Renewal) × (find_period r.policy_id r.period_end
                      (happen_all itoa add_months add_days format_day rules
                        (record after { billing = charged })
                        later).renewals
                    ≡ some q)
                  × (q.status ≡ not_renewed)
                  × (q.reason ≡ some payment_failed)))
  unfolding due confirmed_charge mark_not_renewed
  settle-lapsed_then_charged r c p now answered lease out found_row st ne found id_eq pending zero
        due_now late =
      let (row, hit) =
        close_rows-period payment_failed now r.policy_id r.period_end r p.renewals st found_row in
      let up : given_up now r c ≡ true = ground arith in
      let d : due now c ≡ true = ground arith in
      let after = (mark_not_renewed r.id payment_failed now p).0 in
      let closed = settled_failed now r in
      let rec = claimed_charge now (pos lease) c in
      let paid =
        confirmed_row answered (confirmed_charge add_months answered out.reference rec) rec in
      let charged = write rec.acceptance_id paid (write r.charge_id rec p.billing) in
      rw
        (
          settle-given_up r c p now st ne hit found pending up,
          claim-due r.charge_id c after.billing now lease found d,
        )
        (
          row,
          refl,
          refl,
          refl,
          rec,
          refl,
          rw
              (confirm-held add_months rec answered out (write r.charge_id rec p.billing)
                (claimed-row r.charge_id c p.billing now lease id_eq) (ground arith))
              (
                paid,
                refl,
                rw (sym id_eq)
                    (write-row c.acceptance_id paid (write c.acceptance_id rec p.billing)),
                refl,
                ap policy_id_for id_eq,
                λ later.
                    let (q, e, f) =
                      one_outcome itoa add_months add_days format_day rules
                        (record after { billing = charged }) later r.policy_id r.period_end closed
                        row in
                    let (st_q, why_q) = closed-lasts closed q refl refl f in (q, e, st_q, why_q),
              ),
        )
