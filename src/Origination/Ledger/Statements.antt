-- ===== src/Origination/Ledger/Statements.antt =====
-- Every statement on the table keeps its rows good, and what they are kept of.
use misw4501_202614_grupo.Base.{
  ℕ, ◌≡◌, ◌≢◌, refl, inl, inr, Bool, true, ◌&&◌, Option, none, some, Option-cases, Bool-cases,
}
use misw4501_202614_grupo.Base.Int.{ℤ, pos, leb_ℤ}
use misw4501_202614_grupo.Base.Text.{Str, is_empty}
use misw4501_202614_grupo.Base.Dict.{lookup}
use misw4501_202614_grupo.Base.Clock.{Time, Duration, zero_time}
use misw4501_202614_grupo.Idempotency.{FailureReason, Outcome}
use misw4501_202614_grupo.Origination.Charge.{
  Charge, Snapshot, PaymentMethod, ChargeResumption, captured, base_key, waiting_charge,
  confirmed_charge, charge_failure_reason_for,
}
use misw4501_202614_grupo.Origination.Charge.Store.{
  ChargeStore, ChargeError, claim_lost, charge_not_payable, charge_not_resumable, update, get,
  key_taken, create_pending, due, claim, holds_charge, confirm, reschedule, fail, is_failed, resume,
  refused, activation_due, claim_activation, holds_activation, mark_activation_published,
  reschedule_activation, or_error, claimed_charge, confirmed_row, rescheduled_charge, failed_charge,
  resumed_charge, activation_claimed, published_charge, unpublished_charge, inserted_charge,
}
use misw4501_202614_grupo.Origination.Charge.Methods.{
  payable, attached_key, attached_charge, attach_payment_method, was_rejected, declined_charge,
  record_decline, expire_without_payment_method,
}
use misw4501_202614_grupo.Origination.Charge.Rows.{
  Each, Moves, write-Each, write-Moves, write_new-Moves, update_cases, update-Each, update-Moves,
  expire-Each, expire-Moves,
}
use misw4501_202614_grupo.Origination.Ledger.Invariant.{GoodCharge, FlightAt}
use misw4501_202614_grupo.Origination.Ledger.Changes.{
  claimed-Good, rescheduled-Good, failed-Good, confirmed-Good, resumed-Good, declined-Good,
  swept-Good, activation_claimed-Good, published-Good, unpublished-Good, attached-Good,
  inserted-Good,
}
use misw4501_202614_grupo.Origination.Ledger.Kept.{
  Kept, Kept-refl, claimed-Kept, rescheduled-Kept, failed-Kept, confirmed-Kept, resumed-Kept,
  declined-Kept, swept-Kept, activation_claimed-Kept, published-Kept, unpublished-Kept,
  attached-Kept,
}

or_error-state : (e : ChargeError) (r : ChargeStore × Option Charge) → (or_error e r).0 ≡ r.0
or_error-state e (s, none) = refl
or_error-state e (s, some c) = refl

refused-state : (id : Str) (e : ChargeError) (s : ChargeStore) → (refused id e s).0 ≡ s
unfolding refused get
refused-state id e s = elim (Option-cases (lookup id s.charges)) [
  | inl f ↦ rw (refused, f) refl
  | inr (c, f) ↦ rw (refused, f) refl
]

module _ (itoa : ℕ → Str) (add_months : Time → ℤ → Time) where
  abbrev pub Sound : ChargeStore → ChargeStore → Type 0
  Sound s s' = Each (GoodCharge itoa add_months) s' × Moves (Kept itoa) s s'

  abbrev pub Rows : ChargeStore → Type 0
  Rows s = Each (GoodCharge itoa add_months) s

  pub Sound-refl : (s : ChargeStore) → Rows s → Sound s s
  Sound-refl s h = (h, λ j c e. (c, e, Kept-refl itoa j c))

  update-Sound :
      (id : Str) (test : Charge → Bool) (change : Charge → Charge) (s : ChargeStore)
      → ((c : Charge)
          → lookup id s.charges ≡ some c
          → test c ≡ true
          → GoodCharge itoa add_months id c
          → GoodCharge itoa add_months id (change c))
      → ((c : Charge) → test c ≡ true → Kept itoa id c (change c))
      → Rows s
      → Sound s (update id test change s).0
  update-Sound id test change s good kept h = (
    update-Each id test change s (GoodCharge itoa add_months) good h,
    update-Moves id test change s (Kept itoa) (Kept-refl itoa) λ c _ t. kept c t,
  )

  module _ (s : ChargeStore) (h : Rows s) where
    pub claim-Sound : (id : Str) (now : Time) (lease : Duration) → Sound s (claim id now lease s).0
    unfolding claim
    claim-Sound id now lease =
        update-Sound id (due now) (claimed_charge now lease) s
          (λ c _ t. claimed-Good itoa add_months id now lease c t) (claimed-Kept itoa id now lease)
          h

    pub confirm-Sound :
        (rec : Charge) (now : Time) (out : Outcome)
        → FlightAt s rec
        → Sound s (confirm add_months rec now out s).0
    unfolding confirm
    confirm-Sound rec now out f =
        let cc = confirmed_charge add_months now out.reference rec in
        let id = rec.acceptance_id in
        rw (or_error-state claim_lost (update id (holds_charge rec) (confirmed_row now cc) s)) (
          update-Sound id (holds_charge rec) (confirmed_row now cc) s
            (λ c e t. confirmed-Good itoa add_months id now out rec c t (rw e at f))
            (confirmed-Kept itoa id now cc rec) h)

    pub reschedule-Sound :
        (rec : Charge) (now next : Time) (cause : Str)
        → next ≢ zero_time
        → Sound s (reschedule rec now next cause s).0
    unfolding reschedule
    reschedule-Sound rec now next cause n =
        let id = rec.acceptance_id in
        rw
          (or_error-state claim_lost
            (update id (holds_charge rec) (rescheduled_charge now next cause) s))
          (update-Sound id (holds_charge rec) (rescheduled_charge now next cause) s
            (λ c _ t. rescheduled-Good itoa add_months id now next cause rec c n t)
            (rescheduled-Kept itoa id now next cause rec) h)

    pub fail-Sound :
        (rec : Charge) (now : Time) (reason : FailureReason) (cause : Str)
        → Sound s (fail rec now reason cause s).0
    unfolding fail
    fail-Sound rec now reason cause =
        let id = rec.acceptance_id in
        let change = failed_charge now (charge_failure_reason_for reason) cause in
        rw (or_error-state claim_lost (update id (holds_charge rec) change s)) (
          update-Sound id (holds_charge rec) change s
            (λ c _ t. failed-Good itoa add_months id now reason cause rec c t)
            (failed-Kept itoa id now (charge_failure_reason_for reason) cause rec) h)

    pub claim_activation-Sound :
        (id : Str) (now : Time) (lease : Duration) → Sound s (claim_activation id now lease s).0
    unfolding claim_activation
    claim_activation-Sound id now lease =
        update-Sound id (activation_due now) (activation_claimed now lease) s
          (λ c _ _. activation_claimed-Good itoa add_months id now lease c)
          (λ c _. activation_claimed-Kept itoa id now lease c) h

    pub mark_activation_published-Sound :
        (rec : Charge) (now : Time) → Sound s (mark_activation_published rec now s).0
    unfolding mark_activation_published
    mark_activation_published-Sound rec now =
        let id = rec.acceptance_id in
        rw (or_error-state claim_lost (update id (holds_activation rec) (published_charge now) s)) (
          update-Sound id (holds_activation rec) (published_charge now) s
            (λ c _ _. published-Good itoa add_months id now c) (published-Kept itoa id now rec) h)

    pub reschedule_activation-Sound :
        (rec : Charge) (now next : Time) (cause : Str)
        → Sound s (reschedule_activation rec now next cause s).0
    unfolding reschedule_activation
    reschedule_activation-Sound rec now next cause =
        let id = rec.acceptance_id in
        let change = unpublished_charge now next cause in
        rw (or_error-state claim_lost (update id (holds_activation rec) change s)) (
          update-Sound id (holds_activation rec) change s
            (λ c _ _. unpublished-Good itoa add_months id now next cause c)
            (λ c _. unpublished-Kept itoa id now next cause c) h)

    pub record_decline-Sound :
        (id code reference : Str) → Sound s (record_decline id code reference s)
    unfolding record_decline
    record_decline-Sound id code reference =
        elim (Bool-cases (is_empty code && is_empty reference)) [
          | inl e ↦ rw (record_decline, e) (Sound-refl s h)
          | inr e ↦
              rw (record_decline, e)
                (update-Sound id was_rejected (declined_charge code reference) s
                  (λ c _ _. declined-Good itoa add_months id code reference c)
                  (λ c _. declined-Kept itoa id code reference c) h)
        ]

    pub expire-Sound : (at : Time) → Sound s (expire_without_payment_method at s).0
    expire-Sound at = (
      expire-Each at s (GoodCharge itoa add_months) (λ j c. swept-Good itoa add_months j at c) h,
      expire-Moves at s (Kept itoa) (λ j c. swept-Kept itoa j at c),
    )

    pub resume-Sound :
        (id : Str) (r : ChargeResumption) → r.at ≢ zero_time → Sound s (resume id r s).0
    unfolding resume
    resume-Sound id r n = elim (update_cases id (λ c. is_failed c.status) (resumed_charge r) s) [
      | inl u ↦ rw (resume, u, refused-state id charge_not_resumable s) (Sound-refl s h)
      | inr (c, e, b, u) ↦
          rw (resume, u)
            (
              write-Each (GoodCharge itoa add_months) id (resumed_charge r c) s
                  (resumed-Good itoa add_months id r c n b (h id c e)) h,
              write-Moves (Kept itoa) id c (resumed_charge r c) s (Kept-refl itoa) e
                  (resumed-Kept itoa id r c b),
            )
    ]

    pub attach-Sound :
        (id : Str) (m : PaymentMethod) (at : Time)
        → at ≢ zero_time
        → captured m.kind ≡ true
        → Sound s (attach_payment_method itoa id m at s).0
    unfolding attach_payment_method
    attach-Sound id m at n f = elim (Option-cases (lookup id s.charges)) [
      | inl e ↦
          rw (attach_payment_method, e, refused-state id charge_not_payable s) (Sound-refl s h)
      | inr (c, e) ↦ elim (Bool-cases (payable c)) [
        | inr b ↦
            rw (attach_payment_method, e, b, refused-state id charge_not_payable s) (Sound-refl s h)
        | inl b ↦ elim (Bool-cases (key_taken (attached_key itoa id c) id s.charges)) [
          | inl k ↦ rw (attach_payment_method, e, b, k) (Sound-refl s h)
          | inr k ↦
              rw (attach_payment_method, e, b, k)
                (
                  write-Each (GoodCharge itoa add_months) id (attached_charge itoa id m at c) s
                      (attached-Good itoa add_months id m at c n f b (h id c e)) h,
                  write-Moves (Kept itoa) id c (attached_charge itoa id m at c) s (Kept-refl itoa) e
                      (attached-Kept itoa id m at c b),
                )
        ]
      ]
    ]

    pub create_pending-Sound :
        (snapshot : Snapshot) (started ends now : Time)
        → Sound s
            (create_pending
              (waiting_charge snapshot (base_key snapshot.acceptance_id) started ends now)
              s).0
    unfolding create_pending
    create_pending-Sound snapshot started ends now =
        let id = snapshot.acceptance_id in
        let c = waiting_charge snapshot (base_key id) started ends now in
        elim (Bool-cases (leb_ℤ snapshot.amount_minor (pos 0))) [
          | inl z ↦ rw (create_pending, z) (Sound-refl s h)
          | inr z ↦ elim (Option-cases (lookup id s.charges)) [
            | inr (old, e) ↦ rw (create_pending, z, e) (Sound-refl s h)
            | inl e ↦ elim (Bool-cases (key_taken (base_key id) id s.charges)) [
              | inl k ↦ rw (create_pending, z, e, k) (Sound-refl s h)
              | inr k ↦
                  rw (create_pending, z, e, k)
                    (
                      write-Each (GoodCharge itoa add_months) id (inserted_charge c) s
                          (inserted-Good itoa add_months id snapshot started ends now refl) h,
                      write_new-Moves (Kept itoa) id (inserted_charge c) s (Kept-refl itoa) e,
                    )
            ]
          ]
        ]
