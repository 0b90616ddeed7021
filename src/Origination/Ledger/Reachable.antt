-- ===== src/Origination/Ledger/Reachable.antt =====
-- What the charges keep under every sequence of steps.
use misw4501_202614_grupo.Base.{
  ℕ, ◌<◌, ◌≡◌, refl, sym, ◌⊎◌, inl, inr, true, none, some, List, [], ◌∷◌, nth, All, map-All,
  nth-All, remove_at-All, Option-cases, ok, arith,
}
use misw4501_202614_grupo.Base.Int.{ℤ, pos}
use misw4501_202614_grupo.Base.Text.{Str}
use misw4501_202614_grupo.Base.Dict.{lookup, lookup-insert_self}
use misw4501_202614_grupo.Base.Clock.{Time}
use misw4501_202614_grupo.Resilience.{RetryPolicy}
use misw4501_202614_grupo.Resilience.Backoff.{IsUsable}
use misw4501_202614_grupo.Origination.Charge.{Charge}
use misw4501_202614_grupo.Origination.Charge.Store.{
  ChargeStore, write, claim, mark_activation_published, reschedule_activation, due, claimed_charge,
}
use misw4501_202614_grupo.Origination.Charge.Rows.{update_cases}
use misw4501_202614_grupo.Origination.Ledger.{
  World, Action, tick, register, pay, take_charge, answer, crash, resume_failed, note_decline,
  sweep, take_publication, deliver, miss, drop_publication, launched, claimed_of, act, run,
}
use misw4501_202614_grupo.Origination.Ledger.Invariant.{FlightAt}
use misw4501_202614_grupo.Origination.Ledger.Steps.{
  Inv, Moves-FlightAt, recorded, answer-Sound, act-Sound,
}
use misw4501_202614_grupo.Origination.Ledger.Statements.{
  Sound, Rows, claim-Sound, mark_activation_published-Sound, reschedule_activation-Sound,
}

module _ (itoa : ℕ → Str) (add_months : Time → ℤ → Time) (policy : RetryPolicy) (lease : ℕ)
    (base max_wait : ℕ) (usable : IsUsable policy base max_wait) where
  -- What a claim hands to a worker.
  pub claim_cases :
      (id : Str) (now : Time) (s : ChargeStore)
      → (claim id now (pos lease) s ≡ (s, ok none))
        ⊎ ((c : Charge) × (lookup id s.charges ≡ some c)
            × (due now c ≡ true)
            × (claim id now (pos lease) s ≡ (
              write id (claimed_charge now (pos lease) c) s,
              ok (some (claimed_charge now (pos lease) c)),
            )))
  unfolding claim
  claim_cases id now s = elim (update_cases id (due now) (claimed_charge now (pos lease)) s) [
    | inl u ↦ inl (rw (claim, u) refl)
    | inr (c, e, b, u) ↦ inr (c, e, b, rw (claim, u) refl)
  ]

  claimed-FlightAt :
      (id : Str) (now : Time) (c : Charge) (s : ChargeStore)
      → c.acceptance_id ≡ id
      → FlightAt (write id (claimed_charge now (pos lease) c) s) (claimed_charge now (pos lease) c)
  unfolding write
  claimed-FlightAt id now c s e =
      rw (sym e, lookup-insert_self c.acceptance_id (claimed_charge now (pos lease) c) s.charges)
        refl

  take-flying :
      (id : Str) (now : Time) (s : ChargeStore) (flights : List Charge)
      → Rows itoa add_months s
      → All (FlightAt s) flights
      → let r = claim id now (pos lease) s in All (FlightAt r.0) (launched (claimed_of r.1) flights)
  take-flying id now s flights h fs =
      let kept =
        map-All
          (λ rec.
            Moves-FlightAt itoa add_months policy lease base max_wait usable s
              (claim id now (pos lease) s).0 rec
              (claim-Sound itoa add_months s h id now (pos lease)).1)
          flights fs in
      elim (claim_cases id now s) [
        | inl e ↦ rw e fs
        | inr (c, e, b, u) ↦ rw u (claimed-FlightAt id now c s ((h id c e).id_eq), rw u at kept)
      ]

  -- The flights after a statement.
  Sound-flying :
      (s s' : ChargeStore) (flights : List Charge)
      → Sound itoa add_months s s'
      → All (FlightAt s) flights
      → All (FlightAt s') flights
  Sound-flying s s' flights h =
      map-All (λ rec. Moves-FlightAt itoa add_months policy lease base max_wait usable s s' rec h.1)
        flights

  -- A step that leaves the flights alone.
  kept-flying :
      (w : World) (a : Action)
      → Inv itoa add_months w
      → All (FlightAt (act itoa add_months policy lease w a).store) w.flights
  kept-flying w a h =
      Sound-flying w.store (act itoa add_months policy lease w a).store w.flights
        (act-Sound itoa add_months policy lease base max_wait usable w a h) h.flying

  act-flying :
      (w : World) (a : Action)
      → Inv itoa add_months w
      → let w' = act itoa add_months policy lease w a in All (FlightAt w'.store) w'.flights
  unfolding act
  act-flying w (take_charge id) h = take-flying id w.clock w.store w.flights h.rows h.flying
  act-flying w (answer i a) h = elim (Option-cases (nth i w.flights)) [
    | inl e ↦ rw (act, e) h.flying
    | inr (rec, e) ↦
        let s = w.store in
        let f = nth-All (FlightAt s) i w.flights e h.flying in
        rw (act, e)
          (remove_at-All
            (FlightAt (recorded itoa add_months policy lease base max_wait usable rec a w.clock s))
            i w.flights
            (Sound-flying s
              (recorded itoa add_months policy lease base max_wait usable rec a w.clock s) w.flights
              (answer-Sound itoa add_months policy lease base max_wait usable rec a w.clock s h.rows
                h.started f)
              h.flying))
  ]
  act-flying w (crash i) h = remove_at-All (FlightAt w.store) i w.flights h.flying
  act-flying w (tick n) h = h.flying
  act-flying w (register snapshot started ends) h = kept-flying w (register snapshot started ends) h
  act-flying w (pay id m) h = kept-flying w (pay id m) h
  act-flying w (resume_failed id by note) h = kept-flying w (resume_failed id by note) h
  act-flying w (note_decline id code reference) h = kept-flying w (note_decline id code reference) h
  act-flying w sweep h = kept-flying w sweep h
  act-flying w (take_publication id) h = kept-flying w (take_publication id) h
  act-flying w (deliver i) h = elim (Option-cases (nth i w.publications)) [
    | inl e ↦ rw (act, e) h.flying
    | inr (rec, e) ↦
        rw (act, e)
          (Sound-flying w.store (mark_activation_published rec w.clock w.store).0 w.flights
            (mark_activation_published-Sound itoa add_months w.store h.rows rec w.clock) h.flying)
  ]
  act-flying w (miss i at cause) h = elim (Option-cases (nth i w.publications)) [
    | inl e ↦ rw (act, e) h.flying
    | inr (rec, e) ↦
        rw (act, e)
          (Sound-flying w.store (reschedule_activation rec w.clock at cause w.store).0 w.flights
            (reschedule_activation-Sound itoa add_months w.store h.rows rec w.clock at cause)
            h.flying)
  ]
  act-flying w (drop_publication i) h = h.flying

  act-started :
      (w : World) (a : Action) → 0 < w.clock → 0 < (act itoa add_months policy lease w a).clock
  unfolding act
  act-started w (tick n) h = omega arith
  act-started w (register snapshot started ends) h = h
  act-started w (pay id m) h = h
  act-started w (take_charge id) h = h
  act-started w (answer i a) h = ground arith
  act-started w (crash i) h = h
  act-started w (resume_failed id by note) h = h
  act-started w (note_decline id code reference) h = h
  act-started w sweep h = h
  act-started w (take_publication id) h = h
  act-started w (deliver i) h = ground arith
  act-started w (miss i at cause) h = ground arith
  act-started w (drop_publication i) h = h

  pub act-Inv :
      (w : World) (a : Action)
      → Inv itoa add_months w
      → Inv itoa add_months (act itoa add_months policy lease w a)
  act-Inv w a h = record {
    rows = (act-Sound itoa add_months policy lease base max_wait usable w a h).0;
    flying = act-flying w a h;
    started = act-started w a h.started;
  }

  pub run-Inv :
      (w : World) (actions : List Action)
      → Inv itoa add_months w
      → Inv itoa add_months (run itoa add_months policy lease w actions)
  unfolding run
  run-Inv w [] h = h
  run-Inv w (a ∷ rest) h = run-Inv (act itoa add_months policy lease w a) rest (act-Inv w a h)
