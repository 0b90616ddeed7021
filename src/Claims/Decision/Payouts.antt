-- ===== src/Claims/Decision/Payouts.antt =====
-- What holds of a payout after any sequence of steps of the analysts and the workers.
use misw4501_202614_grupo.Base.{
  ℕ, ◌≤◌, ◌≡◌, ◌≢◌, inl, inr, Bool, true, false, Option, none, some, List, [], arith, nth,
  remove_at, nth-All,
}
use misw4501_202614_grupo.Base.Int.{◌-ℤ◌, wrap64}
use misw4501_202614_grupo.Base.Text.{Str}
use misw4501_202614_grupo.Base.Dict.{lookup}
use misw4501_202614_grupo.Base.Clock.{Time}
use misw4501_202614_grupo.Idempotency
use misw4501_202614_grupo.Resilience.{RetryPolicy}
use misw4501_202614_grupo.Claims.Cases.{new_case_store}
use misw4501_202614_grupo.Claims.Decision.{Decision, Payout, status_of, deductible_of, payout_key}
use misw4501_202614_grupo.Claims.Decision.Store.{DecisionStore}
use misw4501_202614_grupo.Claims.Decision.Entries.{claim_status, is_held, payout_cases}
use misw4501_202614_grupo.Claims.Decision.World.{World, Action, run}
use misw4501_202614_grupo.Claims.Decision.Invariant.{Apart, Inv}
use misw4501_202614_grupo.Claims.Decision.Flights.{nth-Apart}
use misw4501_202614_grupo.Claims.Decision.Reachable.{run-Inv}

-- No decisions and no claims yet.
abbrev pub started : Time → World
started t = record {
  store = record { cases = new_case_store; decisions = [] };
  clock = t;
  flights = [];
}

started-Inv : (t : Time) (lease : ℕ) → Inv lease (started t)
unfolding lookup
started-Inv t lease = record { good = λ id. tt; flying = tt; apart = tt }

-- The payout of the decision under an id.
abbrev pub payout_in : Option Decision → Option Payout
payout_in none = none
payout_in (some d) = d.payout

abbrev pub payout_at : Str → DecisionStore → Option Payout
payout_at id s = payout_in (lookup id s.decisions)

-- A flight whose claim is the one that the store has.
abbrev pub holds_payout : Option Payout → Decision → Bool
holds_payout none rec = false
holds_payout (some p) rec = is_held p rec.payout

abbrev pub holds : DecisionStore → Decision → Bool
holds s rec = holds_payout (payout_at rec.claim_id s) rec

module _ (policy : RetryPolicy) (lease : ℕ) where
  pub reachable-Inv :
      (t : Time) (actions : List Action) → Inv lease (run policy lease (started t) actions)
  reachable-Inv t actions = run-Inv policy lease (started t) actions (started-Inv t lease)

  -- Whatever the analysts and the workers do, in whatever order, with crashes and with calls that
  -- overlap: the payout of every decision in the store has the key of its claim and the int64 amount of
  -- the gross amount less the deductible, counts at most three failed attempts (a manual retry starts
  -- the count again), is failed if it counts three, and its claim has the status of the decision.
  pub reachable_payout :
      (t : Time) (actions : List Action) (id : Str) (d : Decision) (p : Payout)
      → let s = (run policy lease (started t) actions).store in
        lookup id s.decisions ≡ some d
        → d.payout ≡ some p
        → (p.key ≡ payout_key id)
          × (p.amount_minor
              ≡ wrap64 (
                  d.gross_amount_minor
                  -ℤ deductible_of d.gross_amount_minor d.deductible_basis_points))
          × (p.attempts ≤ 3)
          × (p.attempts ≡ 3 → p.status ≡ Idempotency.Status.failed)
          × (claim_status id s ≡ some (status_of d))
  reachable_payout t actions id d p e f = let g = (reachable-Inv t actions).good id in ground arith

  -- Of two different flights in a reachable world at most one holds the payout of a claim: two that
  -- both hold a payout are of different claims.
  pub one_holder :
      (t : Time) (actions : List Action) (i j : ℕ) (r q : Decision)
      → let w = run policy lease (started t) actions in
        nth i w.flights ≡ some r
        → nth j (remove_at i w.flights) ≡ some q
        → holds w.store r ≡ true
        → holds w.store q ≡ true
        → r.claim_id ≢ q.claim_id
  one_holder t actions i j r q e f g h same_id =
      let w = run policy lease (started t) actions in
      let inv = reachable-Inv t actions in
      let apart =
        nth-All (Apart r) j (remove_at i w.flights) f (nth-Apart i w.flights e inv.apart) in
      elim (payout_cases r.claim_id w.store) [
        | inl absent ↦ absurd (ground arith)
        | inr (d, p, at) ↦ absurd (ground arith)
      ]
