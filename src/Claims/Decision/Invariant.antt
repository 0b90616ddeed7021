-- ===== src/Claims/Decision/Invariant.antt =====
-- What holds of every decision and of every flight between two steps.
use misw4501_202614_grupo.Base.{
  ℕ, ◌+◌, ◌≤◌, ◌<◌, ◌≡◌, ◌≢◌, ◌⊎◌, false, Option, none, some, List, [], ◌∷◌, arith, All,
}
use misw4501_202614_grupo.Base.Int.{◌-ℤ◌, wrap64}
use misw4501_202614_grupo.Base.Text.{Str, str_eq_iff}
use misw4501_202614_grupo.Base.Dict.{lookup}
use misw4501_202614_grupo.Base.Clock.{Time}
use misw4501_202614_grupo.Idempotency
use misw4501_202614_grupo.Claims.Case.{Status}
use misw4501_202614_grupo.Claims.Decision.{
  Decision, Payout, Outcome, status_of, deductible_of, payout_key,
}
use misw4501_202614_grupo.Claims.Decision.Store.{
  DecisionStore, write, store_and_move, claimed_until_of,
}
use misw4501_202614_grupo.Claims.Decision.Entries.{
  claim_status, is_held, write-decisions, write-claim_status, store_and_move-decisions,
  store_and_move-claim_status,
}
use misw4501_202614_grupo.Claims.Decision.World.{World}

-- Below the cap until the payout failed; a confirmed payout took at most three attempts.
abbrev pub GoodAttempts : Idempotency.Status → ℕ → Type 0
GoodAttempts Idempotency.Status.failed n = n ≤ 3
GoodAttempts _ n = n < 3

-- An approval has the one payout of its claim, of the gross amount less the deductible; a rejection
-- has none.
abbrev pub GoodPayout : Outcome → Option Payout → Str → Decision → Type 0
GoodPayout Outcome.approved none id d = ⊥
GoodPayout Outcome.approved (some p) id d =
    (p.key ≡ payout_key id)
    × (p.amount_minor
        ≡ wrap64
            (d.gross_amount_minor -ℤ deductible_of d.gross_amount_minor d.deductible_basis_points))
    × GoodAttempts p.status p.attempts
GoodPayout Outcome.rejected none id d = Unit
GoodPayout Outcome.rejected (some p) id d = ⊥

-- The decision under an id, and the status of its claim.
abbrev pub GoodEntry : Str → Option Decision → Option Status → Type 0
GoodEntry id none st = Unit
GoodEntry id (some d) st =
    (st ≡ some (status_of d)) × (d.claim_id ≡ id) × GoodPayout d.outcome d.payout id d

abbrev pub GoodAt : Str → DecisionStore → Type 0
GoodAt id s = GoodEntry id (lookup id s.decisions) (claim_status id s)

-- A flight holds its claim, with a copy of the payout in the store, or it lost it for good: no
-- later claim ends when this one did.
abbrev pub FlightPayout : Option Payout → Time → ℕ → Decision → Type 0
FlightPayout none clock lease rec = ⊥
FlightPayout (some p) clock lease rec =
    ((rec.payout ≡ some p)
      × (p.status ≡ Idempotency.Status.in_progress)
      × (p.claimed_until ≤ clock + lease))
    ⊎ ((is_held p rec.payout ≡ false) × (claimed_until_of rec.payout < clock + lease))

abbrev pub FlightEntry : Option Decision → Time → ℕ → Decision → Type 0
FlightEntry none clock lease rec = ⊥
FlightEntry (some d) clock lease rec = FlightPayout d.payout clock lease rec

abbrev pub FlightAt : DecisionStore → Time → ℕ → Decision → Type 0
FlightAt s clock lease rec = FlightEntry (lookup rec.claim_id s.decisions) clock lease rec

-- Two flights of one claim have leases with different ends.
abbrev pub Apart : Decision → Decision → Type 0
Apart r q = r.claim_id ≡ q.claim_id → claimed_until_of r.payout ≢ claimed_until_of q.payout

abbrev pub AllApart : List Decision → Type 0
AllApart [] = Unit
AllApart (r ∷ rs) = All (Apart r) rs × AllApart rs

pub record Inv (lease : ℕ) (w : World) : Type 0 where
  pub good : (id : Str) → GoodAt id w.store
  pub flying : All (FlightAt w.store w.clock lease) w.flights
  pub apart : AllApart w.flights

-- The store after a decision was written under an id.
pub store_and_move-GoodAt :
    (id j : Str) (d : Decision) (s : DecisionStore)
    → d.claim_id ≡ id
    → GoodPayout d.outcome d.payout id d
    → GoodAt j s
    → GoodAt j (store_and_move id d s)
store_and_move-GoodAt id j d s e g h = ground (
  arith,
  store_and_move-decisions id j d s,
  store_and_move-claim_status id j d s,
  str_eq_iff id j,
)

-- The store after a decision was written that leaves the status of the claim.
pub write-GoodAt :
    (id j : Str) (d : Decision) (s : DecisionStore)
    → claim_status id s ≡ some (status_of d)
    → d.claim_id ≡ id
    → GoodPayout d.outcome d.payout id d
    → GoodAt j s
    → GoodAt j (write id d s)
write-GoodAt id j d s c e g h =
    ground (arith, write-decisions id j d s, write-claim_status id j d s, str_eq_iff id j)
