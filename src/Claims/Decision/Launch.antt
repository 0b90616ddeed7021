-- ===== src/Claims/Decision/Launch.antt =====
-- What a claim of a payout hands to a worker.
use misw4501_202614_grupo.Base.{
  ℕ, ◌≡◌, ◌⊎◌, inl, inr, true, none, some, List, ok, arith, All, map-All, Bool-cases,
}
use misw4501_202614_grupo.Base.Int.{pos}
use misw4501_202614_grupo.Base.Text.{Str, str_eq_iff}
use misw4501_202614_grupo.Base.Clock.{Time}
use misw4501_202614_grupo.Claims.Decision.{Decision, Payout}
use misw4501_202614_grupo.Claims.Decision.Store.{
  DecisionStore, due, claim, with_payout, claimed_payout,
}
use misw4501_202614_grupo.Claims.Decision.Entries.{PayoutAt, write-decisions, payout_cases}
use misw4501_202614_grupo.Claims.Decision.World.{launched}
use misw4501_202614_grupo.Claims.Decision.Invariant.{GoodAt, FlightAt, Apart, AllApart}
use misw4501_202614_grupo.Claims.Decision.Flights.{claim-FlightAt}

-- The copy that a claim hands out.
abbrev pub taken : Time → ℕ → Decision → Payout → Decision
taken clock lease d p = with_payout d (claimed_payout clock (pos lease) p)

module _ (id : Str) (clock : Time) (lease : ℕ) (s : DecisionStore) where
  pub claim_cases :
      ((claim id clock (pos lease) s).1 ≡ ok none)
      ⊎ ((d : Decision) × (p : Payout) × PayoutAt id s d p
          × (due (some p) clock ≡ true)
          × ((claim id clock (pos lease) s).1 ≡ ok (some (taken clock lease d p))))
  unfolding claim
  claim_cases = elim (payout_cases id s) [
    | inl absent ↦ inl (ground arith)
    | inr (d, p, at) ↦ elim (Bool-cases (due (some p) clock)) [
      | inl e ↦ inr (d, p, at, e, ground arith)
      | inr e ↦ inl (ground arith)
    ]
  ]

  -- The copies that are out already are of leases that end at another time.
  taken-Apart :
      (d : Decision) (p : Payout)
      → PayoutAt id s d p
      → GoodAt id s
      → due (some p) clock ≡ true
      → (q : Decision) → FlightAt s clock lease q
      → Apart (taken clock lease d p) q
  unfolding due
  taken-Apart d p at g e q h = ground arith

  taken-FlightAt :
      (d : Decision) (p : Payout)
      → PayoutAt id s d p
      → GoodAt id s
      → due (some p) clock ≡ true
      → FlightAt (claim id clock (pos lease) s).0 clock lease (taken clock lease d p)
  unfolding claim
  taken-FlightAt d p at g e =
      ground
        (arith, write-decisions id d.claim_id (taken clock lease d p) s, str_eq_iff id d.claim_id)

  -- A flight that was launched is accounted for, and is apart from the ones before.
  pub claim-launched :
      (flights : List Decision)
      → GoodAt id s
      → All (FlightAt s clock lease) flights
      → AllApart flights
      → let r = claim id clock (pos lease) s in
        All (FlightAt r.0 clock lease) (launched r.1 flights) × AllApart (launched r.1 flights)
  claim-launched flights g fs ap =
      let kept = map-All (claim-FlightAt id clock lease s) flights fs in
      elim claim_cases [
        | inl e ↦ rw e (kept, ap)
        | inr (d, p, at, e, f) ↦
            rw f
              ((taken-FlightAt d p at g e, kept), (map-All (taken-Apart d p at g e) flights fs, ap))
      ]
