-- ===== src/Claims/Decision/Flights.antt =====
-- What each operation of the store leaves of a flight.
use misw4501_202614_grupo.Base.{
  ℕ, zero, suc, ◌+◌, ◌≡◌, sym, inl, inr, false, Option, some, List, [], ◌∷◌, Result, arith, All,
  nth, remove_at, nth-All, remove_at-All, Option-cases, Result-cases,
}
use misw4501_202614_grupo.Base.Int.{pos}
use misw4501_202614_grupo.Base.Text.{Str, str_eq_iff}
use misw4501_202614_grupo.Base.Dict.{lookup}
use misw4501_202614_grupo.Base.Clock.{Time}
use misw4501_202614_grupo.Idempotency.Runner.{Answer, record_result}
use misw4501_202614_grupo.Resilience.{RetryPolicy}
use misw4501_202614_grupo.Claims.Case.{ClaimRecord}
use misw4501_202614_grupo.Claims.Decision.{
  Decision, DecisionError, Payout, Notice, PayoutRetry, attempt_state,
}
use misw4501_202614_grupo.Claims.Decision.Store.{
  DecisionStore, decide, claim, retry_payout, record_gateway_code, capped, with_payout,
  claimed_payout, retried_payout,
}
use misw4501_202614_grupo.Claims.Decision.Queue.{
  with_notice, change_notice, notice_sent, notice_failed,
}
use misw4501_202614_grupo.Claims.Decision.Entries.{
  is_held, write-decisions, store_and_move-decisions, settled_payout, record_result-eq,
  payout_cases,
}
use misw4501_202614_grupo.Claims.Decision.World.{file, decide_if}
use misw4501_202614_grupo.Claims.Decision.Invariant.{FlightAt, Apart, AllApart}

some_inj : {x y : Decision} → some x ≡ some y → x ≡ y
some_inj e = cc

-- Lists of flights.
pub remove_at-AllApart : (i : ℕ) (xs : List Decision) → AllApart xs → AllApart (remove_at i xs)
remove_at-AllApart i [] h = tt
remove_at-AllApart zero (x ∷ xs) (p, h) = h
remove_at-AllApart (suc i) (x ∷ xs) (p, h) =
    (remove_at-All (Apart x) i xs p, remove_at-AllApart i xs h)

-- The flight at a place is apart from each other one.
pub nth-Apart :
    (i : ℕ) (xs : List Decision) {x : Decision}
    → nth i xs ≡ some x
    → AllApart xs
    → All (Apart x) (remove_at i xs)
nth-Apart i [] e h = tt
nth-Apart zero (y ∷ xs) e (p, h) = rw (sym (some_inj e)) p
nth-Apart (suc i) (y ∷ xs) {x} e (p, h) = (
  λ same_id same_end. nth-All (Apart y) i xs e p (sym same_id) (sym same_end),
  nth-Apart i xs e h,
)

pub tick-FlightAt :
    (n : ℕ) (clock : Time) (lease : ℕ) (s : DecisionStore) (q : Decision)
    → FlightAt s clock lease q
    → FlightAt s (clock + n) lease q
tick-FlightAt n clock lease s q h = elim (payout_cases q.claim_id s) [
  | inl absent ↦ ground arith
  | inr (d, p, at) ↦ ground arith
]

pub file-FlightAt :
    (c : ClaimRecord) (clock : Time) (lease : ℕ) (s : DecisionStore) (q : Decision)
    → FlightAt s clock lease q
    → FlightAt (file c s) clock lease q
unfolding file
file-FlightAt c clock lease s q h = elim (Option-cases (lookup c.id s.cases.by_id)) [
  | inl e ↦ ground arith
  | inr (d, e) ↦ ground arith
]

pub decide_if-FlightAt :
    (r : Result DecisionError Decision) (clock : Time) (lease : ℕ) (s : DecisionStore)
    (q : Decision)
    → FlightAt s clock lease q
    → FlightAt (decide_if r s) clock lease q
unfolding decide_if decide
decide_if-FlightAt r clock lease s q h = elim (Result-cases r) [
  | inl (e, f) ↦ ground arith
  | inr (d, f) ↦ elim (Option-cases (lookup d.claim_id s.cases.by_id)) [
    | inl e ↦ ground arith
    | inr (c, e) ↦ ground (
      arith,
      store_and_move-decisions d.claim_id q.claim_id (record d { filing_number = c.filing_number })
          s,
      str_eq_iff d.claim_id q.claim_id,
    )
  ]
]

pub claim-FlightAt :
    (id : Str) (clock : Time) (lease : ℕ) (s : DecisionStore) (q : Decision)
    → FlightAt s clock lease q
    → FlightAt (claim id clock (pos lease) s).0 clock lease q
unfolding claim
claim-FlightAt id clock lease s q h = elim (payout_cases id s) [
  | inl absent ↦ ground arith
  | inr (d, p, at) ↦ ground (
    arith,
    write-decisions id q.claim_id (with_payout d (claimed_payout clock (pos lease) p)) s,
    str_eq_iff id q.claim_id,
  )
]

pub retry_payout-FlightAt :
    (id : Str) (r : PayoutRetry) (clock : Time) (lease : ℕ) (s : DecisionStore) (q : Decision)
    → FlightAt s clock lease q
    → FlightAt (retry_payout id r s).0 clock lease q
unfolding retry_payout
retry_payout-FlightAt id r clock lease s q h = elim (payout_cases id s) [
  | inl absent ↦ ground arith
  | inr (d, p, at) ↦ ground (
    arith,
    store_and_move-decisions id q.claim_id (with_payout d (retried_payout r p)) s,
    str_eq_iff id q.claim_id,
  )
]

pub record_gateway_code-FlightAt :
    (id code : Str) (clock : Time) (lease : ℕ) (s : DecisionStore) (q : Decision)
    → FlightAt s clock lease q
    → FlightAt (record_gateway_code id code s) clock lease q
unfolding record_gateway_code
record_gateway_code-FlightAt id code clock lease s q h = elim (payout_cases id s) [
  | inl absent ↦ ground arith
  | inr (d, p, at) ↦ ground (
    arith,
    write-decisions id q.claim_id (with_payout d (record p { gateway_code = code })) s,
    str_eq_iff id q.claim_id,
  )
]

change_notice-FlightAt :
    (id : Str) (change : Notice → Notice) (clock : Time) (lease : ℕ) (s : DecisionStore)
    (q : Decision)
    → FlightAt s clock lease q
    → FlightAt (change_notice id change s) clock lease q
unfolding change_notice
change_notice-FlightAt id change clock lease s q h = elim (Option-cases (lookup id s.decisions)) [
  | inl e ↦ ground arith
  | inr (d, e) ↦ elim (Option-cases (d.notice)) [
    | inl f ↦ ground arith
    | inr (n, f) ↦ ground (
      arith,
      write-decisions id q.claim_id (with_notice d (change n)) s,
      str_eq_iff id q.claim_id,
    )
  ]
]

pub notice_sent-FlightAt :
    (id : Str) (at clock : Time) (lease : ℕ) (s : DecisionStore) (q : Decision)
    → FlightAt s clock lease q
    → FlightAt (notice_sent id at s) clock lease q
unfolding notice_sent
notice_sent-FlightAt id at clock lease s q = change_notice-FlightAt id _ clock lease s q

pub notice_failed-FlightAt :
    (id : Str) (next : Time) (cause : Str) (clock : Time) (lease : ℕ) (s : DecisionStore)
    (q : Decision)
    → FlightAt s clock lease q
    → FlightAt (notice_failed id next cause s) clock lease q
unfolding notice_failed
notice_failed-FlightAt id next cause clock lease s q = change_notice-FlightAt id _ clock lease s q

-- A settled payout is in the hands of no flight.
settled_payout-is_held :
    (policy : RetryPolicy) (a : Answer) (now : Time) (p : Payout) (o : Option Payout)
    → is_held (settled_payout policy a now p) o ≡ false
unfolding settled_payout
settled_payout-is_held policy a now p o = ground arith

pub record_result-FlightAt :
    (policy : RetryPolicy) (a : Answer) (rec : Decision) (clock : Time) (lease : ℕ)
    (s : DecisionStore) (q : Decision)
    → FlightAt s clock lease rec
    → Apart rec q
    → FlightAt s clock lease q
    → FlightAt (record_result capped attempt_state policy rec a clock s).0 clock lease q
record_result-FlightAt policy a rec clock lease s q f n h = elim (payout_cases rec.claim_id s) [
  | inl absent ↦ absurd (ground arith)
  | inr (d, p, at) ↦ ground (
    arith,
    record_result-eq policy rec a clock s d p,
    settled_payout-is_held policy a clock p q.payout,
    store_and_move-decisions rec.claim_id q.claim_id
        (with_payout d (settled_payout policy a clock p)) s,
    str_eq_iff rec.claim_id q.claim_id,
  )
]
