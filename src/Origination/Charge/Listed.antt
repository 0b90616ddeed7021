-- ===== src/Origination/Charge/Listed.antt =====
-- What the list of the due charges holds.
use misw4501_202614_grupo.Base.{
  ℕ, ◌≤◌, ◌<◌, ◌≡◌, ◌≢◌, refl, ◌⊎◌, ◌↔◌, true, false, List, [], ◌∷◌, ap, map, take, arith,
}
use misw4501_202614_grupo.Base.Text.{str_ltb, str_ltb_asym, str_ltb_trans}
use misw4501_202614_grupo.Base.Sort.{IsListing, Sorts, sort_in-IsListing}
use misw4501_202614_grupo.Base.Clock.{Time}
use misw4501_202614_grupo.Idempotency.{Status}
use misw4501_202614_grupo.Origination.Charge.{Charge}
use misw4501_202614_grupo.Origination.Charge.Store.{ChargeStore}
use misw4501_202614_grupo.Origination.Charge.Queue.{
  Row, selected, earlier, ids, is_listed_due, list_due,
}

-- A charge that a worker may take at a time: it waits for an attempt whose time came, or the lease of
-- the worker that took it ended before. A zero time is none.
abbrev pub IsDue : Time → Charge → Type 0
IsDue now c =
    ((c.status ≡ Status.pending) × (c.next_attempt_at ≢ 0) × (c.next_attempt_at ≤ now))
    ⊎ ((c.status ≡ Status.in_progress) × (c.claimed_until ≢ 0) × (c.claimed_until < now))

-- By the time of the next attempt, and by the acceptance where it is the same.
abbrev pub IsEarlier : Row → Row → Type 0
IsEarlier (i, c) (j, d) =
    (c.next_attempt_at < d.next_attempt_at)
    ⊎ ((c.next_attempt_at ≡ d.next_attempt_at) × (str_ltb j i ≡ false))

earlier-Sorts : Sorts IsEarlier (earlier (λ c. c.next_attempt_at))
earlier-Sorts = record {
  early = λ x y h. ground (arith, str_ltb_asym y.0 x.0);
  late = λ x y h. ground arith;
  trans = λ x y z h k. ground (arith, str_ltb_trans x.0 y.0 z.0);
}

is_listed_due_iff : (now : Time) (c : Charge) → (is_listed_due now c ≡ true) ↔ IsDue now c
unfolding is_listed_due
is_listed_due_iff now c = ground arith

ids_eq : (rows : List Row) → ids rows ≡ map (λ r. r.0) rows
ids_eq [] = refl
ids_eq (r ∷ rows) = ap (λ z. r.0 ∷ z) (ids_eq rows)

-- The acceptances that the worker is given at a time are the first ones, as many as it asks for, of the
-- charges that are due then, each once: those that wait for an attempt whose time came, and those that
-- a worker took and whose lease ended. They are in the order of their next attempts, and of their
-- acceptances where these are at one time.
pub list_due-IsListing :
    (now : Time) (limit : ℕ) (s : ChargeStore)
    → (due_rows : List Row) × (left : List Row) × (list_due now limit s
        ≡ map (λ r. r.0) (take limit due_rows))
      × IsListing IsEarlier (λ r. IsDue now r.1) s.charges due_rows left
unfolding list_due
list_due-IsListing now limit s =
    let (left, h) =
      sort_in-IsListing IsEarlier (earlier (λ c. c.next_attempt_at)) earlier-Sorts
        (λ r. IsDue now r.1) (λ r. is_listed_due now r.1) (λ r. is_listed_due_iff now r.1)
        s.charges in
    let rows = selected (earlier (λ c. c.next_attempt_at)) (is_listed_due now) s.charges in
    (rows, left, ids_eq (take limit rows), h)
