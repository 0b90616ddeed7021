-- ===== src/Origination/Charge/Queue.antt =====
-- What the charges in PostgreSQL are listed by, services/origination/internal/adapters/postgres/
-- charges.go. A date that is NULL is the zero time, the earliest of all: it comes first where the
-- order says `NULLS FIRST`, and last in the order by the latest failure.
use misw4501_202614_grupo.Base.{ℕ, ltb, ◌==◌, Bool, ◌&&◌, ◌||◌, List, [], ◌∷◌, take}
use misw4501_202614_grupo.Base.Text.{Str, str_ltb}
use misw4501_202614_grupo.Base.Dict.{Dict}
use misw4501_202614_grupo.Base.Clock.{Time}
use misw4501_202614_grupo.Base.Sort.{keep, sort_in}
use misw4501_202614_grupo.Origination.Charge.{Charge}
use misw4501_202614_grupo.Origination.Charge.Store.{
  ChargeStore, is_pending, is_in_progress, is_failed, reached, passed, activation_due,
}

abbrev pub Row : Type 0
Row = Str × Charge

-- `WHERE`, over the rows of the table, and `ORDER BY` what comes before what.
abbrev pub selected : (Row → Row → Bool) → (Charge → Bool) → Dict Charge → List Row
selected before test rows = sort_in before (keep (λ r. test r.1) rows)

-- By a time, then by the acceptance.
abbrev pub earlier : (Charge → Time) → Row → Row → Bool
earlier when (i, c) (j, d) = ltb (when c) (when d) || when c == when d && str_ltb i j

abbrev pub later : (Charge → Time) → Row → Row → Bool
later when (i, c) (j, d) = ltb (when d) (when c) || when c == when d && str_ltb i j

abbrev pub ids : List Row → List Str
ids [] = []
ids ((id, _) ∷ rows) = id ∷ ids rows

abbrev pub charges_of : List Row → List Charge
charges_of [] = []
charges_of ((_, c) ∷ rows) = c ∷ charges_of rows

-- The condition of the list of the due charges: pending and due, or in progress with a lease that ended.
unfoldable pub is_listed_due : Time → Charge → Bool
is_listed_due now c =
    is_pending c.status && reached c.next_attempt_at now
    || is_in_progress c.status && passed c.claimed_until now

unfoldable pub list_due : Time → ℕ → ChargeStore → List Str
unfolding is_listed_due keep sort_in
list_due now limit s =
    ids (take limit (selected (earlier (λ c. c.next_attempt_at)) (is_listed_due now) s.charges))

unfoldable pub list_activations_due : Time → ℕ → ChargeStore → List Str
unfolding activation_due keep sort_in
list_activations_due now limit s = ids (
    take limit
      (selected (earlier (λ c. c.publication.next_attempt_at)) (activation_due now) s.charges))

unfoldable pub list_exceptions : ℕ → ChargeStore → List Charge
unfolding keep sort_in
list_exceptions limit s = charges_of (
    take limit
      (selected (later (λ c. c.diagnosis.last_failure_at)) (λ c. is_failed c.status) s.charges))
