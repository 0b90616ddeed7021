-- ===== src/Origination/Charge/Store.antt =====
-- The charges in PostgreSQL, services/origination/internal/adapters/postgres/charges.go. A statement
-- is one step: the rows it matches and what it writes to them. NULL in a column is the zero value,
-- which equals nothing. The unique index on the keys is the one that a statement can violate: the
-- policy of a charge is named after its acceptance.
use misw4501_202614_grupo.Base.{
  ◌+◌, ◌==◌, leb, ltb, Bool, true, false, not, ◌&&◌, ◌||◌, Option, none, some, List, [], ◌∷◌,
  Result, ok, err, if◌then◌else◌,
}
use misw4501_202614_grupo.Base.Int.{ℤ, pos, leb_ℤ}
use misw4501_202614_grupo.Base.Text.{Str, str_eq}
use misw4501_202614_grupo.Base.Dict.{Dict, lookup, insert}
use misw4501_202614_grupo.Base.Clock.{Time, Duration, zero_time, is_zero, add_time}
use misw4501_202614_grupo.Idempotency.{Status, FailureReason, Outcome}
use misw4501_202614_grupo.Origination.Charge.{
  Charge, ChargeResumption, ChargeFailureReason, captured, waiting_charge,
  charge_failure_reason_for, confirmed_charge,
}

-- A row of `issuance_action` that a resumption adds.
pub record IssuanceAction : Type 0 where
  pub acceptance_id : Str
  pub actor : Str
  pub note : Str
  pub created_at : Time

pub record ChargeStore : Type 0 where
  pub charges : Dict Charge
  pub actions : List IssuanceAction

pub data ChargeError : Type 0 where
  charge_not_found charge_not_resumable charge_not_payable : ChargeError
  claim_lost duplicate_key amount_not_positive : ChargeError

abbrev pub is_pending : Status → Bool
is_pending Status.pending = true
is_pending _ = false

abbrev pub is_in_progress : Status → Bool
is_in_progress Status.in_progress = true
is_in_progress _ = false

abbrev pub is_confirmed : Status → Bool
is_confirmed Status.confirmed = true
is_confirmed _ = false

abbrev pub is_failed : Status → Bool
is_failed Status.failed = true
is_failed _ = false

-- `t <= now` and `t < now` of a column that may be NULL.
abbrev pub reached : Time → Time → Bool
reached t now = not (is_zero t) && leb t now

abbrev pub passed : Time → Time → Bool
passed t now = not (is_zero t) && ltb t now

unfoldable pub write : Str → Charge → ChargeStore → ChargeStore
write id c s = record s { charges = insert id c s.charges }

-- An `UPDATE ... WHERE acceptance_id = id AND test RETURNING`.
unfoldable pub update :
    Str → (Charge → Bool) → (Charge → Charge) → ChargeStore → ChargeStore × Option Charge
unfolding write
update id test change s = elim (lookup id s.charges) [
  | none ↦ (s, none)
  | some c ↦ if test c then (write id (change c) s, some (change c)) else (s, none)
]

-- Another charge has the key.
unfoldable pub key_taken : Str → Str → Dict Charge → Bool
key_taken k id [] = false
key_taken k id ((j, c) ∷ m) = not (str_eq j id) && str_eq c.idempotency_key k || key_taken k id m

unfoldable pub get : Str → ChargeStore → Result ChargeError Charge
get id s = elim (lookup id s.charges) [ none ↦ err charge_not_found | some c ↦ ok c ]

abbrev pub inserted_charge : Charge → Charge
inserted_charge c =
    let row =
      waiting_charge c.snapshot c.idempotency_key c.window_started_at c.window_ends_at
        c.created_at in
    record row { next_attempt_at = c.next_attempt_at }

abbrev found_charge : Result ChargeError Charge → Result ChargeError (Charge × Bool)
found_charge (ok c) = ok (c, false)
found_charge (err e) = err e

unfoldable pub create_pending :
    Charge → ChargeStore → ChargeStore × Result ChargeError (Charge × Bool)
unfolding get write
create_pending c s =
    if leb_ℤ c.amount_minor (pos 0)
    then (s, err amount_not_positive)
    else elim (lookup c.acceptance_id s.charges) [
      | some existing ↦ (s, ok (existing, false))
      | none ↦
          if key_taken c.idempotency_key c.acceptance_id s.charges
          then (s, found_charge (get c.acceptance_id s))
          else (write c.acceptance_id (inserted_charge c) s, ok (inserted_charge c, true))
    ]

-- Pending and due, or in progress with a lease that ended.
unfoldable pub due : Time → Charge → Bool
due now c =
    is_pending c.status && reached c.next_attempt_at now
    || is_in_progress c.status && passed c.claimed_until now

abbrev pub claimed_charge : Time → Duration → Charge → Charge
claimed_charge now lease c =
    let diagnosis = c.diagnosis in
    record c {
      status = Status.in_progress;
      claimed_until = add_time now lease;
      diagnosis = record diagnosis { last_attempt_at = now; updated_at = now };
    }

unfoldable pub claim :
    Str → Time → Duration → ChargeStore → ChargeStore × Result ChargeError (Option Charge)
unfolding update due
claim id now lease s =
    let (s', found) = update id (due now) (claimed_charge now lease) s in (s', ok found)

abbrev pub or_error :
    ChargeError → ChargeStore × Option Charge → ChargeStore × Result ChargeError Charge
or_error e (s, none) = (s, err e)
or_error e (s, some c) = (s, ok c)

-- The claim of a copy is still the one in the table.
abbrev pub is_held : Charge → Charge → Bool
is_held rec c = not (is_zero c.claimed_until) && c.claimed_until == rec.claimed_until

abbrev pub holds_charge : Charge → Charge → Bool
holds_charge rec c = is_in_progress c.status && is_held rec c

-- `RETURNING` of the row that `confirmed` was computed for.
abbrev pub confirmed_row : Time → Charge → Charge → Charge
confirmed_row now cc c =
    let diagnosis = c.diagnosis in
    let publication = c.publication in
    record c {
      status = Status.confirmed;
      confirmed_at = cc.confirmed_at;
      next_attempt_at = zero_time;
      failure_reason = none;
      activation = cc.activation;
      publication = record publication { next_attempt_at = cc.publication.next_attempt_at };
      diagnosis = record diagnosis {
        provider_reference = cc.diagnosis.provider_reference;
        updated_at = cc.confirmed_at;
      };
    }

module _ (add_months : Time → ℤ → Time) where
  unfoldable pub confirm :
      Charge → Time → Outcome → ChargeStore → ChargeStore × Result ChargeError Charge
  unfolding update confirmed_charge
  confirm rec now out s = or_error claim_lost (
      update rec.acceptance_id (holds_charge rec)
        (confirmed_row now (confirmed_charge add_months now out.reference rec)) s)

abbrev pub rescheduled_charge : Time → Time → Str → Charge → Charge
rescheduled_charge now next cause c =
    let diagnosis = c.diagnosis in
    record c {
      status = Status.pending;
      attempts = c.attempts + 1;
      next_attempt_at = next;
      claimed_until = zero_time;
      diagnosis = record diagnosis { last_failure_at = now; last_error = cause; updated_at = now };
    }

unfoldable pub reschedule :
    Charge → Time → Time → Str → ChargeStore → ChargeStore × Result ChargeError Charge
unfolding update
reschedule rec now next cause s =
    or_error claim_lost
      (update rec.acceptance_id (holds_charge rec) (rescheduled_charge now next cause) s)

abbrev pub failed_charge : Time → ChargeFailureReason → Str → Charge → Charge
failed_charge now reason cause c =
    let diagnosis = c.diagnosis in
    record c {
      status = Status.failed;
      attempts = c.attempts + 1;
      next_attempt_at = zero_time;
      claimed_until = zero_time;
      failure_reason = some reason;
      diagnosis = record diagnosis { last_failure_at = now; last_error = cause; updated_at = now };
    }

unfoldable pub fail :
    Charge → Time → FailureReason → Str → ChargeStore → ChargeStore × Result ChargeError Charge
unfolding update charge_failure_reason_for
fail rec now reason cause s = or_error claim_lost (
    update rec.acceptance_id (holds_charge rec)
      (failed_charge now (charge_failure_reason_for reason) cause) s)

abbrev pub resumed_charge : ChargeResumption → Charge → Charge
resumed_charge r c =
    let diagnosis = c.diagnosis in
    record c {
      status = Status.pending;
      attempts = 0;
      claimed_until = zero_time;
      failure_reason = none;
      next_attempt_at = if captured c.payment_method.kind then r.at else zero_time;
      window_started_at = r.at;
      window_ends_at = r.window_ends_at;
      diagnosis = record diagnosis {
        resume_count = c.diagnosis.resume_count + 1;
        last_resumed_by = r.by;
        last_resumed_at = r.at;
        resume_note = r.note;
        updated_at = r.at;
      };
    }

abbrev pub action_of : Str → ChargeResumption → IssuanceAction
action_of id r = record { acceptance_id = id; actor = r.by; note = r.note; created_at = r.at }

-- The refusal of a statement that matched no row: there is none, or its test failed.
unfoldable pub refused : Str → ChargeError → ChargeStore → ChargeStore × Result ChargeError Charge
unfolding get
refused id e s = elim (get id s) [ err missing ↦ (s, err missing) | ok _ ↦ (s, err e) ]

-- The action is recorded by the same statement.
abbrev pub recorded :
    Str
    → ChargeResumption
    → ChargeStore
    → ChargeStore × Option Charge
    → ChargeStore × Result ChargeError Charge
recorded id r s (s', some c) = (record s' { actions = action_of id r ∷ s'.actions }, ok c)
recorded id r s (s', none) = refused id charge_not_resumable s

unfoldable pub resume :
    Str → ChargeResumption → ChargeStore → ChargeStore × Result ChargeError Charge
unfolding update refused
resume id r s = recorded id r s (update id (λ c. is_failed c.status) (resumed_charge r) s)

-- A confirmed activation that is not published, due and not held.
unfoldable pub activation_due : Time → Charge → Bool
activation_due now c =
    is_confirmed c.status
    && is_zero c.publication.published_at
    && reached c.publication.next_attempt_at now
    && (is_zero c.claimed_until || ltb c.claimed_until now)

abbrev pub activation_claimed : Time → Duration → Charge → Charge
activation_claimed now lease c =
    let diagnosis = c.diagnosis in
    record c {
      claimed_until = add_time now lease;
      diagnosis = record diagnosis { updated_at = now };
    }

unfoldable pub claim_activation : Str → Time → Duration → ChargeStore → ChargeStore × Option Charge
unfolding update activation_due
claim_activation id now lease s = update id (activation_due now) (activation_claimed now lease) s

abbrev pub holds_activation : Charge → Charge → Bool
holds_activation rec c =
    is_confirmed c.status && is_zero c.publication.published_at && is_held rec c

abbrev pub published_charge : Time → Charge → Charge
published_charge now c =
    let diagnosis = c.diagnosis in
    let publication = c.publication in
    record c {
      publication = record publication { published_at = now; next_attempt_at = zero_time };
      claimed_until = zero_time;
      diagnosis = record diagnosis { updated_at = now };
    }

unfoldable pub mark_activation_published :
    Charge → Time → ChargeStore → ChargeStore × Result ChargeError Charge
unfolding update
mark_activation_published rec now s =
    or_error claim_lost (update rec.acceptance_id (holds_activation rec) (published_charge now) s)

abbrev pub unpublished_charge : Time → Time → Str → Charge → Charge
unpublished_charge now next cause c =
    let diagnosis = c.diagnosis in
    let publication = c.publication in
    record c {
      publication = record publication {
        attempts = c.publication.attempts + 1;
        next_attempt_at = next;
        last_error = cause;
      };
      claimed_until = zero_time;
      diagnosis = record diagnosis { updated_at = now };
    }

unfoldable pub reschedule_activation :
    Charge → Time → Time → Str → ChargeStore → ChargeStore × Result ChargeError Charge
unfolding update
reschedule_activation rec now next cause s =
    or_error claim_lost
      (update rec.acceptance_id (holds_activation rec) (unpublished_charge now next cause) s)
