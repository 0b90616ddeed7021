-- ===== src/Origination/Renewal/Store.antt =====
-- The renewals and the policies in PostgreSQL, services/origination/internal/adapters/postgres:
-- renewals.go and policies.go. The table of the renewals is the list of its rows, and a statement is
-- one step. A renewal is of a policy that is stored.
use misw4501_202614_grupo.Base.{
  ℕ, ◌==◌, leb, ltb, Bool, true, false, not, ◌&&◌, ◌||◌, Option, none, some, List, [], ◌∷◌, ◌++◌,
  Result, ok, err, take, if◌then◌else◌,
}
use misw4501_202614_grupo.Base.Text.{Str, str_eq}
use misw4501_202614_grupo.Base.Dict.{Dict, lookup, insert}
use misw4501_202614_grupo.Base.Clock.{Time, is_zero}
use misw4501_202614_grupo.Origination.Activation.{Policy}
use misw4501_202614_grupo.Origination.Charge.Store.{ChargeStore}
use misw4501_202614_grupo.Origination.Renewal.{
  Renewal, RenewalStatus, accepted, renewed, not_renewed, NotRenewedReason,
}

pub record Portfolio : Type 0 where
  pub policies : Dict Policy
  pub renewals : List Renewal
  pub billing : ChargeStore

pub data RenewalError : Type 0 where
  renewal_not_found policy_not_found duplicate_renewal_id : RenewalError

abbrev pub is_accepted : RenewalStatus → Bool
is_accepted accepted = true
is_accepted _ = false

abbrev pub is_not_renewed : RenewalStatus → Bool
is_not_renewed not_renewed = true
is_not_renewed _ = false

-- The unique key of a row.
abbrev pub is_period : Str → Time → Renewal → Bool
is_period policy_id period_end r = str_eq r.policy_id policy_id && r.period_end == period_end

unfoldable pub find_period : Str → Time → List Renewal → Option Renewal
find_period policy_id period_end [] = none
find_period policy_id period_end (r ∷ rs) =
    if is_period policy_id period_end r then some r else find_period policy_id period_end rs

unfoldable pub has_id : Str → List Renewal → Bool
has_id id [] = false
has_id id (r ∷ rs) = str_eq r.id id || has_id id rs

-- `RenewalStore.Create`.
unfoldable pub create_renewal :
    Renewal → Portfolio → Portfolio × Result RenewalError (Renewal × Bool)
unfolding find_period has_id
create_renewal r p = elim (find_period r.policy_id r.period_end p.renewals) [
  | some existing ↦ (p, ok (existing, false))
  | none ↦
      if has_id r.id p.renewals
      then (p, err duplicate_renewal_id)
      else (record p { renewals = p.renewals ++ (r ∷ []) }, ok (r, true))
]

-- `RenewalStore.Get`.
unfoldable pub get_renewal : Str → Time → Portfolio → Result RenewalError Renewal
unfolding find_period
get_renewal policy_id period_end p = elim (find_period policy_id period_end p.renewals) [
  | none ↦ err renewal_not_found
  | some r ↦ ok r
]

-- An `UPDATE` of the accepted row with the id, and whether there was one.
unfoldable pub close_rows : Str → (Renewal → Renewal) → List Renewal → List Renewal × Bool
close_rows id change [] = ([], false)
close_rows id change (r ∷ rs) =
    let (rest, found) = close_rows id change rs in
    if str_eq r.id id && is_accepted r.status then (change r ∷ rest, true) else (r ∷ rest, found)

abbrev pub closed : Portfolio → List Renewal × Bool → Portfolio × Bool
closed p (rows, found) = (record p { renewals = rows }, found)

abbrev pub renewed_row : Str → Time → Renewal → Renewal
renewed_row policy_id at r = record r {
  status = renewed;
  new_policy_id = policy_id;
  closed_at = at;
}

abbrev pub not_renewed_row : NotRenewedReason → Time → Renewal → Renewal
not_renewed_row why at r = record r { status = not_renewed; reason = some why; closed_at = at }

unfoldable pub mark_renewed : Str → Str → Time → Portfolio → Portfolio × Bool
unfolding close_rows
mark_renewed id policy_id at p = closed p (close_rows id (renewed_row policy_id at) p.renewals)

unfoldable pub mark_not_renewed : Str → NotRenewedReason → Time → Portfolio → Portfolio × Bool
unfolding close_rows
mark_not_renewed id why at p = closed p (close_rows id (not_renewed_row why at) p.renewals)

unfoldable pub keep_rows : (Renewal → Bool) → List Renewal → List Renewal
keep_rows test [] = []
keep_rows test (r ∷ rs) = let rest = keep_rows test rs in if test r then r ∷ rest else rest

-- `ORDER BY` a time; the database leaves the order of equal times open.
unfoldable pub insert_by : {A : Type 0} → (A → Time) → A → List A → List A
insert_by when a [] = a ∷ []
insert_by when a (b ∷ bs) =
    let rest = insert_by when a bs in if ltb (when b) (when a) then b ∷ rest else a ∷ b ∷ bs

unfoldable pub sort_by : {A : Type 0} → (A → Time) → List A → List A
unfolding insert_by
sort_by when [] = []
sort_by when (a ∷ rest) = insert_by when a (sort_by when rest)

unfoldable pub list_accepted : ℕ → Portfolio → List Renewal
unfolding keep_rows sort_by
list_accepted limit p =
    take limit (sort_by (λ r. r.retry_until) (keep_rows (λ r. is_accepted r.status) p.renewals))

abbrev pub untold : Renewal → Bool
untold r = is_not_renewed r.status && is_zero r.notified_at && not r.notification_failed

unfoldable pub list_unnotified : ℕ → Portfolio → List Renewal
unfolding keep_rows sort_by
list_unnotified limit p = take limit (sort_by (λ r. r.created_at) (keep_rows untold p.renewals))

abbrev pub told : Time → Bool → Renewal → Renewal
told at failed r =
    if failed then record r { notification_failed = true } else record r { notified_at = at }

unfoldable pub tell_rows : Str → Time → Bool → List Renewal → List Renewal
tell_rows id at failed [] = []
tell_rows id at failed (r ∷ rs) =
    (if str_eq r.id id then told at failed r else r) ∷ tell_rows id at failed rs

unfoldable pub mark_notified : Str → Time → Bool → Portfolio → Portfolio
unfolding tell_rows
mark_notified id at failed p = record p { renewals = tell_rows id at failed p.renewals }

-- `PolicyStore.Create`: a policy is written once.
unfoldable pub create_policy : Policy → Portfolio → Portfolio
create_policy policy p = elim (lookup policy.id p.policies) [
  | some _ ↦ p
  | none ↦ record p { policies = insert policy.id policy p.policies }
]

unfoldable pub get_policy : Str → Portfolio → Result RenewalError Policy
get_policy id p = elim (lookup id p.policies) [
  | none ↦ err policy_not_found
  | some policy ↦ ok policy
]

-- The policies that ended between two times and have no renewal of their period.
unfoldable pub lapsed_policies : Time → Time → List Renewal → Dict Policy → List Policy
unfolding find_period
lapsed_policies since now renewals [] = []
lapsed_policies since now renewals ((id, policy) ∷ rest) =
    let others = lapsed_policies since now renewals rest in
    elim (find_period policy.id policy.coverage_end renewals) [
      | some _ ↦ others
      | none ↦
          if leb since policy.coverage_end && leb policy.coverage_end now
          then policy ∷ others
          else others
    ]

unfoldable pub list_lapsed : Time → Time → ℕ → Portfolio → List Policy
unfolding lapsed_policies sort_by
list_lapsed since now limit p =
    take limit (sort_by (λ q. q.coverage_end) (lapsed_policies since now p.renewals p.policies))
