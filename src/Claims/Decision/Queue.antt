-- ===== src/Claims/Decision/Queue.antt =====
-- What the worker of the decisions looks up, and the notices of rejection:
-- services/claims/internal/adapters/memory/decisions.go.
use misw4501_202614_grupo.Base.{
  ℕ, ◌+◌, Bool, false, not, ◌&&◌, Option, none, some, List, [], ◌∷◌, take, if◌then◌else◌,
}
use misw4501_202614_grupo.Base.Text.{Str, str_ltb}
use misw4501_202614_grupo.Base.Dict.{Dict, lookup}
use misw4501_202614_grupo.Base.Clock.{Time, zero_time, is_zero, is_after}
use misw4501_202614_grupo.Claims.Decision.{Notice, Decision}
use misw4501_202614_grupo.Claims.Decision.Store.{DecisionStore, due, write}

-- The order of the lists: by claim id.
insert_id : Str → List Str → List Str
insert_id x [] = x ∷ []
insert_id x (y ∷ ys) = let rest = insert_id x ys in if str_ltb y x then y ∷ rest else x ∷ y ∷ ys

due_ids : Time → Dict Decision → List Str
unfolding due insert_id
due_ids now [] = []
due_ids now ((id, d) ∷ ds) =
    let rest = due_ids now ds in if due d.payout now then insert_id id rest else rest

unfoldable pub list_payouts_due : Time → ℕ → DecisionStore → List Str
unfolding due_ids
list_payouts_due now limit s = take limit (due_ids now s.decisions)

unfoldable pub notice_due : Option Notice → Time → Bool
notice_due none now = false
notice_due (some n) now = is_zero n.sent_at && not (is_after n.next_attempt_at now)

insert_decision : Decision → List Decision → List Decision
insert_decision d [] = d ∷ []
insert_decision d (e ∷ es) =
    let rest = insert_decision d es in
    if str_ltb e.claim_id d.claim_id then e ∷ rest else d ∷ e ∷ es

due_notices : Time → Dict Decision → List Decision
unfolding notice_due insert_decision
due_notices now [] = []
due_notices now ((_, d) ∷ ds) =
    let rest = due_notices now ds in
    if notice_due d.notice now then insert_decision d rest else rest

unfoldable pub list_notices_due : Time → ℕ → DecisionStore → List Decision
unfolding due_notices
list_notices_due now limit s = take limit (due_notices now s.decisions)

abbrev pub with_notice : Decision → Notice → Decision
with_notice d n = record d { notice = some n }

-- A change of a notice that was not sent yet.
unfoldable pub change_notice : Str → (Notice → Notice) → DecisionStore → DecisionStore
change_notice claim_id change s = elim (lookup claim_id s.decisions) [
  | none ↦ s
  | some d ↦ elim (d.notice) [
    | none ↦ s
    | some n ↦ if is_zero n.sent_at then write claim_id (with_notice d (change n)) s else s
  ]
]

unfoldable pub notice_sent : Str → Time → DecisionStore → DecisionStore
unfolding change_notice
notice_sent claim_id at s =
    change_notice claim_id
      (λ n. record n {
        sent_at = at;
        attempts = n.attempts + 1;
        next_attempt_at = zero_time;
        last_error = [];
      })
      s

unfoldable pub notice_failed : Str → Time → Str → DecisionStore → DecisionStore
unfolding change_notice
notice_failed claim_id next cause s =
    change_notice claim_id
      (λ n. record n { attempts = n.attempts + 1; next_attempt_at = next; last_error = cause }) s
