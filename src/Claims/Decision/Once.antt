-- ===== src/Claims/Decision/Once.antt =====
-- A claim is decided once, and in evaluation.
use misw4501_202614_grupo.Base.{
  ◌≡◌, ◌≢◌, ◌↔◌, inl, inr, Bool, true, false, Option, none, some, ok, err, [], arith, Option-cases,
  sym,
}
use misw4501_202614_grupo.Base.Text.{Str, lit, str_eq_iff, append_cancel}
use misw4501_202614_grupo.Base.Dict.{lookup}
use misw4501_202614_grupo.Idempotency.{key}
use misw4501_202614_grupo.Claims.Case.{Status, decidable}
use misw4501_202614_grupo.Claims.Decision.{Decision, status_of, payout_key, notice_key}
use misw4501_202614_grupo.Claims.Decision.Store.{
  DecisionStore, StoreError, claim_not_found, decide, store_and_move,
}
use misw4501_202614_grupo.Claims.Decision.Entries.{
  claim_status, store_and_move-decisions, store_and_move-claim_status,
}

abbrev pub in_evaluation : Option Status → Bool
in_evaluation none = false
in_evaluation (some st) = decidable st

-- The claim under an id is in evaluation and has no decision.
abbrev pub IsOpen : Str → DecisionStore → Type 0
IsOpen id s = (in_evaluation (claim_status id s) ≡ true) × (lookup id s.decisions ≡ none)

-- The store after a decision, which differs at its claim alone.
abbrev pub Decided : Decision → DecisionStore → DecisionStore → Type 0
Decided e s s' =
    (lookup e.claim_id s'.decisions ≡ some e)
    × (claim_status e.claim_id s' ≡ some (status_of e))
    × ((j : Str)
        → j ≢ e.claim_id
        → (lookup j s'.decisions ≡ lookup j s.decisions) × (claim_status j s' ≡ claim_status j s))

decide-Decided : (d : Decision) (s : DecisionStore) → Decided d s (store_and_move d.claim_id d s)
decide-Decided d s = (
  ground
      (arith, store_and_move-decisions d.claim_id d.claim_id d s, str_eq_iff d.claim_id d.claim_id),
  ground (
    arith,
    store_and_move-claim_status d.claim_id d.claim_id d s,
    str_eq_iff d.claim_id d.claim_id,
  ),
  λ j ne. ground (
    arith,
    store_and_move-decisions d.claim_id j d s,
    store_and_move-claim_status d.claim_id j d s,
    str_eq_iff d.claim_id j,
  ),
)

decide-store :
    (d : Decision) (s : DecisionStore)
    → ((e : Decision)
        → (decide d s).1 ≡ ok e
        → IsOpen d.claim_id s
          × (e.claim_id ≡ d.claim_id)
          × (e.outcome ≡ d.outcome)
          × (e.payout ≡ d.payout)
          × ((decide d s).0 ≡ store_and_move d.claim_id e s))
      × (IsOpen d.claim_id s → (x : StoreError) → (decide d s).1 ≢ err x)
      × (((decide d s).1 ≡ err claim_not_found) ↔ (claim_status d.claim_id s ≡ none))
      × (¬ IsOpen d.claim_id s → (decide d s).0 ≡ s)
unfolding decide claim_status
decide-store d s = elim (Option-cases (lookup d.claim_id s.cases.by_id)) [
  | inl e ↦ ground arith
  | inr (c, e) ↦ elim (Option-cases (lookup d.claim_id s.decisions)) [
    | inl f ↦ ground arith
    | inr (prior, f) ↦ ground arith
  ]
]

decide_once :
    (d : Decision) (s : DecisionStore) {e : Decision}
    → (decide d s).1 ≡ ok e
    → Decided e s (decide d s).0
decide_once d s {e} h =
    let made = (decide-store d s).0 e h in rw (made.4, sym made.1) (decide-Decided e s)

-- A decision that the store accepts is of an open claim (in evaluation, without a decision) and is
-- stored with its outcome and its payout: the store then has it under its claim, the claim has the
-- status of that decision, and every other claim has the decision and the status it had. A decision of
-- an open claim is never refused; the claim is reported missing exactly if it is; and a decision of a
-- claim that is not open leaves the store as it was.
pub decide_lem :
    (d : Decision) (s : DecisionStore)
    → ((e : Decision)
        → (decide d s).1 ≡ ok e
        → IsOpen d.claim_id s
          × (e.claim_id ≡ d.claim_id)
          × (e.outcome ≡ d.outcome)
          × (e.payout ≡ d.payout)
          × Decided e s (decide d s).0
          × ((decide d s).0 ≡ store_and_move d.claim_id e s))
      × (IsOpen d.claim_id s → (x : StoreError) → (decide d s).1 ≢ err x)
      × (((decide d s).1 ≡ err claim_not_found) ↔ (claim_status d.claim_id s ≡ none))
      × (¬ IsOpen d.claim_id s → (decide d s).0 ≡ s)
decide_lem d s =
    let (accepted, never_refused, missing, kept) = decide-store d s in
    (
      λ e h.
          let (open_claim, id_eq, outcome_eq, payout_eq, moved) = accepted e h in
          (open_claim, id_eq, outcome_eq, payout_eq, decide_once d s h, moved),
      never_refused,
      missing,
      kept,
    )

-- Once a decision was accepted, no other decision of the same claim changes the store.
pub decide_twice :
    (d e : Decision) (s : DecisionStore) {stored : Decision}
    → (decide d s).1 ≡ ok stored
    → e.claim_id ≡ d.claim_id
    → (decide e (decide d s).0).0 ≡ (decide d s).0
decide_twice d e s {stored} h same_id =
    ground
      (arith, decide_once d s h, (decide-store d s).0 stored h, (decide-store e (decide d s).0).3)

-- Two claims never share a key, a payout and a notice never have the same one, and the key of a
-- payout is the one that the shared mechanism builds from its prefix and the id of the claim.
keys_lem :
    (a b : Str)
    → (payout_key a ≡ payout_key b → a ≡ b)
      × (notice_key a ≡ notice_key b → a ≡ b)
      × (payout_key a ≢ notice_key b)
      × (a ≢ [] → key (lit "indemnizacion") a ≡ ok (payout_key a))
unfolding payout_key notice_key key
keys_lem a b = (
  λ h. append_cancel (lit "indemnizacion-") a b h,
  λ h. append_cancel (lit "rechazo-") a b h,
  λ h. ground arith,
  λ h. ground arith,
)
