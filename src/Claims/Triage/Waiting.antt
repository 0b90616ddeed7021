-- ===== src/Claims/Triage/Waiting.antt =====
-- Which claims a sweep assesses.
use misw4501_202614_grupo.Base.{
  ℕ, zero, suc, ◌+◌, ◌<◌, ◌≡◌, ◌≢◌, ◌↔◌, ◌⊎◌, inl, inr, refl, ap, ◌∙◌, ◌==◌, Bool, true, false,
  Option, none, some, List, [], ◌∷◌, ◌++◌, map, take, contains, same_iff, List-cases, Bool-cases,
  Elem, arith,
}
use misw4501_202614_grupo.Base.Text.{Str, str_eq_iff, str_ltb, str_ltb_asym, str_ltb_trans}
use misw4501_202614_grupo.Base.Dict.{Dict}
use misw4501_202614_grupo.Base.Sort.{
  IsListing, Sorts, keep, sort_in, sort_in-IsListing, keep-IsListing,
}
use misw4501_202614_grupo.Claims.Case.{ClaimRecord, Status, Status-discrete}
use misw4501_202614_grupo.Claims.Triage.{TriageRecord, TriagePolicy, input_of}
use misw4501_202614_grupo.Claims.Triage.Records.{same_amount_iff}
use misw4501_202614_grupo.Claims.Triage.Store.{
  TriageStore, records_of, last_after, last_record, changed, to_assess, candidate_of, pick, pending,
  snapshot, keep_matching, without_files, filed_before, sort_by_age,
}

-- A claim waits for a recalculation exactly if its input differs from that of its last one, where
-- that input was read from a claim with the same version of the catalog under any policy.
pub changed_iff :
    (p q : TriagePolicy) (c before : ClaimRecord) (last : TriageRecord)
    → last.assessment.input ≡ input_of q before
    → before.catalog_version ≡ c.catalog_version
    → (changed c last p.version ≡ true) ↔ (input_of p c ≢ last.assessment.input)
unfolding changed input_of
changed_iff p q c before last e same_catalog = ground (
  arith,
  same_amount_iff last.assessment.input.estimated_amount_minor c.estimated_amount_minor,
  str_eq_iff last.assessment.input.policy_version p.version,
)

-- Oldest filed first, and of those filed at once the one with the smaller id.
abbrev pub IsFiledBefore : ClaimRecord → ClaimRecord → Type 0
IsFiledBefore a b =
    (a.filed_at < b.filed_at) ⊎ ((a.filed_at ≡ b.filed_at) × (str_ltb b.id a.id ≡ false))

-- A claim has no calculation yet, or one under another policy, of another claim type or of another
-- amount.
abbrev pub NeedsOne : Str → ClaimRecord → Option TriageRecord → Type 0
NeedsOne version c none = Unit
NeedsOne version c (some last) =
    let input = last.assessment.input in
    (input.policy_version ≢ version)
    ⊎ ((input.incident_type ≢ c.incident_type)
        ⊎ (input.estimated_amount_minor ≢ c.estimated_amount_minor))

-- The last calculation of a list of them, if there is one.
abbrev pub IsLast : Option TriageRecord → List TriageRecord → Type 0
IsLast none rs = rs ≡ []
IsLast (some r) rs = (before : List TriageRecord) × (rs ≡ before ++ (r ∷ []))

-- A claim of one of the statuses that needs a calculation.
abbrev pub Waits : List Status → Str → TriageStore → ClaimRecord → Type 0
Waits statuses version s c = Elem c.status statuses × NeedsOne version c (last_record c.id s)

filed_before-Sorts : Sorts IsFiledBefore filed_before
filed_before-Sorts = record {
  early = λ x y h. ground (arith, str_ltb_asym y.id x.id);
  late = λ x y h. ground arith;
  trans = λ x y z h k. ground (arith, str_ltb_trans x.id y.id z.id);
}

contains_iff :
    (st : Status) (statuses : List Status)
    → (contains Status-discrete st statuses ≡ true) ↔ Elem st statuses
contains_iff st [] = ((λ h. absurd (ground arith)), λ h. absurd h)
contains_iff st (x ∷ xs) = ground (arith, same_iff Status-discrete x st, contains_iff st xs)

to_assess_iff :
    (version : Str) (c : ClaimRecord) (last : Option TriageRecord)
    → (to_assess c last version ≡ true) ↔ NeedsOne version c last
unfolding changed
to_assess_iff version c none = ((λ _. tt), λ _. refl)
to_assess_iff version c (some last) = ground (
  arith,
  same_amount_iff last.assessment.input.estimated_amount_minor c.estimated_amount_minor,
  str_eq_iff last.assessment.input.policy_version version,
)

last_after-IsLast :
    (r : TriageRecord) (rs : List TriageRecord)
    → (x : TriageRecord) × (last_after (some r) rs ≡ some x) × IsLast (some x) (r ∷ rs)
last_after-IsLast r [] = (r, refl, ([], refl))
last_after-IsLast r (q ∷ rs) =
    let (x, e, (before, f)) = last_after-IsLast q rs in (x, e, (r ∷ before, ap (λ z. r ∷ z) f))

last_record-IsLast :
    (claim_id : Str) (s : TriageStore) → IsLast (last_record claim_id s) (records_of claim_id s)
unfolding last_record
last_record-IsLast claim_id s = elim (List-cases (records_of claim_id s)) [
  | inl e ↦ rw (last_record, e) refl
  | inr (r, rs, e) ↦ let (x, f, h) = last_after-IsLast r rs in rw (e, f) h
]

-- The claims of the store, without their files.
abbrev pub stored_claims : Dict ClaimRecord → List ClaimRecord
stored_claims [] = []
stored_claims ((_, c) ∷ m) = without_files c ∷ stored_claims m

keep_matching-statuses :
    (statuses : List Status) (m : Dict ClaimRecord)
    → keep_matching (λ c. contains Status-discrete c.status statuses) m
      ≡ keep (λ c. contains Status-discrete c.status statuses) (stored_claims m)
unfolding keep_matching keep
keep_matching-statuses statuses [] = refl
keep_matching-statuses statuses ((_, c) ∷ m) = rw (keep_matching-statuses statuses m) refl

pick_eq :
    (version : Str) (limit n k : ℕ) (s : TriageStore) (cs : List ClaimRecord)
    → limit ≡ n + suc k
    → pick version limit n s cs
      ≡ take
          (suc k)
          (map (candidate_of s) (keep (λ c. to_assess c (last_record c.id s) version) cs))
unfolding pick keep
pick_eq version limit n k s [] h = refl
pick_eq version limit n zero s (c ∷ cs) h =
    let full : (n + 1 == limit) ≡ true = ground arith in
    elim (Bool-cases (to_assess c (last_record c.id s) version)) [
      | inl e ↦ rw (pick, keep, e, full) refl
      | inr e ↦ rw (pick, keep, e) (pick_eq version limit n zero s cs h)
    ]
pick_eq version limit n (suc k) s (c ∷ cs) h =
    let open_yet : (n + 1 == limit) ≡ false = ground arith in
    elim (Bool-cases (to_assess c (last_record c.id s) version)) [
      | inl e ↦
          rw (pick, keep, e, open_yet)
            (ap (λ z. candidate_of s c ∷ z) (pick_eq version limit (n + 1) k s cs (omega arith)))
      | inr e ↦ rw (pick, keep, e) (pick_eq version limit n (suc k) s cs h)
    ]

-- A limit of 0 stops nothing.
pick-unlimited :
    (version : Str) (n : ℕ) (s : TriageStore) (cs : List ClaimRecord)
    → pick version 0 n s cs
      ≡ map (candidate_of s) (keep (λ c. to_assess c (last_record c.id s) version) cs)
unfolding pick keep
pick-unlimited version n s [] = refl
pick-unlimited version n s (c ∷ cs) =
    let open_yet : (n + 1 == 0) ≡ false = ground arith in
    elim (Bool-cases (to_assess c (last_record c.id s) version)) [
      | inl e ↦
          rw (pick, keep, e, open_yet)
            (ap (λ z. candidate_of s c ∷ z) (pick-unlimited version (n + 1) s cs))
      | inr e ↦ rw (pick, keep, e) (pick-unlimited version n s cs)
    ]

-- A sweep is given the first claims, as many as it asks for, of those that wait, and all of them under
-- a limit of 0: the claims of its statuses that have no calculation yet, or whose last one is under
-- another policy, of another claim type or of another amount. They are without their files, each once,
-- with its last calculation, the oldest filed first and by their id where they were filed at once.
pub pending-IsListing :
    (statuses : List Status) (version : Str) (k : ℕ) (s : TriageStore)
    → (waiting : List ClaimRecord) × (left : List ClaimRecord) × (pending statuses version (suc k) s
        ≡ take (suc k) (map (λ c. record { claim = c; last = last_record c.id s }) waiting))
      × (pending statuses version 0 s
          ≡ map (λ c. record { claim = c; last = last_record c.id s }) waiting)
      × ((claim_id : Str) → IsLast (last_record claim_id s) (records_of claim_id s))
      × IsListing IsFiledBefore
          (Waits statuses version s)
          (stored_claims s.cases.by_id)
          waiting
          left
unfolding pending snapshot sort_by_age
pending-IsListing statuses version k s =
    let test : ClaimRecord → Bool = λ c. contains Status-discrete c.status statuses in
    let stored = stored_claims s.cases.by_id in
    let sorted = sort_in filed_before (keep test stored) in
    let (out, l) =
      sort_in-IsListing IsFiledBefore filed_before filed_before-Sorts (λ c. Elem c.status statuses)
        test (λ c. contains_iff c.status statuses) stored in
    let assess : ClaimRecord → Bool = λ c. to_assess c (last_record c.id s) version in
    let (rest, listing) =
      keep-IsListing IsFiledBefore (λ c. Elem c.status statuses)
        (λ c. NeedsOne version c (last_record c.id s)) assess
        (λ c. to_assess_iff version c (last_record c.id s)) stored sorted out l in
    (
      keep assess sorted,
      rest,
      ap (pick version (suc k) 0 s) (ap sort_by_age (keep_matching-statuses statuses s.cases.by_id))
          ∙ pick_eq version (suc k) 0 k s sorted (omega arith),
      ap (pick version 0 0 s) (ap sort_by_age (keep_matching-statuses statuses s.cases.by_id))
          ∙ pick-unlimited version 0 s sorted,
      (λ claim_id. last_record-IsLast claim_id s),
      listing,
    )
