-- ===== src/Claims/Triage/Store.antt =====
-- The calculations of each claim, services/claims/internal/adapters/memory/triage.go: they are only
-- added, and each one takes the next place of its claim. The store reads the claims of a store of
-- claims, which other operations change; the values that a map is walked over come in any order, and
-- every use sorts them or looks for one id.
use misw4501_202614_grupo.Base.{
  ℕ, ◌+◌, Bool, true, false, not, ◌||◌, ◌==◌, Option, none, some, List, [], ◌∷◌, ◌++◌, Result, ok,
  err, same, contains, length, if◌then◌else◌,
}
use misw4501_202614_grupo.Base.Text.{Str, str_eq, str_ltb}
use misw4501_202614_grupo.Base.Sort.{sort_in}
use misw4501_202614_grupo.Base.Dict.{Dict, lookup, insert}
use misw4501_202614_grupo.Base.Clock.{is_before}
use misw4501_202614_grupo.Claims.Catalog.{IncidentType-discrete}
use misw4501_202614_grupo.Claims.Case.{Status, Status-discrete, ClaimRecord, zero_claim}
use misw4501_202614_grupo.Claims.Cases.{CaseStore}
use misw4501_202614_grupo.Claims.Triage.{TriageRecord, same_amount}

pub record TriageStore : Type 0 where
  pub cases : CaseStore
  pub records : Dict (List TriageRecord)

abbrev pub new_triage_store : CaseStore → TriageStore
new_triage_store cases = record { cases = cases; records = [] }

pub record TriageCandidate : Type 0 where
  pub claim : ClaimRecord
  pub last : Option TriageRecord

pub data TriageError : Type 0 where
  claim_not_found triage_conflict : TriageError

-- A claim without its supports and its evidence.
abbrev pub without_files : ClaimRecord → ClaimRecord
without_files c =
    let claim = c.claim in record c { claim = record claim { evidence = [] }; supports = [] }

unfoldable pub keep_matching : (ClaimRecord → Bool) → Dict ClaimRecord → List ClaimRecord
keep_matching match [] = []
keep_matching match ((_, c) ∷ cs) =
    let rest = keep_matching match cs in if match c then without_files c ∷ rest else rest

unfoldable pub snapshot : (ClaimRecord → Bool) → CaseStore → List ClaimRecord
unfolding keep_matching
snapshot match s = keep_matching match s.by_id

-- The calculations of a claim, oldest first.
abbrev pub or_nil : Option (List TriageRecord) → List TriageRecord
or_nil none = []
or_nil (some rs) = rs

unfoldable pub records_of : Str → TriageStore → List TriageRecord
records_of claim_id s = or_nil (lookup claim_id s.records)

abbrev pub last_after : Option TriageRecord → List TriageRecord → Option TriageRecord
last_after last [] = last
last_after last (r ∷ rs) = last_after (some r) rs

-- `TriageStore.last`.
unfoldable pub last_record : Str → TriageStore → Option TriageRecord
unfolding records_of
last_record claim_id s = last_after none (records_of claim_id s)

unfoldable pub changed : ClaimRecord → TriageRecord → Str → Bool
changed c last policy_version =
    let input = last.assessment.input in
    not (str_eq input.policy_version policy_version)
    || not (same IncidentType-discrete input.incident_type c.incident_type)
    || not (same_amount input.estimated_amount_minor c.estimated_amount_minor)

-- Oldest filed first, by id where two were filed at once.
abbrev pub filed_before : ClaimRecord → ClaimRecord → Bool
filed_before a b =
    if not (a.filed_at == b.filed_at) then is_before a.filed_at b.filed_at else str_ltb a.id b.id

unfoldable pub sort_by_age : List ClaimRecord → List ClaimRecord
unfolding sort_in
sort_by_age claims = sort_in filed_before claims

abbrev pub to_assess : ClaimRecord → Option TriageRecord → Str → Bool
to_assess c none policy_version = true
to_assess c (some last) policy_version = changed c last policy_version

abbrev pub candidate_of : TriageStore → ClaimRecord → TriageCandidate
candidate_of s c = record { claim = c; last = last_record c.id s }

-- The loop stops at the claim that makes the list as long as `limit`, which is checked only after a
-- claim was added: a limit of 0 stops nothing. `n` is the length of the list so far.
unfoldable pub pick : Str → ℕ → ℕ → TriageStore → List ClaimRecord → List TriageCandidate
unfolding changed last_record
pick policy_version limit n s [] = []
pick policy_version limit n s (c ∷ cs) =
    let last = last_record c.id s in
    let passed = pick policy_version limit n s cs in
    let added = pick policy_version limit (n + 1) s cs in
    let found = candidate_of s c in
    if to_assess c last policy_version
    then (if (n + 1) == limit then found ∷ [] else found ∷ added)
    else passed

-- The claims to assess: `TriageStore.Pending`.
unfoldable pub pending : List Status → Str → ℕ → TriageStore → List TriageCandidate
unfolding snapshot sort_by_age pick
pending statuses policy_version limit s =
    pick policy_version limit 0 s
      (sort_by_age (snapshot (λ c. contains Status-discrete c.status statuses) s.cases))

unfoldable pub candidate : Str → TriageStore → Result TriageError TriageCandidate
unfolding snapshot last_record
candidate claim_id s = elim (snapshot (λ c. str_eq c.id claim_id) s.cases) [
  | [] ↦ err claim_not_found
  | c ∷ _ ↦ ok (record { claim = c; last = last_record claim_id s })
]

-- `TriageStore.Record`: the calculation in its place, or a conflict.
unfoldable pub add_record : TriageRecord → TriageStore → TriageStore × Option TriageError
unfolding records_of
add_record r s =
    let rs = records_of r.claim_id s in
    if not (r.seq == length rs + 1)
    then (s, some triage_conflict)
    else (record s { records = insert r.claim_id (rs ++ (r ∷ [])) s.records }, none)

unfoldable pub newest_first : List TriageRecord → List TriageRecord
newest_first [] = []
newest_first (r ∷ rs) = newest_first rs ++ (r ∷ [])

unfoldable pub history : Str → TriageStore → List TriageRecord
unfolding records_of newest_first
history claim_id s = newest_first (records_of claim_id s)

abbrev bare_claim : ClaimRecord → ClaimRecord
bare_claim c =
    let claim = zero_claim.claim in
    record zero_claim { claim = record claim { id = c.id; status = c.status } }

candidates_of : TriageStore → List ClaimRecord → Dict TriageCandidate
unfolding last_record
candidates_of s [] = []
candidates_of s (c ∷ cs) =
    insert c.id (record { claim = bare_claim c; last = last_record c.id s }) (candidates_of s cs)

wanted : List Str → ClaimRecord → Bool
wanted [] c = false
wanted (id ∷ ids) c = str_eq id c.id || wanted ids c

-- The status and the last calculation of the claims that exist.
unfoldable pub current : List Str → TriageStore → Dict TriageCandidate
unfolding candidates_of wanted snapshot
current ids s = candidates_of s (snapshot (wanted ids) s.cases)
