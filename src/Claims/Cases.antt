-- ===== src/Claims/Cases.antt =====
-- The store of the claims of both channels, services/claims/internal/adapters/memory/cases.go. Its
-- mutex makes every operation one step.
pub mod Lists
pub mod Filings
mod Tests
use misw4501_202614_grupo.Base.{
  ℕ, ◌+◌, Bool, true, false, not, ◌||◌, ◌&&◌, same, Option, none, some, List, [], ◌∷◌, ◌++◌, Result,
  ok, err, if◌then◌else◌,
}
use misw4501_202614_grupo.Base.Text.{Str, str_eq}
use misw4501_202614_grupo.Base.Dict.{Dict, lookup, insert}
use misw4501_202614_grupo.Base.Clock.{Time, is_zero}
use misw4501_202614_grupo.Claims.Case.{
  Claim, ClaimRecord, zero_claim, Channel, AttachedSupport, SupportFile,
}
use misw4501_202614_grupo.Claims.Filing.{Formats, filing_number, fingerprint, web_fingerprint}

pub record CaseStore : Type 0 where
  pub by_id : Dict ClaimRecord
  pub by_key : Dict Str
  pub sequence : ℕ
  pub supports : Dict SupportFile
  pub attached_to : Dict Str

abbrev pub new_case_store : CaseStore
new_case_store = record { by_id = []; by_key = []; sequence = 0; supports = []; attached_to = [] }

pub data CaseError : Type 0 where
  claim_not_found filing_key_reused support_already_attached support_not_found : CaseError

unfoldable pub get : CaseStore → Str → Result CaseError ClaimRecord
get s id = elim (lookup id s.by_id) [ none ↦ err claim_not_found | some c ↦ ok c ]

-- The key of the map of filings: the subject and the key of the filing, apart by a zero byte.
abbrev pub owned_key : Str → Str → Str
owned_key subject filing_key = subject ++ (0 ∷ filing_key)

-- An id that the map of claims does not have reads as the zero record.
abbrev or_zero : Option ClaimRecord → ClaimRecord
or_zero none = zero_claim
or_zero (some c) = c

unfoldable pub by_filing_key : Str → Str → CaseStore → Option ClaimRecord
by_filing_key subject filing_key s = elim (lookup (owned_key subject filing_key) s.by_key) [
  | none ↦ none
  | some id ↦ some (or_zero (lookup id s.by_id))
]

unfoldable pub find_by_key : Str → Str → CaseStore → Result CaseError ClaimRecord
unfolding by_filing_key
find_by_key subject filing_key s = elim (by_filing_key subject filing_key s) [
  | none ↦ err claim_not_found
  | some c ↦ ok c
]

abbrev is_mobile : Channel → Bool
is_mobile Channel.mobile = true
is_mobile _ = false

abbrev is_web : Channel → Bool
is_web Channel.web = true
is_web _ = false

-- Each support that a claim attaches is marked with the claim.
unfoldable pub attach : Str → List AttachedSupport → Dict Str → Dict Str
attach claim_id [] m = m
attach claim_id (a ∷ rest) m = attach claim_id rest (insert a.file.id claim_id m)

unfoldable pub any_taken : List AttachedSupport → Dict Str → Bool
any_taken [] m = false
any_taken (a ∷ rest) m = elim (lookup a.file.id m) [ some _ ↦ true | none ↦ any_taken rest m ]

-- A claim of the mobile channel.
abbrev pub mobile_record : Claim → ClaimRecord
mobile_record c = record zero_claim { claim = c; channel = Channel.mobile }

abbrev pub web_record : ClaimRecord → ClaimRecord
web_record c = record c { channel = Channel.web }

module _ (f : Formats) where
  -- The claim with the next number.
  abbrev pub numbered : ClaimRecord → CaseStore → ClaimRecord
  numbered c s =
      let claim = c.claim in
      record c {
        claim = record claim { filing_number = filing_number f c.filed_at (s.sequence + 1) };
      }

  -- `CaseStore.insert`.
  unfoldable pub insert_claim : ClaimRecord → CaseStore → CaseStore
  insert_claim c s = record s {
    sequence = s.sequence + 1;
    by_id = insert c.id (numbered c s) s.by_id;
    by_key = insert (owned_key c.subject c.filing_key) c.id s.by_key;
  }

  unfoldable pub create : Claim → CaseStore → CaseStore × Result CaseError (Claim × Bool)
  unfolding by_filing_key insert_claim
  create c s = elim (by_filing_key c.subject c.filing_key s) [
    | some existing ↦
        if not (is_mobile existing.channel)
          || not (str_eq (fingerprint f existing.claim) (fingerprint f c))
        then (s, err filing_key_reused)
        else (s, ok (existing.claim, false))
    | none ↦ (insert_claim (mobile_record c) s, ok ((numbered (mobile_record c) s).claim, true))
  ]

  -- The store with a web claim and its supports marked.
  unfoldable pub insert_web : ClaimRecord → CaseStore → CaseStore
  unfolding insert_claim attach
  insert_web c s = record (insert_claim (web_record c) s) {
    attached_to = attach c.id c.supports s.attached_to;
  }

  unfoldable pub create_web :
      ClaimRecord → CaseStore → CaseStore × Result CaseError (ClaimRecord × Bool)
  unfolding by_filing_key any_taken insert_web
  create_web c s = elim (by_filing_key c.subject c.filing_key s) [
    | some existing ↦
        if not (is_web existing.channel)
          || not (str_eq (web_fingerprint f existing) (web_fingerprint f c))
        then (s, err filing_key_reused)
        else (s, ok (existing, false))
    | none ↦
        if any_taken c.supports s.attached_to
        then (s, err support_already_attached)
        else (insert_web c s, ok (numbered (web_record c) s, true))
  ]

-- `CaseStore.Save`.
unfoldable pub save : SupportFile → CaseStore → CaseStore
save f s = record s { supports = insert f.id f s.supports }

-- `CaseStore.Confirm`: the first confirmation is kept.
unfoldable pub confirm : Str → Time → CaseStore → CaseStore × Result CaseError SupportFile
confirm id at s = elim (lookup id s.supports) [
  | none ↦ (s, err support_not_found)
  | some f ↦
      let confirmed = record f { confirmed_at = at } in
      if is_zero f.confirmed_at
      then (record s { supports = insert id confirmed s.supports }, ok confirmed)
      else (s, ok f)
]

count_in : Str → Dict Str → Dict SupportFile → ℕ
count_in owner attached [] = 0
count_in owner attached ((id, f) ∷ fs) =
    let rest = count_in owner attached fs in
    elim (lookup id attached) [
      | some _ ↦ rest
      | none ↦ if str_eq f.owner_subject owner then rest + 1 else rest
    ]

unfoldable pub count_pending : Str → CaseStore → ℕ
unfolding count_in
count_pending owner s = count_in owner s.attached_to s.supports
