-- ===== src/Audit/Compliance.antt =====
-- The list of consents of the compliance portal,
-- services/audit/internal/domain/compliance_list.go. The records have the fields that the list reads.
-- The reading of a civil day, the day after one and `strings.ToUpper` are parameters.
pub mod Request
pub mod Pages
pub mod Shown
pub mod Limits
pub mod Indicators
mod Tests
use misw4501_202614_grupo.Base.{
  ℕ, ◌+◌, ◌-◌, ◌*◌, ◌/◌, ◌==◌, leb, ltb, Bool, true, false, not, ◌&&◌, ◌||◌, Option, none, some,
  List, [], ◌∷◌, ◌++◌, length, take, drop, if◌then◌else◌,
}
use misw4501_202614_grupo.Base.Text.{
  Str, lit, is_empty, str_eq, str_ltb, is_space, is_digit, trim_space, contains_text,
}
use misw4501_202614_grupo.Base.Sort.{keep, sort_in}
use misw4501_202614_grupo.Base.Clock.{Time, is_zero, is_before, is_after}

pub record ConsentHolder : Type 0 where
  pub document_id : Str
  pub full_name : Str

pub record Consent : Type 0 where
  pub id : Str
  pub holder : ConsentHolder
  pub partner_id : Str
  pub granted_at : Time

pub data ConsentStatus : Type 0 where
  active expired revoked revocation_pending partially_revoked : ConsentStatus

pub record RevocationView : Type 0 where
  pub effective_at : Time
  pub channel : Str
  pub out_of_deadline : Bool

pub record ConsentView : Type 0 where
  pub consent : Consent
  pub status : ConsentStatus
  pub revocation : Option RevocationView

pub record ComplianceSearch : Type 0 where
  pub text : Str
  pub document : Str
  pub name : Str

-- No status is every status; a page starts at 1.
pub record ComplianceQuery : Type 0 where
  pub status : Option ConsentStatus
  pub granted_from : Time
  pub granted_before : Time
  pub entity : Str
  pub search : ComplianceSearch
  pub page : ℕ
  pub page_size : ℕ

abbrev pub same_status : ConsentStatus → ConsentStatus → Bool
same_status active active = true
same_status expired expired = true
same_status revoked revoked = true
same_status revocation_pending revocation_pending = true
same_status partially_revoked partially_revoked = true
same_status _ _ = false

-- The small letter of a capital of ASCII, and of one with an accent, without it.
unfoldable pub fold_accent : ℕ → ℕ
fold_accent c =
    if c == 0xc1 || c == 0xe1
    then 0x61
    else if c == 0xc9 || c == 0xe9
    then 0x65
    else if c == 0xcd || c == 0xed
    then 0x69
    else if c == 0xd3 || c == 0xf3
    then 0x6f
    else if c == 0xda || c == 0xdc || c == 0xfa || c == 0xfc
    then 0x75
    else if c == 0xd1 || c == 0xf1
    then 0x6e
    else c

unfoldable pub fold_rune : ℕ → ℕ
unfolding fold_accent
fold_rune c = if leb 0x41 c && leb c 0x5a then c + 0x20 else fold_accent c

unfoldable pub fold_name : Str → Str
unfolding fold_rune
fold_name [] = []
fold_name (c ∷ s) = fold_rune c ∷ fold_name s

-- `strings.Fields` joined by one space: spaces before a word become one, and those at the end none.
unfoldable pub join_fields : Bool → Bool → Str → Str
unfolding is_space
join_fields started gap [] = []
join_fields started gap (c ∷ s) = elim (is_space c) [
  | true ↦ join_fields started true s
  | false ↦
      let rest = join_fields true false s in if started && gap then 32 ∷ c ∷ rest else c ∷ rest
]

unfoldable pub normalize_name : Str → Str
unfolding join_fields
normalize_name s = join_fields false false s

-- The letters and digits of ASCII, in capitals.
unfoldable pub document_of : Str → Str
document_of [] = []
document_of (c ∷ s) =
    let rest = document_of s in
    if is_digit c || leb 0x41 c && leb c 0x5a
    then c ∷ rest
    else if leb 0x61 c && leb c 0x7a
    then (c - 0x20) ∷ rest
    else rest

abbrev pub no_search : ComplianceSearch
no_search = record { text = []; document = []; name = [] }

-- `NewComplianceSearch`.
unfoldable pub new_search : Str → ComplianceSearch
unfolding trim_space document_of fold_name normalize_name
new_search raw =
    let text = trim_space raw in
    if is_empty text
    then no_search
    else record { text = text; document = document_of text; name = fold_name (normalize_name text) }

-- The latest granted first, then by the id.
abbrev pub shown_before : ConsentView → ConsentView → Bool
shown_before v w =
    let a = v.consent in
    let b = w.consent in
    if not (a.granted_at == b.granted_at)
    then is_after a.granted_at b.granted_at
    else str_ltb a.id b.id

-- `SortForCompliance`, which is stable.
unfoldable pub sort_for_compliance : List ConsentView → List ConsentView
unfolding sort_in
sort_for_compliance views = sort_in shown_before views

module _ (to_upper : Str → Str) where
  unfoldable pub normalize_document : Str → Str
  unfolding trim_space
  normalize_document s = to_upper (trim_space s)

  unfoldable pub search_matches : ComplianceSearch → Consent → Bool
  unfolding normalize_document contains_text fold_name
  search_matches s c =
      is_empty s.text
      || str_eq c.id s.text
      || not (is_empty s.document) && str_eq (normalize_document c.holder.document_id) s.document
      || not (is_empty s.name) && contains_text (fold_name c.holder.full_name) s.name

  abbrev pub other_status : Option ConsentStatus → ConsentStatus → Bool
  other_status none status = false
  other_status (some asked) status = not (same_status status asked)

  -- `ComplianceQuery.Matches`.
  unfoldable pub query_matches : ComplianceQuery → ConsentView → Bool
  unfolding search_matches
  query_matches q v =
      let c = v.consent in
      if other_status q.status v.status
      then false
      else if not (is_zero q.granted_from) && is_before c.granted_at q.granted_from
      then false
      else if not (is_zero q.granted_before) && not (is_before c.granted_at q.granted_before)
      then false
      else if not (is_empty q.entity) && not (str_eq c.partner_id q.entity)
      then false
      else search_matches q.search c

  unfoldable pub filter_for_compliance : List ConsentView → ComplianceQuery → List ConsentView
  unfolding keep query_matches sort_for_compliance
  filter_for_compliance views q = sort_for_compliance (keep (query_matches q) views)

-- A page that `Validate` accepted is at least 1, so that the offset is not negative.
abbrev pub offset : ComplianceQuery → ℕ
offset q = (q.page - 1) * q.page_size

unfoldable pub paginate : List ConsentView → ComplianceQuery → List ConsentView
paginate matching q =
    let start = offset q in
    let end =
      if ltb (length matching) (start + q.page_size)
      then length matching
      else start + q.page_size in
    if leb (length matching) start then [] else take (end - start) (drop start matching)

unfoldable pub total_pages : ℕ → ℕ → ℕ
total_pages total page_size =
    if total == 0 || page_size == 0 then 1 else (total + page_size - 1) / page_size
