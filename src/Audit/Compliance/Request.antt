-- ===== src/Audit/Compliance/Request.antt =====
-- The query of the list as the portal sends it, `ComplianceListRequest.Validate`.
use misw4501_202614_grupo.Base.{
  ℕ, ◌+◌, ◌-◌, ◌*◌, ◌==◌, ltb, Bool, true, false, not, ◌&&◌, ◌||◌, Option, none, some, List, [],
  ◌∷◌, ◌++◌, Result, ok, err, length, if◌then◌else◌,
}
use misw4501_202614_grupo.Base.Int.{ℤ, pos, negsuc, ltb_ℤ, ◌-ℤ◌}
use misw4501_202614_grupo.Base.Text.{
  Str, lit, is_empty, str_eq, is_digit, is_word, every, byte_len, trim_space,
}
use misw4501_202614_grupo.Base.Clock.{Time, is_zero, is_before, zero_time}
use misw4501_202614_grupo.Audit.Compliance.{
  ConsentStatus, active, expired, revoked, partially_revoked, ComplianceSearch, no_search,
  new_search, ComplianceQuery,
}

abbrev pub default_page_size : ℕ
default_page_size = 20

abbrev pub max_page_size : ℕ
max_page_size = 50

abbrev pub max_search_length : ℕ
max_search_length = 100

abbrev pub max_page : ℕ
max_page = 2_147_483_647

abbrev pub max_identifier_length : ℕ
max_identifier_length = 128

pub record ComplianceListRequest : Type 0 where
  pub status : Str
  pub granted_from : Str
  pub granted_to : Str
  pub entity : Str
  pub search : Str
  pub page : Str
  pub page_size : Str

pub data FieldCode : Type 0 where
  invalid_format out_of_range : FieldCode

pub record FieldError : Type 0 where
  pub field : Str
  pub code : FieldCode

-- `strconv.ParseInt(raw, 10, 32)`.
pub data ParsedInt : Type 0 where
  bad_syntax bad_range : ParsedInt
  parsed : ℤ → ParsedInt

-- The digits after a number; a number of more than 32 bits ends the reading.
unfoldable pub parse_digits : ℕ → Str → ParsedInt
parse_digits n [] = parsed (pos n)
parse_digits n (c ∷ s) =
    let n1 = n * 10 + (c - 0x30) in
    elim (is_digit c) [
      | false ↦ bad_syntax
      | true ↦ elim (ltb 4_294_967_295 n1) [ true ↦ bad_range | false ↦ parse_digits n1 s ]
    ]

unfoldable pub parse_uint : Str → ParsedInt
unfolding parse_digits
parse_uint [] = bad_syntax
parse_uint (c ∷ s) = parse_digits 0 (c ∷ s)

abbrev pub signed : Bool → ParsedInt → ParsedInt
signed negative (parsed n) =
    if negative
    then (if ltb_ℤ (pos 2_147_483_648) n then bad_range else parsed (pos 0 -ℤ n))
    else (if ltb_ℤ n (pos 2_147_483_648) then parsed n else bad_range)
signed negative e = e

unfoldable pub parse_int : Str → ParsedInt
unfolding parse_uint
parse_int [] = bad_syntax
parse_int (c ∷ s) =
    if c == 0x2b
    then signed false (parse_uint s)
    else if c == 0x2d
    then signed true (parse_uint s)
    else signed false (parse_uint (c ∷ s))

-- A number between two bounds, both at least 0.
abbrev pub bounded : ℕ → ℕ → ParsedInt → Result FieldCode ℕ
bounded minimum maximum bad_syntax = err invalid_format
bounded minimum maximum bad_range = err out_of_range
bounded minimum maximum (parsed (negsuc n)) = err out_of_range
bounded minimum maximum (parsed (pos n)) =
    if ltb n minimum || ltb maximum n then err out_of_range else ok n

unfoldable pub parse_bounded_int : Str → ℕ → ℕ → ℕ → Result FieldCode ℕ
unfolding trim_space parse_int
parse_bounded_int raw default minimum maximum =
    let text = trim_space raw in
    if is_empty text then ok default else bounded minimum maximum (parse_int text)

unfoldable pub read_status : Str → Result FieldCode (Option ConsentStatus)
unfolding trim_space
read_status raw =
    let s = trim_space raw in
    if is_empty s
    then ok none
    else if str_eq s (lit "active")
    then ok (some active)
    else if str_eq s (lit "revoked")
    then ok (some revoked)
    else if str_eq s (lit "partially_revoked")
    then ok (some partially_revoked)
    else if str_eq s (lit "expired")
    then ok (some expired)
    else err invalid_format

unfoldable pub read_entity : Str → Result FieldCode Str
unfolding trim_space every
read_entity raw =
    let entity = trim_space raw in
    if is_empty entity
    then ok []
    else if ltb max_identifier_length (byte_len entity) || not (every is_word entity)
    then err invalid_format
    else ok entity

unfoldable pub read_search : Str → Result FieldCode ComplianceSearch
unfolding trim_space new_search
read_search raw =
    let text = trim_space raw in
    if ltb max_search_length (length text) then err out_of_range else ok (new_search text)

abbrev pub error_in : {A : Type 0} → Str → Result FieldCode A → List FieldError
error_in field (ok _) = []
error_in field (err code) = record { field = field; code = code } ∷ []

abbrev pub value_or : {A : Type 0} → A → Result FieldCode A → A
value_or default (ok a) = a
value_or default (err _) = default

abbrev pub unless_bad : List FieldError → ComplianceQuery → Result (List FieldError) ComplianceQuery
unless_bad [] q = ok q
unless_bad (e ∷ es) q = err (e ∷ es)

module _ (parse_day : Str → Option Time) (next_day : Time → Time) where
  -- `parseCivilDate`: no text is no day.
  unfoldable pub parse_civil_date : Str → Result FieldCode Time
  unfolding trim_space
  parse_civil_date raw =
      let text = trim_space raw in
      if is_empty text
      then ok zero_time
      else elim (parse_day text) [ none ↦ err invalid_format | some day ↦ ok day ]

  -- The last day, which is not before the first one where both are given.
  abbrev pub day_range : Result FieldCode Time → Result FieldCode Time → Result FieldCode Time
  day_range from (err e) = err e
  day_range (err e) (ok to) = ok to
  day_range (ok from) (ok to) =
      if not (is_zero from) && not (is_zero to) && is_before to from
      then err out_of_range
      else ok to

  abbrev pub day_after : Time → Time
  day_after to = if is_zero to then zero_time else next_day to

  abbrev pub errors_of : ComplianceListRequest → List FieldError
  errors_of r =
      let from = parse_civil_date r.granted_from in
      error_in (lit "status") (read_status r.status)
      ++ error_in (lit "granted_from") from
      ++ error_in (lit "granted_to") (day_range from (parse_civil_date r.granted_to))
      ++ error_in (lit "entity") (read_entity r.entity)
      ++ error_in (lit "q") (read_search r.search)
      ++ error_in (lit "page") (parse_bounded_int r.page 1 1 max_page)
      ++ error_in (lit "page_size")
          (parse_bounded_int r.page_size default_page_size 1 max_page_size)

  abbrev pub query_of : ComplianceListRequest → ComplianceQuery
  query_of r = record {
    status = value_or none (read_status r.status);
    granted_from = value_or zero_time (parse_civil_date r.granted_from);
    granted_before = day_after (value_or zero_time (parse_civil_date r.granted_to));
    entity = value_or [] (read_entity r.entity);
    search = value_or no_search (read_search r.search);
    page = value_or 1 (parse_bounded_int r.page 1 1 max_page);
    page_size =
        value_or default_page_size
          (parse_bounded_int r.page_size default_page_size 1 max_page_size);
  }

  -- `Validate`: every field that is not valid at once, or the query.
  unfoldable pub validate_request : ComplianceListRequest → Result (List FieldError) ComplianceQuery
  unfolding parse_civil_date read_status read_entity read_search parse_bounded_int
  validate_request r = unless_bad (errors_of r) (query_of r)
