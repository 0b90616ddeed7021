-- ===== src/Audit/Compliance/Tests.antt =====
-- The list of consents on concrete views and requests.
use misw4501_202614_grupo.Base.{
  ℕ, ◌+◌, ◌^◌, ◌≤◌, ◌<◌, ◌≡◌, refl, true, Option, none, some, List, [], ◌∷◌, length, arith,
}
use misw4501_202614_grupo.Base.Text.{
  Str, str_eq, str_ltb, lit, is_word, every, byte_len, trim_space,
}
use misw4501_202614_grupo.Base.Clock.{Time}
use misw4501_202614_grupo.Audit.Compliance.{
  ConsentView, ConsentStatus, active, revoked, ComplianceQuery, no_search, offset, paginate,
  total_pages, sort_for_compliance, filter_for_compliance, fold_name, normalize_name,
}
use misw4501_202614_grupo.Audit.Compliance.Request.{
  ComplianceListRequest, parse_int, parse_digits, bad_range, bad_syntax, validate_request,
}
use misw4501_202614_grupo.Audit.Compliance.Shown.{
  IsShownBefore, Meets, filter_for_compliance-IsListing,
}
use misw4501_202614_grupo.Base.Sort.{IsListing, sort_in, insert_in}
use misw4501_202614_grupo.Audit.Compliance.Pages.{on_page, first_pages, first_pages-all}
use misw4501_202614_grupo.Audit.Compliance.Limits.{validate_request-bounds}

abbrev view : Str → Time → ConsentStatus → ConsentView
view id at status = record {
  consent = record {
    id = id;
    holder = record { document_id = lit "1020"; full_name = lit "Ana" };
    partner_id = lit "banco";
    granted_at = at;
  };
  status = status;
  revocation = none;
}

abbrev views : List ConsentView
views = view (lit "c3") 30 active ∷ view (lit "c2") 20 revoked ∷ view (lit "c1") 20 active ∷ []

abbrev query : ComplianceQuery
query = record {
  status = some active;
  granted_from = 0;
  granted_before = 0;
  entity = lit "banco";
  search = no_search;
  page = 2;
  page_size = 20;
}

abbrev request : ComplianceListRequest
request = record {
  status = lit "active";
  granted_from = [];
  granted_to = [];
  entity = lit " banco ";
  search = [];
  page = lit "2";
  page_size = [];
}

abbrev no_day : Str → Option Time
no_day s = none

abbrev next_day : Time → Time
next_day t = t + 24

-- The bound of 32 bits ends the reading of the digits.
long_number : parse_int (lit "99999999999x") ≡ bad_range
unfolding parse_int parse_digits
long_number = refl

no_number : parse_int (lit "9x") ≡ bad_syntax
unfolding parse_int parse_digits
no_number = refl

folded : fold_name (normalize_name (lit "  Ana  María Peña ")) ≡ lit "ana maria pena"
unfolding fold_name normalize_name
folded = refl

by_id :
    sort_for_compliance (view (lit "c2") 20 active ∷ view (lit "c1") 20 active ∷ [])
    ≡ view (lit "c1") 20 active ∷ view (lit "c2") 20 active ∷ []
unfolding sort_for_compliance sort_in insert_in str_ltb
by_id = refl

filter_for_compliance-IsListing_example :
    (left : List ConsentView) × IsListing IsShownBefore
      (Meets trim_space query)
      views
      (filter_for_compliance trim_space views query)
      left
filter_for_compliance-IsListing_example = filter_for_compliance-IsListing trim_space views query

first_pages-all_example :
    let pairs = record query { page_size = 2 } in
    (first_pages views pairs (total_pages (length views) 2) ≡ views)
    × ((k : ℕ) → length (paginate views (on_page pairs k)) ≤ 2)
first_pages-all_example = first_pages-all views (record query { page_size = 2 }) (omega arith)

validate_request-bounds_example :
    ((1 ≤ query.page) × (query.page ≤ 2_147_483_647))
    × ((1 ≤ query.page_size) × (query.page_size ≤ 50))
    × (offset query + query.page_size < 2 ^ 63)
    × ((byte_len query.entity ≤ 128) × (every is_word query.entity ≡ true))
unfolding validate_request str_eq
validate_request-bounds_example = validate_request-bounds no_day next_day request query refl
