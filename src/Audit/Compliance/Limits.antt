-- ===== src/Audit/Compliance/Limits.antt =====
-- What every accepted query of the list keeps to.
use misw4501_202614_grupo.Base.{
  ℕ, ◌+◌, ◌-◌, ◌*◌, ◌^◌, ◌≤◌, ◌<◌, ◌≡◌, inl, inr, true, Option, List, [], ◌∷◌, ok, arith,
  Bool-cases,
}
use misw4501_202614_grupo.Base.Int.{pos, negsuc}
use misw4501_202614_grupo.Base.Text.{Str, is_empty, is_word, every, byte_len, trim_space}
use misw4501_202614_grupo.Base.Clock.{Time}
use native.Mathlib.Nat.{mul-le-mul}
use misw4501_202614_grupo.Audit.Compliance.{ComplianceQuery, offset}
use misw4501_202614_grupo.Audit.Compliance.Request.{
  ComplianceListRequest, FieldError, ParsedInt, bad_syntax, bad_range, parsed, parse_int, bounded,
  parse_bounded_int, read_entity, value_or, default_page_size, max_page, max_page_size, errors_of,
  query_of, unless_bad, validate_request,
}

bounded-bounds :
    (low high default : ℕ) (n : ParsedInt)
    → low ≤ default
    → default ≤ high
    → (low ≤ value_or default (bounded low high n)) × (value_or default (bounded low high n) ≤ high)
bounded-bounds low high default bad_syntax h k = (h, k)
bounded-bounds low high default bad_range h k = (h, k)
bounded-bounds low high default (parsed (negsuc n)) h k = (h, k)
bounded-bounds low high default (parsed (pos n)) h k = ground arith

parse_bounded_int-bounds :
    (raw : Str) (low high default : ℕ)
    → low ≤ default
    → default ≤ high
    → let n = value_or default (parse_bounded_int raw default low high) in (low ≤ n) × (n ≤ high)
unfolding parse_bounded_int
parse_bounded_int-bounds raw low high default h k = elim (Bool-cases (is_empty (trim_space raw))) [
  | inl e ↦ rw (parse_bounded_int, e) (h, k)
  | inr e ↦
      rw (parse_bounded_int, e) (bounded-bounds low high default (parse_int (trim_space raw)) h k)
]

read_entity-Word :
    (raw : Str)
    → let entity = value_or [] (read_entity raw) in
      (byte_len entity ≤ 128) × (every is_word entity ≡ true)
unfolding read_entity every
read_entity-Word raw = ground arith

unless_bad-ok : (es : List FieldError) (x q : ComplianceQuery) → unless_bad es x ≡ ok q → q ≡ x
unless_bad-ok [] x q e = cc
unless_bad-ok (y ∷ ys) x q e = absurd (ground arith)

-- The offset of a page within the bounds is far from the end of int64.
offset-fits :
    (q : ComplianceQuery)
    → q.page ≤ max_page
    → q.page_size ≤ max_page_size
    → offset q + q.page_size < 2 ^ 63
offset-fits q h k =
    let below : q.page - 1 ≤ max_page = omega arith in
    let product : offset q ≤ max_page * max_page_size = mul-le-mul below k in omega arith

-- A request that is accepted asks for a page from 1 to 2^31 - 1 of 1 to 50 consents, the end of which
-- does not overflow an int64, and for every entity or for a code of 128 bytes at most, of letters,
-- digits, `_` and `-`.
pub validate_request-bounds :
    (parse_day : Str → Option Time) (next_day : Time → Time) (r : ComplianceListRequest)
    (q : ComplianceQuery)
    → validate_request parse_day next_day r ≡ ok q
    → ((1 ≤ q.page) × (q.page ≤ 2_147_483_647))
      × ((1 ≤ q.page_size) × (q.page_size ≤ 50))
      × (offset q + q.page_size < 2 ^ 63)
      × ((byte_len q.entity ≤ 128) × (every is_word q.entity ≡ true))
unfolding validate_request
validate_request-bounds parse_day next_day r q e =
    let x = query_of parse_day next_day r in
    let page = parse_bounded_int-bounds r.page 1 max_page 1 (omega arith) (omega arith) in
    let size =
      parse_bounded_int-bounds r.page_size 1 max_page_size default_page_size (omega arith)
        (omega arith) in
    rw (unless_bad-ok (errors_of parse_day next_day r) x q e)
      (page, size, offset-fits x (page.1) (size.1), read_entity-Word r.entity)
