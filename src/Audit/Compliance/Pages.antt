-- ===== src/Audit/Compliance/Pages.antt =====
-- The pages of the list are the list.
use misw4501_202614_grupo.Base.{
  ℕ, zero, suc, ◌+◌, ◌-◌, ◌*◌, ◌/◌, ◌≤◌, ◌≡◌, refl, sym, ap, ◌∙◌, false, inl, inr, leb, ltb, List,
  [], ◌++◌, length, take, drop, length-drop, length-take_le, take_add, take_all, take_nil, drop_all,
  ◌==◌, arith, Bool-cases,
}
use native.Mathlib.Omega.{div_fact, mod_fact}
use misw4501_202614_grupo.Audit.Compliance.{
  ConsentView, ComplianceQuery, offset, paginate, total_pages,
}

abbrev pub on_page : ComplianceQuery → ℕ → ComplianceQuery
on_page q k = record q { page = k }

-- The first pages, one after the other.
unfoldable pub first_pages : List ConsentView → ComplianceQuery → ℕ → List ConsentView
unfolding paginate
first_pages matching q zero = []
first_pages matching q (suc n) = first_pages matching q n ++ paginate matching (on_page q (suc n))

paginate_eq :
    (matching : List ConsentView) (q : ComplianceQuery)
    → paginate matching q ≡ take q.page_size (drop (offset q) matching)
unfolding paginate
paginate_eq matching q =
    let start = offset q in
    let n = length matching in
    let rest = drop start matching in
    let m : length rest ≡ n - start = length-drop start matching in
    elim (Bool-cases (leb n start)) [
      | inl e ↦
          rw (paginate, e, drop_all start matching (ground arith)) (sym (take_nil q.page_size))
      | inr e ↦ elim (Bool-cases (ltb n (start + q.page_size))) [
        | inl f ↦
            rw
              (
                paginate,
                e,
                f,
                take_all (n - start) rest (omega arith),
                take_all q.page_size rest (ground arith),
              )
              refl
        | inr f ↦
            let size : start + q.page_size - start ≡ q.page_size = omega arith in
            rw (paginate, e, f, size) refl
      ]
    ]

first_pages_eq :
    (matching : List ConsentView) (q : ComplianceQuery) (n : ℕ)
    → first_pages matching q n ≡ take (n * q.page_size) matching
unfolding first_pages
first_pages_eq matching q zero =
    let e : 0 * q.page_size ≡ 0 = omega arith in ap (λ k. take k matching) (sym e)
first_pages_eq matching q (suc n) =
    let e : suc n * q.page_size ≡ n * q.page_size + q.page_size = grind arith in
    let start : suc n - 1 ≡ n = omega arith in
    rw
      (
        first_pages_eq matching q n,
        paginate_eq matching (on_page q (suc n)),
        e,
        take_add (n * q.page_size) q.page_size matching,
        start,
      )
      refl

total_pages_enough : (total size : ℕ) → 1 ≤ size → total ≤ total_pages total size * size
unfolding total_pages
total_pages_enough total zero h = absurd (omega arith)
total_pages_enough total (suc k) h =
    let x = (total + k) / suc k in
    let d = div_fact (total + k) k in
    let r = mod_fact (total + k) k in
    let a : total + suc k - 1 ≡ total + k = omega arith in
    elim (Bool-cases (total == 0)) [
      | inl e ↦ ground arith
      | inr e ↦
          let c : x * suc k ≡ suc k * x = grind arith in
          let goal : total ≤ suc k * x = omega arith in
          let some_size : (suc k == 0) ≡ false = ground arith in
          rw (total_pages, e, some_size, a, c) goal
    ]

-- The pages of a list of consents, from the first to the last that the portal is told of, are the list
-- when they are put together: every consent is shown, and no more often than in the list. No page is
-- longer than its size, which is not zero.
pub first_pages-all :
    (matching : List ConsentView) (q : ComplianceQuery)
    → 1 ≤ q.page_size
    → (first_pages matching q (total_pages (length matching) q.page_size) ≡ matching)
      × ((k : ℕ) → length (paginate matching (on_page q k)) ≤ q.page_size)
first_pages-all matching q h =
    let n = total_pages (length matching) q.page_size in
    (
      first_pages_eq matching q n
          ∙ take_all (n * q.page_size) matching
              (total_pages_enough (length matching) q.page_size h),
      λ k.
          rw (paginate_eq matching (on_page q k))
            (length-take_le q.page_size (drop (offset (on_page q k)) matching)),
    )
