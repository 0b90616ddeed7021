-- ===== src/Audit/Compliance/Shown.antt =====
-- The list shows the consents that meet its query, in its order.
use misw4501_202614_grupo.Base.{
  ◌≤◌, ◌<◌, ◌≡◌, ◌≢◌, refl, ◌⊎◌, ◌↔◌, true, false, Option, none, some, List, [], arith,
}
use misw4501_202614_grupo.Base.Text.{
  Str, str_eq_iff, str_ltb, str_ltb_asym, str_ltb_trans, trim_space, Contains, contains_text_iff,
}
use misw4501_202614_grupo.Base.Sort.{IsListing, Sorts, sort_in-IsListing}
use misw4501_202614_grupo.Audit.Compliance.{
  Consent, ConsentStatus, active, expired, revoked, revocation_pending, partially_revoked,
  ConsentView, ComplianceSearch, ComplianceQuery, fold_name, normalize_document, search_matches,
  query_matches, other_status, shown_before, sort_for_compliance, filter_for_compliance,
}

-- The latest granted first, and of those of one instant the one with the smaller id.
abbrev pub IsShownBefore : ConsentView → ConsentView → Type 0
IsShownBefore v w =
    (w.consent.granted_at < v.consent.granted_at)
    ⊎ ((w.consent.granted_at ≡ v.consent.granted_at) × (str_ltb w.consent.id v.consent.id ≡ false))

abbrev pub HasStatus : Option ConsentStatus → ConsentStatus → Type 0
HasStatus none status = Unit
HasStatus (some asked) status = status ≡ asked

shown_before-Sorts : Sorts IsShownBefore shown_before
shown_before-Sorts = record {
  early = λ x y h. ground (arith, str_ltb_asym y.consent.id x.consent.id);
  late = λ x y h. ground arith;
  trans = λ x y z h k. ground (arith, str_ltb_trans x.consent.id y.consent.id z.consent.id);
}

module _ (to_upper : Str → Str) where
  -- A search finds a consent by its id, by the document of its holder, in capitals and without the
  -- spaces around it, or by a part of the folded name.
  abbrev pub IsFound : ComplianceSearch → Consent → Type 0
  IsFound s c =
      (s.text ≡ [])
      ⊎ ((c.id ≡ s.text)
          ⊎ (((s.document ≢ []) × (to_upper (trim_space c.holder.document_id) ≡ s.document))
              ⊎ ((s.name ≢ []) × Contains (fold_name c.holder.full_name) s.name)))

  -- A consent of the status asked for, granted from the first day and before the end of the last one,
  -- to the entity, and found by the search, each where it is asked for.
  abbrev pub Meets : ComplianceQuery → ConsentView → Type 0
  Meets q v =
      HasStatus q.status v.status
      × ((q.granted_from ≡ 0) ⊎ (q.granted_from ≤ v.consent.granted_at))
      × ((q.granted_before ≡ 0) ⊎ (v.consent.granted_at < q.granted_before))
      × ((q.entity ≡ []) ⊎ (v.consent.partner_id ≡ q.entity))
      × IsFound q.search v.consent

  search_matches_iff :
      (s : ComplianceSearch) (c : Consent) → (search_matches to_upper s c ≡ true) ↔ IsFound s c
  unfolding search_matches normalize_document
  search_matches_iff s c = ground (
    arith,
    str_eq_iff c.id s.text,
    str_eq_iff (to_upper (trim_space c.holder.document_id)) s.document,
    contains_text_iff (fold_name c.holder.full_name) s.name,
  )

  status_iff :
      (asked : Option ConsentStatus) (status : ConsentStatus)
      → (other_status to_upper asked status ≡ false) ↔ HasStatus asked status
  status_iff none status = ((λ _. tt), λ _. refl)
  status_iff (some active) status = ground arith
  status_iff (some expired) status = ground arith
  status_iff (some revoked) status = ground arith
  status_iff (some revocation_pending) status = ground arith
  status_iff (some partially_revoked) status = ground arith

  query_matches_iff :
      (q : ComplianceQuery) (v : ConsentView) → (query_matches to_upper q v ≡ true) ↔ Meets q v
  unfolding query_matches
  query_matches_iff q v = ground (
    arith,
    status_iff q.status v.status,
    str_eq_iff v.consent.partner_id q.entity,
    search_matches_iff q.search v.consent,
  )

  -- The list is of the consents that meet the query, each as often as in the table, and none of the
  -- others; each is shown before the next, the latest granted first and those of one instant by
  -- their id.
  pub filter_for_compliance-IsListing :
      (views : List ConsentView) (q : ComplianceQuery)
      → (left : List ConsentView) × IsListing IsShownBefore
          (Meets q)
          views
          (filter_for_compliance to_upper views q)
          left
  unfolding filter_for_compliance sort_for_compliance
  filter_for_compliance-IsListing views q =
      sort_in-IsListing IsShownBefore shown_before shown_before-Sorts (Meets q)
        (query_matches to_upper q) (query_matches_iff q) views
