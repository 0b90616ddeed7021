-- ===== src/Claims/Coverage/Eligibility.antt =====
-- Which claims a policy takes.
use misw4501_202614_grupo.Base.{
  ◌≤◌, ◌<◌, ◌≡◌, Elem, ◌↔◌, inl, inr, true, false, none, some, List, [], ◌∷◌, arith, Bool-cases,
}
use misw4501_202614_grupo.Base.Clock.{Time}
use misw4501_202614_grupo.Claims.Catalog.{IncidentType, IncidentOption, Catalog}
use misw4501_202614_grupo.Claims.Coverage.{
  Policy, PolicyStatus, policy_not_active, incident_not_covered, occurred_outside_validity, covers,
  eligible_for, keep_covered, options_for, is_within,
}

-- The validity of a policy holds an instant.
abbrev pub InForce : Policy → Time → Type 0
InForce p at = (p.valid_from ≤ at) × (at < p.valid_to)

-- A policy takes a claim exactly if it is active and in force now, covers the claim type and was in
-- force when the incident occurred; and each refusal is given exactly if the checks before it pass and
-- its own fails.
pub eligible_for_lem :
    (p : Policy) (c : Catalog) (t : IncidentType) (occurred_at now : Time)
    → let active_now = (p.status ≡ PolicyStatus.active) × InForce p now in
      ((eligible_for p c t occurred_at now ≡ none)
        ↔ (active_now × (covers p c t ≡ true) × InForce p occurred_at))
      × ((eligible_for p c t occurred_at now ≡ some policy_not_active) ↔ ¬ active_now)
      × ((eligible_for p c t occurred_at now ≡ some incident_not_covered)
          ↔ (active_now × (covers p c t ≡ false)))
      × ((eligible_for p c t occurred_at now ≡ some occurred_outside_validity)
          ↔ (active_now × (covers p c t ≡ true) × ¬ InForce p occurred_at))
unfolding eligible_for is_within
eligible_for_lem p c t occurred_at now = ground arith

keep_covered-Elem :
    (p : Policy) (c : Catalog) (o : IncidentOption) (os : List IncidentOption)
    → Elem o (keep_covered p c os) ↔ (Elem o os × (covers p c o.type ≡ true))
unfolding keep_covered
keep_covered-Elem p c o [] = ground arith
keep_covered-Elem p c o (q ∷ qs) = elim (Bool-cases (covers p c q.type)) [
  | inl e ↦ rw (keep_covered, e) (ground (arith, keep_covered-Elem p c o qs))
  | inr e ↦ rw (keep_covered, e) (ground (arith, keep_covered-Elem p c o qs))
]

-- For a policy that is active and in force, the options that the insured may file are those of the
-- catalog whose claim the policy takes when it occurs now.
options_for-Elem_iff :
    (p : Policy) (c : Catalog) (now : Time) (o : IncidentOption)
    → p.status ≡ PolicyStatus.active
    → InForce p now
    → (Elem o (options_for c p)) ↔ (Elem o c.incidents × (eligible_for p c o.type now now ≡ none))
unfolding options_for
options_for-Elem_iff p c now o on in_force =
    ground (arith, keep_covered-Elem p c o c.incidents, eligible_for_lem p c o.type now now)
