-- ===== src/Security/Rules.antt =====
-- Who passes each rule.
use misw4501_202614_grupo.Base.{
  ◌≡◌, Elem, ◌≢◌, ◌↔◌, ◌⊎◌, true, none, some, List, [], ◌∷◌, contains, arith,
}
use misw4501_202614_grupo.Base.Text.{Str, str_eq_iff}
use misw4501_202614_grupo.Security.{
  Identity, Role, Role-discrete, partner, has_any, has_any_role, require_any_role,
  require_owner_or_role, require_same_partner,
}

-- The caller has one of the roles.
abbrev pub HasOneOf : List Role → List Role → Type 0
HasOneOf [] roles = ⊥
HasOneOf (r ∷ rs) roles = Elem r roles ⊎ HasOneOf rs roles

contains_iff :
    (r : Role) (roles : List Role) → (contains Role-discrete r roles ≡ true) ↔ Elem r roles
contains_iff r [] = ground arith
contains_iff r (q ∷ qs) = ground (arith, contains_iff r qs)

has_any_iff : (have roles : List Role) → (has_any have roles ≡ true) ↔ HasOneOf have roles
unfolding has_any
has_any_iff [] roles = ground arith
has_any_iff (r ∷ rs) roles = ground (arith, contains_iff r roles, has_any_iff rs roles)

-- A caller with an identity passes the rule of roles exactly with one of the roles, the rule of
-- owners exactly as the owner, whose subject is not empty, or with a privileged role, and the rule of
-- partners exactly with the role of a partner and the same partner id, which is not empty.
pub rules_lem :
    (c : Identity) (owner partner_id : Str) (roles : List Role)
    → ((require_any_role (some c) roles ≡ none) ↔ HasOneOf c.roles roles)
      × ((require_owner_or_role (some c) owner roles ≡ none)
          ↔ (((owner ≢ []) × (c.subject ≡ owner)) ⊎ HasOneOf c.roles roles))
      × ((require_same_partner (some c) partner_id ≡ none)
          ↔ (HasOneOf c.roles (partner ∷ []) × (partner_id ≢ []) × (c.partner_id ≡ partner_id)))
unfolding has_any_role require_any_role require_owner_or_role require_same_partner
rules_lem c owner partner_id roles = ground (
  arith,
  has_any_iff c.roles roles,
  has_any_iff c.roles (partner ∷ []),
  str_eq_iff c.subject owner,
  str_eq_iff c.partner_id partner_id,
)
