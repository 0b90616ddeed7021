-- ===== src/Security.antt =====
-- Who may do what, pkg/security: authorize.go, the roles of roles.go and the identity of claims.go.
-- The identity of the caller, which the middleware puts into the context of a request, is an option:
-- a context without one is `none`.
pub mod Rules
mod Tests
use misw4501_202614_grupo.Base.{
  Bool, true, false, not, ◌||◌, ◌&&◌, Option, none, some, List, [], ◌∷◌, same, contains,
  if◌then◌else◌,
}
use misw4501_202614_grupo.Base.Text.{Str, lit, str_eq, is_empty}

pub data Role : Type 0 where
  insured advisor operations partner : Role

unfoldable pub Role-discrete : Discrete Role
Role-discrete = hlevel

-- `ParseRole`: any other group of the user pool is no role.
unfoldable pub parse_role : Str → Option Role
parse_role group =
    if str_eq group (lit "insured")
    then some insured
    else if str_eq group (lit "advisor")
    then some advisor
    else if str_eq group (lit "operations")
    then some operations
    else if str_eq group (lit "partner")
    then some partner
    else none

-- The identity of a caller, with the fields that an authorization reads.
pub record Identity : Type 0 where
  pub subject : Str
  pub partner_id : Str
  pub roles : List Role

pub data SecurityError : Type 0 where
  unauthenticated forbidden : SecurityError

unfoldable pub has_any : List Role → List Role → Bool
has_any [] roles = false
has_any (have ∷ more) roles = contains Role-discrete have roles || has_any more roles

unfoldable pub has_any_role : Identity → List Role → Bool
unfolding has_any
has_any_role c roles = has_any c.roles roles

unfoldable pub require_any_role : Option Identity → List Role → Option SecurityError
require_any_role none roles = some unauthenticated
require_any_role (some c) roles = if not (has_any_role c roles) then some forbidden else none

unfoldable pub require_owner_or_role : Option Identity → Str → List Role → Option SecurityError
require_owner_or_role none owner_subject privileged = some unauthenticated
require_owner_or_role (some c) owner_subject privileged =
    if not (is_empty owner_subject) && str_eq c.subject owner_subject
    then none
    else if has_any_role c privileged
    then none
    else some forbidden

unfoldable pub require_same_partner : Option Identity → Str → Option SecurityError
require_same_partner none partner_id = some unauthenticated
require_same_partner (some c) partner_id =
    if not (has_any_role c (partner ∷ []))
      || is_empty partner_id
      || not (str_eq c.partner_id partner_id)
    then some forbidden
    else none
