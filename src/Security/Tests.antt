-- ===== src/Security/Tests.antt =====
-- An insured.
use misw4501_202614_grupo.Base.{◌≡◌, ◌≢◌, ◌↔◌, ◌⊎◌, some, none, [], ◌∷◌}
use misw4501_202614_grupo.Base.Text.{lit}
use misw4501_202614_grupo.Security.{
  Identity, insured, operations, partner, require_any_role, require_owner_or_role,
  require_same_partner,
}
use misw4501_202614_grupo.Security.Rules.{HasOneOf, rules_lem}

abbrev ana : Identity
ana = record { subject = lit "ana"; partner_id = []; roles = insured ∷ [] }

rules_lem_example :
    ((require_any_role (some ana) (operations ∷ []) ≡ none)
      ↔ HasOneOf (insured ∷ []) (operations ∷ []))
    × ((require_owner_or_role (some ana) (lit "ana") (operations ∷ []) ≡ none) ↔ (
        ((lit "ana" ≢ []) × (lit "ana" ≡ lit "ana")) ⊎ HasOneOf (insured ∷ []) (operations ∷ [])))
    × ((require_same_partner (some ana) (lit "p1") ≡ none)
        ↔ (HasOneOf (insured ∷ []) (partner ∷ []) × (lit "p1" ≢ []) × (ana.partner_id ≡ lit "p1")))
rules_lem_example = rules_lem ana (lit "ana") (lit "p1") (operations ∷ [])
