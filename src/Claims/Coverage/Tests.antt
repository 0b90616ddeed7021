-- ===== src/Claims/Coverage/Tests.antt =====
-- A policy of a car, in force in the first hundred instants.
use misw4501_202614_grupo.Base.{◌≡◌, ◌↔◌, true, false, none, some, [], ◌∷◌}
use misw4501_202614_grupo.Base.Text.{lit}
use misw4501_202614_grupo.Claims.Catalog.{collision, auto, catalog_v1}
use misw4501_202614_grupo.Claims.Coverage.{
  Policy, PolicyStatus, policy_not_active, incident_not_covered, occurred_outside_validity, covers,
  eligible_for,
}
use misw4501_202614_grupo.Claims.Coverage.Eligibility.{InForce, eligible_for_lem}

abbrev car : Policy
car = record {
  id = lit "P1";
  line = auto;
  product = lit "Autos";
  insured_object = lit "ABC123";
  status = PolicyStatus.active;
  valid_from = 10;
  valid_to = 100;
  covered_incidents = collision ∷ [];
}

eligible_for_lem_example :
    let active_now = (car.status ≡ PolicyStatus.active) × InForce car 60 in
    ((eligible_for car catalog_v1 collision 50 60 ≡ none)
      ↔ (active_now × (covers car catalog_v1 collision ≡ true) × InForce car 50))
    × ((eligible_for car catalog_v1 collision 50 60 ≡ some policy_not_active) ↔ ¬ active_now)
    × ((eligible_for car catalog_v1 collision 50 60 ≡ some incident_not_covered)
        ↔ (active_now × (covers car catalog_v1 collision ≡ false)))
    × ((eligible_for car catalog_v1 collision 50 60 ≡ some occurred_outside_validity)
        ↔ (active_now × (covers car catalog_v1 collision ≡ true) × ¬ InForce car 50))
eligible_for_lem_example = eligible_for_lem car catalog_v1 collision 50 60
