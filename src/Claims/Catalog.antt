-- ===== src/Claims/Catalog.antt =====
-- The catalog of claim types and supports, services/claims/internal/domain/catalog.go.
use misw4501_202614_grupo.Base.{
  ℕ, Bool, true, false, Option, none, some, List, [], ◌∷◌, same, contains, ℕ_discrete,
  if◌then◌else◌,
}
use misw4501_202614_grupo.Base.Text.{Str, lit, str_eq}

-- What happened. A request may carry any text, so the type has a value for each text that names
-- none of the six.
pub data IncidentType : Type 0 where
  collision theft third_party_damage other glass water_damage : IncidentType
  unlisted : Str → IncidentType

unfoldable pub IncidentType-discrete : Discrete IncidentType
unfolding ℕ_discrete
IncidentType-discrete = hlevel ℕ_discrete

-- The line of business of a policy, as the policy core names it.
pub data PolicyLine : Type 0 where
  auto home travel : PolicyLine
  other_line : Str → PolicyLine

unfoldable pub PolicyLine-discrete : Discrete PolicyLine
unfolding ℕ_discrete
PolicyLine-discrete = hlevel ℕ_discrete

pub data FileFormat : Type 0 where
  jpeg png pdf : FileFormat

unfoldable pub FileFormat-discrete : Discrete FileFormat
FileFormat-discrete = hlevel

unfoldable pub content_type : FileFormat → Str
content_type jpeg = lit "image/jpeg"
content_type png = lit "image/png"
content_type pdf = lit "application/pdf"

first_format : Str → List FileFormat → Option FileFormat
unfolding content_type
first_format media [] = none
first_format media (f ∷ fs) =
    if str_eq (content_type f) media then some f else first_format media fs

unfoldable pub format_of : Str → Option FileFormat
unfolding first_format
format_of media = first_format media (jpeg ∷ png ∷ pdf ∷ [])

-- `min_files` is 0 when the support is optional.
pub record Requirement : Type 0 where
  pub code : Str
  pub label : Str
  pub required : Bool
  pub min_files : ℕ
  pub max_files : ℕ
  pub formats : List FileFormat

unfoldable pub accepts : Requirement → FileFormat → Bool
accepts r f = contains FileFormat-discrete f r.formats

pub record IncidentOption : Type 0 where
  pub type : IncidentType
  pub line : PolicyLine
  pub label : Str
  pub requirements : List Requirement

find_requirement : List Requirement → Str → Option Requirement
find_requirement [] code = none
find_requirement (r ∷ rs) code = if str_eq r.code code then some r else find_requirement rs code

-- `IncidentOption.Requirement`.
unfoldable pub requirement : IncidentOption → Str → Option Requirement
unfolding find_requirement
requirement o code = find_requirement o.requirements code

pub record Catalog : Type 0 where
  pub version : Str
  pub incidents : List IncidentOption

unfoldable pub find_incident : List IncidentOption → IncidentType → Option IncidentOption
find_incident [] t = none
find_incident (o ∷ os) t =
    if same IncidentType-discrete o.type t then some o else find_incident os t

-- `Catalog.Incident`.
unfoldable pub incident : Catalog → IncidentType → Option IncidentOption
unfolding find_incident
incident c t = find_incident c.incidents t

abbrev image : List FileFormat
image = jpeg ∷ png ∷ []

abbrev document : List FileFormat
document = pdf ∷ jpeg ∷ png ∷ []

vehicle_photos : Bool → Requirement
vehicle_photos required = record {
  code = lit "vehicle_photos";
  label = lit "Fotos del vehículo";
  required = required;
  min_files = if required then 4 else 0;
  max_files = 10;
  formats = image;
}

driver_document : Bool → Requirement
driver_document required = record {
  code = lit "driver_document";
  label = lit "Documento del conductor";
  required = required;
  min_files = if required then 1 else 0;
  max_files = 2;
  formats = document;
}

-- A required support of the catalog.
required_support : Str → Str → ℕ → ℕ → List FileFormat → Requirement
required_support code label min_files max_files formats = record {
  code = code;
  label = label;
  required = true;
  min_files = min_files;
  max_files = max_files;
  formats = formats;
}

traffic_report : Requirement
unfolding required_support
traffic_report =
    required_support (lit "traffic_report") (lit "Informe de tránsito o croquis") 1 3 document

option : IncidentType → PolicyLine → Str → List Requirement → IncidentOption
option type line label requirements = record {
  type = type;
  line = line;
  label = label;
  requirements = requirements;
}

unfoldable pub catalog_v1 : Catalog
unfolding vehicle_photos driver_document required_support traffic_report option
catalog_v1 = record {
  version = lit "claim-catalog-v1";
  incidents =
      option collision auto (lit "Colisión con daños al vehículo")
        (vehicle_photos true ∷ driver_document true ∷ traffic_report ∷ [])
      ∷ option theft auto (lit "Hurto") (
          required_support (lit "police_report") (lit "Denuncia ante autoridad") 1 3 document
          ∷ driver_document true
          ∷ vehicle_photos false
          ∷ [])
      ∷ option third_party_damage auto (lit "Daño a terceros")
          (vehicle_photos true ∷ driver_document true ∷ traffic_report ∷ [])
      ∷ option glass auto (lit "Cristales") (
          required_support (lit "glass_photos") (lit "Fotos de los cristales") 2 6 image
          ∷ driver_document false
          ∷ [])
      ∷ option other auto (lit "Otro") (
          required_support (lit "supporting_document") (lit "Documento de soporte") 1 5 document
          ∷ [])
      ∷ option water_damage home (lit "Daño por agua") (
          required_support (lit "damage_photos") (lit "Fotos del daño") 2 10 image
          ∷ required_support (lit "repair_quote") (lit "Factura o cotización de la reparación") 1 3
              document
          ∷ [])
      ∷ [];
}

-- The catalog of a version: there is one version so far.
unfoldable pub catalog_for : Str → Catalog
unfolding catalog_v1
catalog_for version = catalog_v1

-- The name of a claim type.
unfoldable pub incident_name : IncidentType → Str
incident_name collision = lit "collision"
incident_name theft = lit "theft"
incident_name third_party_damage = lit "third_party_damage"
incident_name other = lit "other"
incident_name glass = lit "glass"
incident_name water_damage = lit "water_damage"
incident_name (unlisted s) = s
