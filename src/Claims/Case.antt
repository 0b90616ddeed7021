-- ===== src/Claims/Case.antt =====
-- A filed claim, services/claims/internal/domain/claim.go, web_filing.go, support.go and
-- evidence.go, with the statuses of triage.go and decision.go. The coordinates of an evidence are
-- only copied, so a float is the number of its bit pattern.
use misw4501_202614_grupo.Base.{
  ℕ, Bool, true, false, Option, none, List, [], ◌∷◌, ℕ_discrete, contains,
}
use misw4501_202614_grupo.Base.Int.{ℤ}
use misw4501_202614_grupo.Base.Text.{Str}
use misw4501_202614_grupo.Base.Dict.{Dict}
use misw4501_202614_grupo.Base.Clock.{Time, zero_time}
use misw4501_202614_grupo.Claims.Catalog.{IncidentType, unlisted, FileFormat}
use misw4501_202614_grupo.Claims.Coverage.{Policy}

-- The statuses of a claim; `unknown_status` is any other text (a zero record has the empty one).
pub data Status : Type 0 where
  active in_evaluation approved paid rejected payment_exception : Status
  unknown_status : Str → Status

unfoldable pub Status-discrete : Discrete Status
unfolding ℕ_discrete
Status-discrete = hlevel ℕ_discrete

unfoldable pub known : Status → Bool
known (unknown_status _) = false
known _ = true

pub data Channel : Type 0 where
  mobile web no_channel : Channel

pub data EvidenceKind : Type 0 where
  photo video : EvidenceKind

pub record Evidence : Type 0 where
  pub object_key : Str
  pub kind : EvidenceKind
  pub captured_at : Time
  pub latitude : ℕ
  pub longitude : ℕ
  pub altitude_m : Option ℕ
  pub accuracy_m : ℕ
  pub location_trusted : Bool
  pub sha256 : Str
  pub byte_size : ℤ
  pub duration_s : ℤ

pub record SupportFile : Type 0 where
  pub id : Str
  pub owner_subject : Str
  pub file_name : Str
  pub format : FileFormat
  pub byte_size : ℤ
  pub sha256 : Str
  pub uploaded_at : Time
  pub confirmed_at : Time

pub record AttachedSupport : Type 0 where
  pub requirement_code : Str
  pub position : ℕ
  pub file : SupportFile

-- `estimated_amount_minor` is an int64 number of cents, when it was declared.
pub record Claim : Type 0 where
  pub id : Str
  pub filing_number : Str
  pub subject : Str
  pub filing_key : Str
  pub policy_id : Str
  pub incident_type : IncidentType
  pub occurred_at : Time
  pub place : Str
  pub description : Str
  pub details : Dict Str
  pub evidence : List Evidence
  pub status : Status
  pub filed_at : Time
  pub estimated_amount_minor : Option ℤ

pub record ClaimRecord : Type 0 where
  pub claim : Claim
  pub open claim use *
  pub channel : Channel
  pub policy : Option Policy
  pub catalog_version : Str
  pub supports : List AttachedSupport

-- `ClaimRecord{}`, which a read of a missing key of a map gives.
abbrev pub zero_claim : ClaimRecord
zero_claim = record {
  claim = record {
    id = [];
    filing_number = [];
    subject = [];
    filing_key = [];
    policy_id = [];
    incident_type = unlisted [];
    occurred_at = zero_time;
    place = [];
    description = [];
    details = [];
    evidence = [];
    status = unknown_status [];
    filed_at = zero_time;
    estimated_amount_minor = none;
  };
  channel = no_channel;
  policy = none;
  catalog_version = [];
  supports = [];
}

-- The claim with another status.
abbrev pub with_status : Status → ClaimRecord → ClaimRecord
with_status st c = let claim = c.claim in record c { claim = record claim { status = st } }

unfoldable pub triageable_statuses : List Status
triageable_statuses = active ∷ in_evaluation ∷ []

unfoldable pub triageable : Status → Bool
unfolding triageable_statuses
triageable s = contains Status-discrete s triageable_statuses

-- Only a claim in evaluation is decided.
unfoldable pub decidable : Status → Bool
unfolding triageable
decidable s = triageable s
