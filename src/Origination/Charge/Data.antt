-- ===== src/Origination/Charge/Data.antt =====
-- The charge of the premium of an accepted offer, services/origination/internal/domain/charge.go, and
-- what it is made from, acceptance.go and quote.go.
use misw4501_202614_grupo.Base.{ℕ, Option, List}
use misw4501_202614_grupo.Base.Int.{ℤ}
use misw4501_202614_grupo.Base.Text.{Str}
use misw4501_202614_grupo.Base.Clock.{Time}
use misw4501_202614_grupo.Idempotency.{Status}

-- `no_method` is the empty kind, `other_method` a kind that the source does not name.
pub data PaymentMethodKind : Type 0 where
  no_method card pse other_method : PaymentMethodKind

pub data PayerType : Type 0 where
  no_payer natural legal other_payer : PayerType

pub record PaymentMethod : Type 0 where
  pub kind : PaymentMethodKind
  pub token : Str
  pub brand : Str
  pub last4 : Str
  pub installments : ℤ
  pub bank_code : Str
  pub payer_type : PayerType
  pub captured_at : Time

pub data ChargeFailureReason : Type 0 where
  charge_retry_window_expired payment_rejected payment_method_missing : ChargeFailureReason

pub record Applicant : Type 0 where
  pub full_name : Str
  pub document_id : Str
  pub email : Str

pub record CoveredRisk : Type 0 where
  pub code : Str
  pub insured_amount : ℤ

pub record CoverageTerms : Type 0 where
  pub insured_amount : ℤ
  pub term_months : ℤ
  pub coverages : List CoveredRisk

-- What a confirmed charge activates.
pub record Activation : Type 0 where
  pub policy_id : Str
  pub event_id : Str
  pub activated_at : Time
  pub coverage_start : Time
  pub coverage_end : Time

-- The part of the charge that does not change once it is stored.
pub record Snapshot : Type 0 where
  pub acceptance_id : Str
  pub offer_id : Str
  pub customer_id : Str
  pub channel : Str
  pub accepted_at : Time
  pub offer_expires_at : Time
  pub holder : Applicant
  pub amount_minor : ℤ
  pub currency : Str
  pub terms : CoverageTerms
  pub renewal_of : Str
  pub coverage_not_before : Time
  pub created_at : Time

-- What the issuer said, and what an analyst did.
pub record Diagnosis : Type 0 where
  pub last_error : Str
  pub decline_code : Str
  pub provider_reference : Str
  pub last_attempt_at : Time
  pub last_failure_at : Time
  pub resume_count : ℕ
  pub last_resumed_by : Str
  pub last_resumed_at : Time
  pub resume_note : Str
  pub updated_at : Time

-- The publication of the activation.
pub record Publication : Type 0 where
  pub published_at : Time
  pub attempts : ℕ
  pub next_attempt_at : Time
  pub last_error : Str

pub record Charge : Type 0 where
  pub snapshot : Snapshot
  pub open snapshot use *
  pub idempotency_key : Str
  pub status : Status
  pub attempts : ℕ
  pub next_attempt_at : Time
  pub claimed_until : Time
  pub window_started_at : Time
  pub window_ends_at : Time
  pub failure_reason : Option ChargeFailureReason
  pub diagnosis : Diagnosis
  pub confirmed_at : Time
  pub activation : Activation
  pub publication : Publication
  pub payment_method : PaymentMethod
  pub payment_attempt : ℕ

pub record ChargeResumption : Type 0 where
  pub by : Str
  pub note : Str
  pub at : Time
  pub window_ends_at : Time

-- The acceptance and the offer, with the fields that a charge reads.
pub record Acceptance : Type 0 where
  pub id : Str
  pub channel : Str
  pub accepted_at : Time

pub record Offer : Type 0 where
  pub id : Str
  pub customer_id : Str
  pub applicant : Applicant
  pub premium : ℤ
  pub currency : Str
  pub expires_at : Time
  pub terms : CoverageTerms
