-- ===== src/Claims/Decision/Samples.antt =====
-- A claim of 2.000.000 cents of a coverage with a deductible of 10 %, from its filing to its payout.
use misw4501_202614_grupo.Base.{ℕ, ◌*◌, none, some, List, [], ◌∷◌}
use misw4501_202614_grupo.Base.Int.{pos}
use misw4501_202614_grupo.Base.Text.{lit}
use misw4501_202614_grupo.Base.Clock.{second}
use misw4501_202614_grupo.Idempotency.{Cause}
use misw4501_202614_grupo.Idempotency.Runner.{Answer}
use misw4501_202614_grupo.Claims.Catalog.{collision}
use misw4501_202614_grupo.Claims.Coverage.{Coverage, Holder}
use misw4501_202614_grupo.Claims.Case.{Status, ClaimRecord, zero_claim}
use misw4501_202614_grupo.Claims.Decision.{Decision, Payout, Outcome, new_payout}
use misw4501_202614_grupo.Claims.Decision.Store.{claimed_payout, confirmed_payout}
use misw4501_202614_grupo.Claims.Decision.World.{
  Action, file_claim, approve_claim, take_payout, answer, tick, retry,
}

abbrev pub lease : ℕ
lease = 30 * second

abbrev pub collision_claim : ClaimRecord
collision_claim =
    let claim = zero_claim.claim in
    record zero_claim {
      claim = record claim {
        id = lit "7";
        filing_number = lit "SIN-7";
        subject = lit "ana";
        incident_type = collision;
        status = Status.in_evaluation;
      };
    }

abbrev pub collision_coverage : Coverage
collision_coverage = record {
  incident = collision;
  insured_value_minor = pos 5_000_000;
  currency = lit "COP";
  deductible_basis_points = pos 1000;
}

abbrev pub ana : Holder
ana = record {
  full_name = lit "Ana";
  document_type = lit "CC";
  document_id = lit "1";
  email = lit "ana@example.com";
  phone = [];
  payout_account = record {
    bank_code = lit "007";
    bank_name = [];
    account_type = lit "savings";
    account_number = lit "42";
  };
}

-- What the approval makes of the claim.
abbrev pub pending_payout : Payout
pending_payout = new_payout collision_claim collision_coverage ana (pos 1_800_000) 0

abbrev pub approval : Decision
approval = record {
  claim_id = lit "7";
  filing_number = lit "SIN-7";
  outcome = Outcome.approved;
  decided_by = lit "luis";
  decided_at = 0;
  gross_amount_minor = pos 2_000_000;
  insured_value_minor = pos 5_000_000;
  deductible_basis_points = pos 1000;
  currency = lit "COP";
  payout = some pending_payout;
  reason = [];
  notice = none;
}

abbrev pub reference : Answer
reference = record { outcome = record { reference = lit "R1" }; error = none }

abbrev pub timeout : Answer
timeout = record {
  outcome = record { reference = [] };
  error = some (record { chain = Cause.err_ambiguous ∷ []; message = lit "timeout" });
}

abbrev pub filed_and_approved : List Action
filed_and_approved =
    file_claim collision_claim
    ∷ approve_claim collision_claim collision_coverage ana (pos 2_000_000) (lit "luis") 0
    ∷ []

-- The gateway answers a worker in time.
abbrev pub paying : List Action
paying =
    file_claim collision_claim
    ∷ approve_claim collision_claim collision_coverage ana (pos 2_000_000) (lit "luis") 0
    ∷ take_payout (lit "7")
    ∷ answer 0 reference
    ∷ []

abbrev pub paid_payout : Payout
paid_payout =
    confirmed_payout 0 (record { reference = lit "R1" })
      (claimed_payout 0 (pos lease) pending_payout)

-- Whatever comes later: a retry by an analyst, another claim of the payout.
abbrev pub later : List Action
later =
    retry (lit "7") (lit "luis") none ∷ tick lease ∷ take_payout (lit "7") ∷ answer 0 timeout ∷ []

-- The lease of a first worker ends before it has an answer, and a second one claims the payout.
abbrev pub overtaken : List Action
overtaken =
    file_claim collision_claim
    ∷ approve_claim collision_claim collision_coverage ana (pos 2_000_000) (lit "luis") 0
    ∷ take_payout (lit "7")
    ∷ tick (31 * second)
    ∷ take_payout (lit "7")
    ∷ []

-- A second claim, decided as the first.
abbrev pub second_claim : ClaimRecord
second_claim =
    let claim = collision_claim.claim in
    record collision_claim { claim = record claim { id = lit "8" } }

abbrev pub second_payout : Payout
second_payout = new_payout second_claim collision_coverage ana (pos 1_800_000) 0

abbrev pub second_approval : Decision
second_approval = record approval { claim_id = lit "8"; payout = some second_payout }

-- Two workers hold one payout each.
abbrev pub side_by_side : List Action
side_by_side =
    file_claim collision_claim
    ∷ file_claim second_claim
    ∷ approve_claim collision_claim collision_coverage ana (pos 2_000_000) (lit "luis") 0
    ∷ approve_claim second_claim collision_coverage ana (pos 2_000_000) (lit "luis") 0
    ∷ take_payout (lit "7")
    ∷ take_payout (lit "8")
    ∷ []
