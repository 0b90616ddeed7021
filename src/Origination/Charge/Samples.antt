-- ===== src/Origination/Charge/Samples.antt =====
-- The premium of one acceptance, from its registration to its payment by card.
use misw4501_202614_grupo.Base.{ℕ, ◌+◌, ◌*◌, [], ◌∷◌}
use misw4501_202614_grupo.Base.Int.{ℤ, pos, pos_part}
use misw4501_202614_grupo.Base.Text.{Str, lit}
use misw4501_202614_grupo.Base.Clock.{Time, second, millisecond}
use misw4501_202614_grupo.Resilience.{RetryPolicy}
use misw4501_202614_grupo.Origination.Charge.{
  Charge, Snapshot, PaymentMethod, card, no_payer, ChargeResumption, charge_retry_window_expired,
  waiting_charge, confirmed_charge,
}
use misw4501_202614_grupo.Origination.Charge.Store.{
  ChargeStore, claimed_charge, confirmed_row, failed_charge,
}
use misw4501_202614_grupo.Origination.Charge.Methods.{attached_charge}

-- The decimal text of a digit, and months of thirty seconds.
abbrev pub digit : ℕ → Str
digit n = (n + 0x30) ∷ []

abbrev pub add_months : Time → ℤ → Time
add_months t months = t + pos_part months * 30 * second

abbrev pub lease : ℕ
lease = 30 * second

abbrev pub policy : RetryPolicy
policy = record {
  base = pos (500 * millisecond);
  max = pos (60 * second);
  window = pos (3600 * second);
}

abbrev pub snapshot : Snapshot
snapshot = record {
  acceptance_id = lit "7";
  offer_id = lit "off-7";
  customer_id = lit "ana";
  channel = lit "web";
  accepted_at = 1;
  offer_expires_at = 9;
  holder = record { full_name = lit "Ana"; document_id = lit "1"; email = lit "ana@example.com" };
  amount_minor = pos 8_950_000;
  currency = lit "COP";
  terms = record { insured_amount = pos 500_000_000; term_months = pos 12; coverages = [] };
  renewal_of = [];
  coverage_not_before = 0;
  created_at = 1;
}

abbrev pub visa : PaymentMethod
visa = record {
  kind = card;
  token = lit "tok_11111";
  brand = lit "visa";
  last4 = lit "1111";
  installments = pos 1;
  bank_code = [];
  payer_type = no_payer;
  captured_at = 0;
}

abbrev pub other_card : PaymentMethod
other_card = record visa { token = lit "tok_22222"; last4 = lit "2222" }

abbrev pub waiting : Charge
waiting = waiting_charge snapshot (lit "cobro-7") 1 (3600 * second) 1

abbrev pub due_charge : Charge
due_charge = attached_charge digit (lit "7") visa 1 waiting

abbrev pub charging : Charge
charging = claimed_charge 1 (pos lease) due_charge

abbrev pub paid_charge : Charge
paid_charge = confirmed_row 1 (confirmed_charge add_months 1 (lit "ch-1") charging) charging

-- The window ended, and the last attempt had no definite answer.
abbrev pub expired : Charge
expired = failed_charge 5 charge_retry_window_expired (lit "timeout") charging

abbrev pub one : Charge → ChargeStore
one c = record { charges = (lit "7", c) ∷ []; actions = [] }

abbrev pub resumption : ChargeResumption
resumption = record { by = lit "luis"; note = lit "retry"; at = 9; window_ends_at = 99 }
