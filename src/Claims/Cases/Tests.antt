-- ===== src/Claims/Cases/Tests.antt =====
-- Ana files a web claim with one support.
use misw4501_202614_grupo.Base.{◌≡◌, refl, true, false, some, [], ◌∷◌, ◌++◌, All, ok}
use misw4501_202614_grupo.Base.Int.{pos}
use misw4501_202614_grupo.Base.Text.{lit, str_eq}
use misw4501_202614_grupo.Base.Dict.{lookup}
use misw4501_202614_grupo.Claims.Catalog.{collision, pdf}
use misw4501_202614_grupo.Claims.Case.{Status, Claim, ClaimRecord, Channel, zero_claim, SupportFile}
use misw4501_202614_grupo.Claims.Filing.{Formats, newline, filing_number, fingerprint}
use misw4501_202614_grupo.Claims.Cases.{
  CaseStore, new_case_store, by_filing_key, any_taken, numbered, web_record, create_web,
}
use misw4501_202614_grupo.Claims.Cases.Filings.{
  create_web_again, create_web_keeps, fingerprint-place,
}

-- Formats that keep their text.
abbrev plain : Formats
plain = record {
  hex_sha256 = λ s. s;
  rfc3339_nano = λ t. lit "2026-01-01T00:00:00Z";
  decimal = λ n. lit "1";
  year = λ t. lit "2026";
  five_digits = λ n. n ∷ [];
}

abbrev report_file : SupportFile
report_file = record {
  id = lit "F1";
  owner_subject = lit "ana";
  file_name = lit "informe.pdf";
  format = pdf;
  byte_size = pos 2000;
  sha256 = [];
  uploaded_at = 1;
  confirmed_at = 2;
}

abbrev collision_claim : Claim
collision_claim =
    let claim = zero_claim.claim in
    record claim {
      id = lit "7";
      subject = lit "ana";
      filing_key = lit "k1";
      incident_type = collision;
      status = Status.active;
      filed_at = 5;
    }

abbrev web_claim : ClaimRecord
web_claim = record zero_claim {
  claim = collision_claim;
  supports =
      record { requirement_code = lit "traffic_report"; position = 0; file = report_file } ∷ [];
}

-- The support belongs to another claim already.
abbrev taken : CaseStore
taken = record new_case_store { attached_to = (lit "F1", lit "3") ∷ [] }

create_web_again_example :
    let stored = numbered plain (web_record web_claim) new_case_store in
    let s' = (create_web plain web_claim new_case_store).0 in
    ((create_web plain web_claim new_case_store).1 ≡ ok (stored, true))
    × (stored.channel ≡ Channel.web)
    × (stored.filing_number ≡ filing_number plain 5 1)
    × (s'.sequence ≡ 1)
    × (lookup (lit "7") s'.by_id ≡ some stored)
    × All (λ a. lookup a.file.id s'.attached_to ≡ some (lit "7")) web_claim.supports
    × (create_web plain web_claim s' ≡ (s', ok (stored, false)))
unfolding by_filing_key lookup any_taken
create_web_again_example = create_web_again plain web_claim new_case_store refl refl

create_web_keeps_example :
    lookup (lit "F1") (create_web plain web_claim taken).0.attached_to ≡ some (lit "3")
unfolding lookup str_eq
create_web_keeps_example = create_web_keeps plain web_claim taken (lit "F1") (lit "3") refl

fingerprint-place_example :
    fingerprint plain (record collision_claim {
      place = lit "Calle 10" ++ (newline ++ lit "esquina");
      description = lit "choque";
    })
    ≡ fingerprint plain (record collision_claim {
      place = lit "Calle 10";
      description = lit "esquina" ++ (newline ++ lit "choque");
    })
fingerprint-place_example =
    fingerprint-place plain collision_claim (lit "Calle 10") (lit "esquina") (lit "choque")
