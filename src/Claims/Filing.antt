-- ===== src/Claims/Filing.antt =====
-- The text that a filing is recognised by, and its number: services/claims/internal/domain/claim.go
-- and web_filing.go. The digest, and the formats of instants and numbers, are parameters.
use misw4501_202614_grupo.Base.{ℕ, Option, none, some, List, [], ◌∷◌, ◌++◌, if◌then◌else◌}
use misw4501_202614_grupo.Base.Int.{ℤ}
use misw4501_202614_grupo.Base.Text.{Str, lit, str_ltb}
use misw4501_202614_grupo.Base.Dict.{Dict}
use misw4501_202614_grupo.Base.Clock.{Time}
use misw4501_202614_grupo.Claims.Catalog.{incident_name}
use misw4501_202614_grupo.Claims.Case.{Evidence, AttachedSupport, Claim, ClaimRecord}

-- `hex_sha256` is the digest in hexadecimal, `year` and `five_digits` the two numbers of `%d-%05d`.
pub record Formats : Type 0 where
  pub hex_sha256 : Str → Str
  pub rfc3339_nano : Time → Str
  pub decimal : ℤ → Str
  pub year : Time → Str
  pub five_digits : ℕ → Str

abbrev pub newline : Str
newline = 10 ∷ []

insert_detail : Str → Str → Dict Str → Dict Str
insert_detail k v [] = (k, v) ∷ []
insert_detail k v ((j, w) ∷ m) =
    let rest = insert_detail k v m in if str_ltb j k then (j, w) ∷ rest else (k, v) ∷ (j, w) ∷ m

-- The details by key.
sort_details : Dict Str → Dict Str
unfolding insert_detail
sort_details [] = []
sort_details ((k, v) ∷ m) = insert_detail k v (sort_details m)

details_text : Dict Str → Str
details_text [] = []
details_text ((k, v) ∷ m) = k ++ (lit "=" ++ (v ++ (newline ++ details_text m)))

evidence_text : List Evidence → Str
evidence_text [] = []
evidence_text (e ∷ es) = e.object_key ++ (newline ++ evidence_text es)

module _ (f : Formats) where
  unfoldable pub filing_number : Time → ℕ → Str
  filing_number at sequence = lit "SIN-" ++ (f.year at ++ (lit "-" ++ f.five_digits sequence))

  -- What `factsFingerprint` digests.
  unfoldable pub facts_text : Claim → Str
  unfolding sort_details details_text evidence_text
  facts_text c =
      c.policy_id
      ++ (newline
          ++ (incident_name c.incident_type
              ++ (newline
                  ++ (f.rfc3339_nano c.occurred_at
                      ++ (newline
                          ++ (c.place
                              ++ (newline
                                  ++ (c.description
                                      ++ (newline
                                          ++ (details_text (sort_details c.details)
                                              ++ evidence_text c.evidence))))))))))

  unfoldable pub facts_fingerprint : Claim → Str
  unfolding facts_text
  facts_fingerprint c = f.hex_sha256 (facts_text c)

  unfoldable pub fingerprint : Claim → Str
  unfolding facts_fingerprint
  fingerprint c = elim (c.estimated_amount_minor) [
    | none ↦ facts_fingerprint c
    | some amount ↦
        f.hex_sha256
          (facts_fingerprint c ++ (newline ++ (lit "estimated_amount=" ++ f.decimal amount)))
  ]

  supports_text : List AttachedSupport → Str
  supports_text [] = []
  supports_text (s ∷ ss) =
      s.requirement_code ++ (lit "=" ++ (s.file.id ++ (newline ++ supports_text ss)))

  abbrev amount_text : Option ℤ → Str
  amount_text none = []
  amount_text (some amount) = lit "estimated_amount=" ++ (f.decimal amount ++ newline)

  unfoldable pub web_fingerprint : ClaimRecord → Str
  unfolding facts_fingerprint supports_text
  web_fingerprint c = f.hex_sha256 (
      lit "web"
      ++ (newline
          ++ (facts_fingerprint c.claim
              ++ (newline ++ (supports_text c.supports ++ amount_text c.estimated_amount_minor)))))
