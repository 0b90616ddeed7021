-- ===== src/Audit/Compliance/Indicators.antt =====
-- The cards of the list of consents, `Indicators` of compliance_list.go.
use misw4501_202614_grupo.Base.{
  ℕ, ◌+◌, ◌*◌, ltb, Bool, true, false, not, ◌&&◌, Option, none, some, List, [], ◌∷◌,
}
use misw4501_202614_grupo.Base.Text.{str_eq, lit}
use misw4501_202614_grupo.Base.Clock.{Time, is_after, second}
use misw4501_202614_grupo.Audit.Compliance.{
  active, expired, ConsentView, RevocationView, same_status,
}

pub record ComplianceIndicators : Type 0 where
  pub active : ℕ
  pub expired : ℕ
  pub revoked_total : ℕ
  pub revoked_mobile_app : ℕ
  pub revoked_portal : ℕ
  pub out_of_deadline : ℕ
  pub as_of : Time

abbrev pub one_if : Bool → ℕ
one_if true = 1
one_if false = 0

-- Whether a revocation took effect in the last 30 days.
abbrev pub is_recent : Time → RevocationView → Bool
is_recent now r =
    ltb now (r.effective_at + 30 * 24 * 3600 * second) && not (is_after r.effective_at now)

abbrev pub count_revocation :
    Time → Option RevocationView → ComplianceIndicators → ComplianceIndicators
count_revocation now none out = out
count_revocation now (some r) out =
    let recent = is_recent now r in
    record out {
      out_of_deadline = out.out_of_deadline + one_if r.out_of_deadline;
      revoked_total = out.revoked_total + one_if recent;
      revoked_mobile_app =
          out.revoked_mobile_app + one_if (recent && str_eq r.channel (lit "mobile_app"));
      revoked_portal =
          out.revoked_portal + one_if (recent && str_eq r.channel (lit "compliance_portal"));
    }

abbrev pub count_view : Time → ConsentView → ComplianceIndicators → ComplianceIndicators
count_view now v out = count_revocation now v.revocation (record out {
  active = out.active + one_if (same_status v.status active);
  expired = out.expired + one_if (same_status v.status expired);
})

unfoldable pub indicators_from :
    Time → ComplianceIndicators → List ConsentView → ComplianceIndicators
indicators_from now out [] = out
indicators_from now out (v ∷ vs) = indicators_from now (count_view now v out) vs

-- `Indicators`.
unfoldable pub indicators : List ConsentView → Time → ComplianceIndicators
unfolding indicators_from
indicators views now =
    indicators_from now
      (record {
        active = 0;
        expired = 0;
        revoked_total = 0;
        revoked_mobile_app = 0;
        revoked_portal = 0;
        out_of_deadline = 0;
        as_of = now;
      })
      views
