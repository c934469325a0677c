-- ===== src/Flags/Rows3.antt =====
-- src/compliance_engine/flags/registry.py: `_FLAGS`, from CA_VERIFICATION_UNAVAILABLE to CROSS_BIDDER_DOCUMENT_NEAR_DUPLICATE.
use core_engine_ge_m.Base.{List, [], ◌∷◌}
use core_engine_ge_m.Flags.Model.{FlagDefinition, critical, high, low, medium, flag}

unfoldable pub rows_3 : List FlagDefinition
rows_3 =
    flag "CA_VERIFICATION_UNAVAILABLE" medium "CA / UDIN" "CA verification unavailable"
      "CA verification unavailable"
    ∷ flag "CERTIFICATE_TYPE_MISMATCH" medium "CA / UDIN" "Certificate type mismatch"
        "Certificate type mismatch"
    ∷ flag "CERTIFICATE_VALIDITY_EXPIRED" high "CA / UDIN" "Certificate validity expired"
        "Certificate validity expired"
    ∷ flag "CIN_INVALID" high "MCA21" "CIN invalid" "CIN invalid"
    ∷ flag "CIN_NOT_FOUND" high "MCA21" "CIN not found" "CIN not found"
    ∷ flag "COMPANY_IDENTITY_MISMATCH" high "MCA21" "Company identity mismatch"
        "Company identity mismatch"
    ∷ flag "COMPANY_INACTIVE" high "MCA21" "Company inactive" "Company inactive"
    ∷ flag "COMPANY_STRIKE_OFF" critical "MCA21" "Company struck off" "Company struck off"
    ∷ flag "COMPANY_UNDER_LIQUIDATION" critical "MCA21" "Company under liquidation"
        "Company under liquidation"
    ∷ flag "COMPLETENESS_VERIFICATION_INCOMPLETE" low "Missing / Completeness Checks"
        "Completeness verification incomplete" "Completeness verification incomplete"
    ∷ flag "COMPLIANCE_SCORE_LOW" medium "Compliance Score / Risk Level" "Compliance score low"
        "Compliance score low"
    ∷ flag "CONDITIONAL_APPLICABILITY_UNCLEAR" medium "Tender Applicability / Exemption Checks"
        "Conditional applicability unclear" "Conditional applicability unclear"
    ∷ flag "CONDITIONAL_FIELD_MISSING" medium "Missing / Completeness Checks"
        "Conditional field missing" "Conditional field missing"
    ∷ flag "CONFLICTING_EXEMPTIONS" high "Tender Applicability / Exemption Checks"
        "Conflicting exemptions" "Conflicting exemptions"
    ∷ flag "COVERED_EMPLOYEE_COUNT_BELOW_THRESHOLD" high "ESIC"
        "Covered employee count below threshold" "Covered employee count below threshold"
    ∷ flag "CROSS_SOURCE_IDENTITY_MISMATCH" high "Bidder Identity" "Cross-source identity mismatch"
        "Verified identity-bearing names from two or more authoritative sources (e.g. GST, PAN, Udyam, MCA) materially differ after deterministic normalization. Indicates a bidder identity consistency concern; downstream policy decides compliance."
    ∷ flag "CRITICAL_CAPABILITY_FAILED" critical "Overall Bid-Level Assessment"
        "Critical capability failed" "Critical capability failed"
    ∷ flag "CRITICAL_SOURCE_UNAVAILABLE" high "Verification Infrastructure Checks"
        "Critical source unavailable" "Critical source unavailable"
    ∷ flag "CROSS_BIDDER_VERIFICATION_INCOMPLETE" low
        "Cross-Bidder / Duplicate / Near-Duplicate Detection" "Cross-bidder verification incomplete"
        "Cross-bidder verification incomplete"
    ∷ flag "CROSS_BIDDER_DOCUMENT_NEAR_DUPLICATE" medium
        "Cross-Bidder / Duplicate / Near-Duplicate Detection" "Cross-bidder document near-duplicate"
        "Near-identical document content detected across different bidders."
    ∷ []
