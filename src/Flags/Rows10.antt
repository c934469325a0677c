-- ===== src/Flags/Rows10.antt =====
-- src/compliance_engine/flags/registry.py: `_FLAGS`, from RISK_TREND_DETERIORATING to SUSPICIOUS_BIDDER_RELATIONSHIP_DETECTED.
use core_engine_ge_m.Base.{List, [], ◌∷◌}
use core_engine_ge_m.Flags.Model.{FlagDefinition, critical, high, medium, flag}

unfoldable pub rows_10 : List FlagDefinition
rows_10 =
    flag "RISK_TREND_DETERIORATING" medium "Compliance Score / Risk Level"
      "Risk trend deteriorating" "Risk trend deteriorating"
    ∷ flag "SCORING_FORMULA_UNDEFINED" medium "Compliance Score / Risk Level"
        "Scoring formula undefined" "Scoring formula undefined"
    ∷ flag "SOLVENCY_THRESHOLD_NOT_MET" high "Financial Capacity" "Solvency threshold not met"
        "Solvency threshold not met"
    ∷ flag "SOLVENCY_REQUIREMENT_FAILED" high "Financial Capacity" "Solvency requirement failed"
        "Solvency requirement failed"
    ∷ flag "SOURCE_DOCUMENT_UNRECOVERABLE" high "Auditability / Evidence Traceability"
        "Source document unrecoverable" "Source document unrecoverable"
    ∷ flag "SOURCING_LOCATION_MISMATCH" medium "Make in India / Local Content"
        "Sourcing location mismatch" "Sourcing location mismatch"
    ∷ flag "STARTUP_IDENTITY_MISMATCH" high "Startup India / DPIIT" "Startup identity mismatch"
        "Startup identity mismatch"
    ∷ flag "STARTUP_INELIGIBLE_FOR_EXEMPTION" high "Startup India / DPIIT"
        "Startup ineligible for exemption" "Startup ineligible for exemption"
    ∷ flag "STARTUP_RECOGNITION_EXPIRED" high "Startup India / DPIIT" "Startup recognition expired"
        "Startup recognition expired"
    ∷ flag "STARTUP_RECOGNITION_INVALID" high "Startup India / DPIIT" "Startup recognition invalid"
        "Startup recognition invalid"
    ∷ flag "STARTUP_RECOGNITION_NOT_FOUND" high "Startup India / DPIIT"
        "Startup recognition not found" "Startup recognition not found"
    ∷ flag "STARTUP_SECTOR_MISMATCH" medium "Startup India / DPIIT" "Startup sector mismatch"
        "Startup sector mismatch"
    ∷ flag "STARTUP_VERIFICATION_UNAVAILABLE" medium "Startup India / DPIIT"
        "Startup verification unavailable" "Startup verification unavailable"
    ∷ flag "STATUTORY_REQUIREMENT_EXPIRED" high "Other Applicable Statutory Requirements"
        "Statutory requirement expired" "Statutory requirement expired"
    ∷ flag "STATUTORY_REQUIREMENT_INVALID" high "Other Applicable Statutory Requirements"
        "Statutory requirement invalid" "Statutory requirement invalid"
    ∷ flag "STATUTORY_REQUIREMENT_MISSING" high "Other Applicable Statutory Requirements"
        "Statutory requirement missing" "Statutory requirement missing"
    ∷ flag "STATUTORY_REQUIREMENT_SCOPE_MISMATCH" medium "Other Applicable Statutory Requirements"
        "Statutory requirement scope mismatch" "Statutory requirement scope mismatch"
    ∷ flag "STATUTORY_REQUIREMENT_SUSPENDED_REVOKED" critical
        "Other Applicable Statutory Requirements" "Statutory requirement suspended or revoked"
        "Statutory requirement suspended or revoked"
    ∷ flag "STATUTORY_VERIFICATION_UNAVAILABLE" medium "Other Applicable Statutory Requirements"
        "Statutory verification unavailable" "Statutory verification unavailable"
    ∷ flag "SUSPICIOUS_BIDDER_RELATIONSHIP_DETECTED" high
        "Cross-Bidder / Duplicate / Near-Duplicate Detection"
        "Suspicious bidder relationship detected" "Suspicious bidder relationship detected"
    ∷ []
