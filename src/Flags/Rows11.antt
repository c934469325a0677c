-- ===== src/Flags/Rows11.antt =====
-- src/compliance_engine/flags/registry.py: `_FLAGS`, from TAX_DATA_MISMATCH to VERIFICATION_NON_REPRODUCIBLE.
use core_engine_ge_m.Base.{List, [], ◌∷◌}
use core_engine_ge_m.Flags.Model.{FlagDefinition, high, medium, flag}

unfoldable pub rows_11 : List FlagDefinition
rows_11 =
    flag "TAX_DATA_MISMATCH" high "PAN / Income Tax" "Tax data mismatch" "Tax data mismatch"
    ∷ flag "TENDER_APPLICABILITY_UNDEFINED" medium "Tender Applicability / Exemption Checks"
        "Tender applicability undefined" "Tender applicability undefined"
    ∷ flag "TENDER_REQUIREMENT_COMPLIANCE_UNCLEAR" medium "Other Tender-Specific Requirements"
        "Tender requirement compliance unclear" "Tender requirement compliance unclear"
    ∷ flag "TENDER_REQUIREMENT_EVIDENCE_INVALID" high "Other Tender-Specific Requirements"
        "Tender requirement evidence invalid" "Tender requirement evidence invalid"
    ∷ flag "TENDER_REQUIREMENT_EVIDENCE_MISSING" high "Other Tender-Specific Requirements"
        "Tender requirement evidence missing" "Tender requirement evidence missing"
    ∷ flag "TENDER_REQUIREMENT_THRESHOLD_NOT_MET" high "Other Tender-Specific Requirements"
        "Tender requirement threshold not met" "Tender requirement threshold not met"
    ∷ flag "TENDER_SPECIFIC_VERIFICATION_UNAVAILABLE" medium "Other Tender-Specific Requirements"
        "Tender-specific verification unavailable" "Tender-specific verification unavailable"
    ∷ flag "TURNOVER_BELOW_THRESHOLD" high "Financial Capacity" "Turnover below threshold"
        "Turnover below threshold"
    ∷ flag "TURNOVER_PERIOD_MISMATCH" medium "Financial Capacity" "Turnover period mismatch"
        "Turnover period mismatch"
    ∷ flag "TURNOVER_DATA_MISSING" medium "Financial Capacity" "Turnover data missing"
        "Turnover data missing"
    ∷ flag "TURNOVER_TREND_ANOMALY" medium "Financial Capacity" "Turnover trend anomaly"
        "Turnover trend anomaly"
    ∷ flag "UDYAM_CATEGORY_MISMATCH" high "Udyam / MSME" "Udyam category mismatch"
        "Udyam category mismatch"
    ∷ flag "UDYAM_IDENTITY_MISMATCH" high "Udyam / MSME" "Udyam identity mismatch"
        "Udyam identity mismatch"
    ∷ flag "UDYAM_INACTIVE" high "Udyam / MSME" "Udyam registration inactive"
        "Udyam registration inactive"
    ∷ flag "UDYAM_INVALID" high "Udyam / MSME" "Udyam number invalid" "Udyam number invalid"
    ∷ flag "UDYAM_NOT_FOUND" high "Udyam / MSME" "Udyam registration not found"
        "Udyam registration not found"
    ∷ flag "UDYAM_VERIFICATION_UNAVAILABLE" medium "Udyam / MSME" "Udyam verification unavailable"
        "Udyam verification unavailable"
    ∷ flag "UDYAM_SCOPE_MISMATCH" medium "Udyam / MSME" "Udyam scope mismatch"
        "Udyam scope mismatch"
    ∷ flag "VERIFICATION_DATA_STALE" medium "Verification Infrastructure Checks"
        "Verification data stale" "Verification data stale"
    ∷ flag "VERIFICATION_NON_REPRODUCIBLE" high "Auditability / Evidence Traceability"
        "Verification non-reproducible" "Verification non-reproducible"
    ∷ []
