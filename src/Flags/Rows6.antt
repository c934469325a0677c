-- ===== src/Flags/Rows6.antt =====
-- src/compliance_engine/flags/registry.py: `_FLAGS`, from EVIDENCE_GROUNDING_INSUFFICIENT to GSTIN_NOT_FOUND.
use core_engine_ge_m.Base.{List, [], ◌∷◌}
use core_engine_ge_m.Flags.Model.{FlagDefinition, critical, high, low, medium, flag}

unfoldable pub rows_6 : List FlagDefinition
rows_6 =
    flag "EVIDENCE_GROUNDING_INSUFFICIENT" medium "Missing / Completeness Checks"
      "Evidence grounding insufficient" "Evidence grounding insufficient"
    ∷ flag "EVIDENCE_GROUNDING_UNRELIABLE" medium "Evidence Quality Checks"
        "Evidence grounding unreliable" "Evidence grounding unreliable"
    ∷ flag "EVIDENCE_LINKAGE_BROKEN" high "Auditability / Evidence Traceability"
        "Evidence linkage broken" "Evidence linkage broken"
    ∷ flag "EVIDENCE_PROVENANCE_UNCLEAR" medium "Evidence Quality Checks"
        "Evidence provenance unclear" "Evidence provenance unclear"
    ∷ flag "EVIDENCE_QUALITY_VERIFICATION_INCOMPLETE" low "Evidence Quality Checks"
        "Evidence quality verification incomplete" "Evidence quality verification incomplete"
    ∷ flag "EXACT_DUPLICATE_BIDDER_DETECTED" critical
        "Cross-Bidder / Duplicate / Near-Duplicate Detection" "Exact duplicate bidder detected"
        "Exact duplicate bidder detected"
    ∷ flag "EXEMPTION_CONDITION_NOT_MET" high "Tender Applicability / Exemption Checks"
        "Exemption condition not met" "Exemption condition not met"
    ∷ flag "EXEMPTION_EVIDENCE_INSUFFICIENT" high "Tender Applicability / Exemption Checks"
        "Exemption evidence insufficient" "Exemption evidence insufficient"
    ∷ flag "EXEMPTION_NOT_RECOGNIZED_FOR_TENDER" high "Tender Applicability / Exemption Checks"
        "Exemption not recognized for tender" "Exemption not recognized for tender"
    ∷ flag "FALLBACK_VERIFICATION_INCOMPLETE" medium "Verification Infrastructure Checks"
        "Fallback verification incomplete" "Fallback verification incomplete"
    ∷ flag "FINANCIAL_CAPACITY_MISSING" high "Financial Capacity"
        "Financial capacity evidence missing" "Financial capacity evidence missing"
    ∷ flag "FINANCIAL_DATA_INCONSISTENCY" high "Financial Capacity" "Financial data inconsistency"
        "Financial data inconsistency"
    ∷ flag "FINANCIAL_PROFILE_ANOMALY" medium "Cross-Bidder / Duplicate / Near-Duplicate Detection"
        "Financial profile anomaly" "Financial profile anomaly"
    ∷ flag "FINANCIAL_VERIFICATION_UNAVAILABLE" medium "Financial Capacity"
        "Financial verification unavailable" "Financial verification unavailable"
    ∷ flag "FINANCIAL_YEAR_MISSING" high "Financial Capacity" "Financial year missing"
        "Financial year missing"
    ∷ flag "FINANCIAL_YEAR_MISMATCH" medium "Financial Capacity" "Financial year mismatch"
        "Financial year mismatch"
    ∷ flag "GROUNDING_INSUFFICIENT" medium "Evidence Quality Checks" "Grounding insufficient"
        "Grounding insufficient"
    ∷ flag "GSTIN_INVALID" high "GST / GSTN" "GSTIN invalid" "GSTIN invalid"
    ∷ flag "GSTIN_MISSING" high "GST / GSTN" "GSTIN missing" "GSTIN missing"
    ∷ flag "GSTIN_NOT_FOUND" high "GST / GSTN" "GSTIN not found" "GSTIN not found"
    ∷ []
