-- ===== src/Flags/Rows7.antt =====
-- src/compliance_engine/flags/registry.py: `_FLAGS`, from GST_IDENTITY_MISMATCH to MAKE_IN_INDIA_EXEMPTION_INVALID.
use core_engine_ge_m.Base.{List, [], ◌∷◌}
use core_engine_ge_m.Flags.Model.{FlagDefinition, critical, high, low, medium, flag}

unfoldable pub rows_7 : List FlagDefinition
rows_7 =
    flag "GST_IDENTITY_MISMATCH" high "GST / GSTN" "GST identity mismatch" "GST identity mismatch"
    ∷ flag "GST_INACTIVE" high "GST / GSTN" "GST registration inactive" "GST registration inactive"
    ∷ flag "GST_RETURN_COMPLIANCE_ISSUE" high "GST / GSTN" "GST return compliance issue"
        "GST return compliance issue"
    ∷ flag "GST_RETURN_EVIDENCE_MISSING" high "GST / GSTN" "GST return evidence missing"
        "GST return evidence missing"
    ∷ flag "GST_VERIFICATION_UNAVAILABLE" medium "GST / GSTN" "GST verification unavailable"
        "GST verification unavailable"
    ∷ flag "IDENTIFIER_ENTITY_MISMATCH" critical "Bidder Identity"
        "Identifier belongs to another entity" "Identifier belongs to another entity"
    ∷ flag "INCORPORATION_DATE_NON_COMPLIANT" high "MCA21" "Incorporation date non-compliant"
        "Incorporation date non-compliant"
    ∷ flag "INFRASTRUCTURE_VERIFICATION_INCOMPLETE" low "Verification Infrastructure Checks"
        "Infrastructure verification incomplete" "Infrastructure verification incomplete"
    ∷ flag "INTEGRITY_UNDERTAKING_MISSING" high "Blacklisting / Debarment"
        "Integrity undertaking missing" "Integrity undertaking missing"
    ∷ flag "ISSUING_AUTHORITY_INVALID" high "DigiLocker / Document Verification"
        "Issuing authority invalid" "Issuing authority invalid"
    ∷ flag "ISSUING_AUTHORITY_NOT_RECOGNIZED" high "Other Applicable Statutory Requirements"
        "Issuing authority not recognized" "Issuing authority not recognized"
    ∷ flag "ITR_DATA_INCONSISTENCY" high "PAN / Income Tax" "ITR data inconsistency"
        "ITR data inconsistency"
    ∷ flag "ITR_MISSING" high "PAN / Income Tax" "ITR missing" "ITR missing"
    ∷ flag "ITR_NOT_FILED" high "PAN / Income Tax" "ITR not filed" "ITR not filed"
    ∷ flag "ITR_OUTDATED" medium "PAN / Income Tax" "ITR outdated" "ITR outdated"
    ∷ flag "LOCAL_CONTENT_BELOW_THRESHOLD" high "Make in India / Local Content"
        "Local content below threshold" "Local content below threshold"
    ∷ flag "LOCAL_CONTENT_CLAIM_INCONSISTENT" high "Make in India / Local Content"
        "Local content claim inconsistent" "Local content claim inconsistent"
    ∷ flag "LOCAL_CONTENT_EVIDENCE_MISSING" high "Make in India / Local Content"
        "Local content evidence missing" "Local content evidence missing"
    ∷ flag "LOCAL_CONTENT_VERIFICATION_UNAVAILABLE" medium "Make in India / Local Content"
        "Local content verification unavailable" "Local content verification unavailable"
    ∷ flag "MAKE_IN_INDIA_EXEMPTION_INVALID" high "Make in India / Local Content"
        "Make in India exemption invalid" "Make in India exemption invalid"
    ∷ []
