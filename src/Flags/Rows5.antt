-- ===== src/Flags/Rows5.antt =====
-- src/compliance_engine/flags/registry.py: `_FLAGS`, from DIGITAL_DOCUMENT_SIGNATURE_INVALID to EVIDENCE_CONFIDENCE_BELOW_THRESHOLD.
use core_engine_ge_m.Base.{List, [], ◌∷◌}
use core_engine_ge_m.Flags.Model.{FlagDefinition, high, low, medium, flag}

unfoldable pub rows_5 : List FlagDefinition
rows_5 =
    flag "DIGITAL_DOCUMENT_SIGNATURE_INVALID" high "DigiLocker / Document Verification"
      "Digital document signature invalid" "Digital document signature invalid"
    ∷ flag "DIGITAL_SIGNATURE_VERIFICATION_FAILED" high "DigiLocker / Document Verification"
        "Digital signature verification failed" "Digital signature verification failed"
    ∷ flag "DIRECTOR_SHARING_SUSPICIOUS" high "Cross-Bidder / Duplicate / Near-Duplicate Detection"
        "Director sharing suspicious" "Director sharing suspicious"
    ∷ flag "DOCUMENT_TYPE_CONFIDENCE_LOW" low "Evidence Quality Checks"
        "Document type confidence low" "Document type confidence low"
    ∷ flag "EMPLOYEE_COUNT_BELOW_THRESHOLD" high "EPFO" "Employee count below threshold"
        "Employee count below threshold"
    ∷ flag "ENTITY_TYPE_MISMATCH" high "Bidder Identity" "Entity type mismatch"
        "Entity type mismatch"
    ∷ flag "EPFO_CONTRIBUTION_DEFAULT" high "EPFO" "EPFO contribution in default"
        "EPFO contribution in default"
    ∷ flag "EPFO_OUTSTANDING_LIABILITY_EXCESSIVE" medium "EPFO"
        "EPFO outstanding liability excessive" "EPFO outstanding liability excessive"
    ∷ flag "EPFO_REGISTRATION_INACTIVE" high "EPFO" "EPFO registration inactive"
        "EPFO registration inactive"
    ∷ flag "EPFO_REGISTRATION_INVALID" high "EPFO" "EPFO registration invalid"
        "EPFO registration invalid"
    ∷ flag "EPFO_REGISTRATION_NOT_FOUND" high "EPFO" "EPFO registration not found"
        "EPFO registration not found"
    ∷ flag "EPFO_VERIFICATION_UNAVAILABLE" medium "EPFO" "EPFO verification unavailable"
        "EPFO verification unavailable"
    ∷ flag "ESIC_CONTRIBUTION_DEFAULT" high "ESIC" "ESIC contribution in default"
        "ESIC contribution in default"
    ∷ flag "ESIC_REGISTRATION_INACTIVE" high "ESIC" "ESIC registration inactive"
        "ESIC registration inactive"
    ∷ flag "ESIC_REGISTRATION_INVALID" high "ESIC" "ESIC registration invalid"
        "ESIC registration invalid"
    ∷ flag "ESIC_REGISTRATION_NOT_FOUND" high "ESIC" "ESIC registration not found"
        "ESIC registration not found"
    ∷ flag "ESIC_VERIFICATION_UNAVAILABLE" medium "ESIC" "ESIC verification unavailable"
        "ESIC verification unavailable"
    ∷ flag "EVIDENCE_AGE_EXCESSIVE" medium "Evidence Quality Checks" "Evidence age excessive"
        "Evidence age excessive"
    ∷ flag "EVIDENCE_CHAIN_INCOMPLETE" medium "Auditability / Evidence Traceability"
        "Evidence chain incomplete" "Evidence chain incomplete"
    ∷ flag "EVIDENCE_CONFIDENCE_BELOW_THRESHOLD" medium "Evidence Quality Checks"
        "Evidence confidence below threshold" "Evidence confidence below threshold"
    ∷ []
