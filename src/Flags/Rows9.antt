-- ===== src/Flags/Rows9.antt =====
-- src/compliance_engine/flags/registry.py: `_FLAGS`, from PAN_INACTIVE to RISK_LEVEL_HIGH.
use core_engine_ge_m.Base.{List, [], ◌∷◌}
use core_engine_ge_m.Flags.Model.{FlagDefinition, critical, high, info, low, medium, flag}

unfoldable pub rows_9 : List FlagDefinition
rows_9 =
    flag "PAN_INACTIVE" high "PAN / Income Tax" "PAN inactive" "PAN inactive"
    ∷ flag "PAN_INVALID" high "PAN / Income Tax" "PAN invalid" "PAN invalid"
    ∷ flag "PAN_NOT_FOUND" high "PAN / Income Tax" "PAN not found" "PAN not found"
    ∷ flag "PAN_VERIFICATION_UNAVAILABLE" medium "PAN / Income Tax" "PAN verification unavailable"
        "PAN verification unavailable"
    ∷ flag "PROCUREMENT_DEBARMENT_ACTIVE" high "Blacklisting / Debarment"
        "Active procurement debarment / restriction" "Active procurement debarment / restriction"
    ∷ flag "PROCUREMENT_ELIGIBILITY_UNVERIFIABLE" medium "Blacklisting / Debarment"
        "Procurement eligibility unverifiable" "Procurement eligibility unverifiable"
    ∷ flag "RECOMMENDATION_AUTOMATIC_ACCEPT" info "AI Recommendation"
        "Recommendation: automatic accept" "Recommendation: automatic accept"
    ∷ flag "RECOMMENDATION_AUTOMATIC_REJECT" critical "AI Recommendation"
        "Recommendation: automatic reject" "Recommendation: automatic reject"
    ∷ flag "RECOMMENDATION_CONFIDENCE_LOW" low "AI Recommendation" "Recommendation confidence low"
        "Recommendation confidence low"
    ∷ flag "RECOMMENDATION_ESCALATE_TO_REVIEW" medium "AI Recommendation"
        "Recommendation: escalate to review" "Recommendation: escalate to review"
    ∷ flag "RECOMMENDATION_INCOMPLETE" low "AI Recommendation" "Recommendation incomplete"
        "Recommendation incomplete"
    ∷ flag "REGISTRATION_CHANGE_UNEXPLAINED" high "Registration / Status Checks"
        "Registration change unexplained" "Registration change unexplained"
    ∷ flag "REGISTRATION_RECENTLY_CHANGED" medium "Registration / Status Checks"
        "Registration recently changed" "Registration recently changed"
    ∷ flag "REGISTRATION_STALE_NOT_VERIFIED" medium "Registration / Status Checks"
        "Registration stale/not verified" "Registration stale/not verified"
    ∷ flag "REGISTRATION_STATUS_INCONSISTENT" high "Registration / Status Checks"
        "Registration status inconsistent" "Registration status inconsistent"
    ∷ flag "REGISTRATION_VERIFICATION_INCOMPLETE" low "Registration / Status Checks"
        "Registration verification incomplete" "Registration verification incomplete"
    ∷ flag "REQUIRED_EVIDENCE_MISSING" high "Missing / Completeness Checks"
        "Required evidence missing" "Required evidence missing"
    ∷ flag "REQUIRED_FIELD_MISSING" high "Missing / Completeness Checks" "Required field missing"
        "Required field missing"
    ∷ flag "RISK_ASSESSMENT_INCOMPLETE" low "Compliance Score / Risk Level"
        "Risk assessment incomplete" "Risk assessment incomplete"
    ∷ flag "RISK_LEVEL_HIGH" high "Compliance Score / Risk Level" "Risk level high"
        "Risk level high"
    ∷ []
