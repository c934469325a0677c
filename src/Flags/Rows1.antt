-- ===== src/Flags/Rows1.antt =====
-- src/compliance_engine/flags/registry.py: `_FLAGS`, from ADDRESS_MISMATCH to BID_LEVEL_NON_COMPLIANT.
use core_engine_ge_m.Base.{List, [], ◌∷◌}
use core_engine_ge_m.Flags.Model.{FlagDefinition, critical, high, info, low, medium, flag}

unfoldable pub rows_1 : List FlagDefinition
rows_1 =
    flag "ADDRESS_MISMATCH" medium "Bidder Identity" "Address mismatch" "Address mismatch"
    ∷ flag "ADDRESS_SHARING_SUSPICIOUS" medium "Cross-Bidder / Duplicate / Near-Duplicate Detection"
        "Address sharing suspicious" "Address sharing suspicious"
    ∷ flag "AGGREGATED_REGISTRATION_STATUS_INVALID" high "Registration / Status Checks"
        "Aggregated registration status invalid" "Aggregated registration status invalid"
    ∷ flag "ALTERNATIVE_EVIDENCE_INSUFFICIENT" high "Missing / Completeness Checks"
        "Alternative evidence insufficient" "Alternative evidence insufficient"
    ∷ flag "AUDITABILITY_VERIFICATION_INCOMPLETE" low "Auditability / Evidence Traceability"
        "Auditability verification incomplete" "Auditability verification incomplete"
    ∷ flag "AUDITED_STATUS_MISSING" medium "Financial Capacity" "Audited status missing"
        "Audited status missing"
    ∷ flag "AUDIT_EVIDENCE_MISSING" medium "Financial Capacity" "Audit evidence missing"
        "Audit evidence missing"
    ∷ flag "AUDIT_TRAIL_INCOMPLETE" medium "Auditability / Evidence Traceability"
        "Audit trail incomplete" "Audit trail incomplete"
    ∷ flag "AUTHORIZATION_TERRITORY_MISMATCH" medium "OEM Authorization"
        "Authorization territory mismatch" "Authorization territory mismatch"
    ∷ flag "AUTHORIZATION_TYPE_MISMATCH" medium "OEM Authorization" "Authorization type mismatch"
        "Authorization type mismatch"
    ∷ flag "AUTHORIZED_PRODUCT_RANGE_INSUFFICIENT" high "OEM Authorization"
        "Authorized product range insufficient" "Authorized product range insufficient"
    ∷ flag "BIDDER_BLACKLISTED" critical "Blacklisting / Debarment" "Bidder blacklisted"
        "Bidder blacklisted"
    ∷ flag "BIDDER_DEBARRED" critical "Blacklisting / Debarment" "Bidder debarred" "Bidder debarred"
    ∷ flag "BIDDER_NAME_MISMATCH" high "Bidder Identity" "Bidder name mismatch"
        "Bidder name mismatch"
    ∷ flag "BIDDER_SUSPENDED" critical "Blacklisting / Debarment" "Bidder suspended"
        "Bidder suspended"
    ∷ flag "BIDDER_UNDER_INVESTIGATION" high "Blacklisting / Debarment" "Bidder under investigation"
        "Bidder under investigation"
    ∷ flag "BID_ASSESSMENT_INCOMPLETE" low "Overall Bid-Level Assessment"
        "Bid assessment incomplete" "Bid assessment incomplete"
    ∷ flag "BID_LEVEL_COMPLIANT" info "Overall Bid-Level Assessment" "Bid level compliant"
        "Bid level compliant"
    ∷ flag "BID_LEVEL_MISSING_EVIDENCE" high "Overall Bid-Level Assessment"
        "Bid level missing evidence" "Bid level missing evidence"
    ∷ flag "BID_LEVEL_NON_COMPLIANT" critical "Overall Bid-Level Assessment"
        "Bid level non-compliant" "Bid level non-compliant"
    ∷ []
