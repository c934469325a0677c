-- ===== src/Flags/Rows2.antt =====
-- src/compliance_engine/flags/registry.py: `_FLAGS`, from BID_LEVEL_PARTIAL_COMPLIANCE to CA_UDIN_NOT_FOUND.
use core_engine_ge_m.Base.{List, [], ◌∷◌}
use core_engine_ge_m.Flags.Model.{FlagDefinition, critical, high, medium, flag}

unfoldable pub rows_2 : List FlagDefinition
rows_2 =
    flag "BID_LEVEL_PARTIAL_COMPLIANCE" medium "Overall Bid-Level Assessment"
      "Bid level partial compliance" "Bid level partial compliance"
    ∷ flag "BID_LEVEL_UNVERIFIABLE" medium "Overall Bid-Level Assessment" "Bid level unverifiable"
        "Bid level unverifiable"
    ∷ flag "BIS_CERTIFICATE_EXPIRED" high "BIS / Product Certification" "BIS certificate expired"
        "BIS certificate expired"
    ∷ flag "BIS_CERTIFICATE_INVALID" high "BIS / Product Certification" "BIS certificate invalid"
        "BIS certificate invalid"
    ∷ flag "BIS_CERTIFICATE_NOT_FOUND" high "BIS / Product Certification"
        "BIS certificate not found" "BIS certificate not found"
    ∷ flag "BIS_CERTIFICATE_SUSPENDED_REVOKED" critical "BIS / Product Certification"
        "BIS certificate suspended or revoked" "BIS certificate suspended or revoked"
    ∷ flag "BALANCE_SHEET_INCOMPLETE" medium "Financial Capacity" "Balance sheet incomplete"
        "Balance sheet incomplete"
    ∷ flag "BIS_FACILITY_LOCATION_INELIGIBLE" high "BIS / Product Certification"
        "BIS facility location ineligible" "BIS facility location ineligible"
    ∷ flag "BIS_PRODUCT_SCOPE_MISMATCH" high "BIS / Product Certification"
        "BIS product scope mismatch" "BIS product scope mismatch"
    ∷ flag "BIS_QUALITY_GRADE_BELOW_REQUIREMENT" high "BIS / Product Certification"
        "BIS quality grade below requirement" "BIS quality grade below requirement"
    ∷ flag "BIS_VERIFICATION_UNAVAILABLE" medium "BIS / Product Certification"
        "BIS verification unavailable" "BIS verification unavailable"
    ∷ flag "BLACKLIST_STATUS_UNKNOWN" medium "Blacklisting / Debarment" "Blacklist status unknown"
        "Blacklist status unknown"
    ∷ flag "BUSINESS_TYPE_INELIGIBLE" high "MCA21" "Business type ineligible"
        "Business type ineligible"
    ∷ flag "CAPABILITY_NOT_APPLICABLE_UNCLEAR" medium "Missing / Completeness Checks"
        "Capability applicability unclear" "Capability applicability unclear"
    ∷ flag "CA_IDENTITY_MISMATCH" high "CA / UDIN" "CA identity mismatch" "CA identity mismatch"
    ∷ flag "CA_NOT_REGISTERED" high "CA / UDIN" "CA not registered" "CA not registered"
    ∷ flag "CA_PROFESSIONAL_STATUS_INVALID" high "CA / UDIN" "CA professional status invalid"
        "CA professional status invalid"
    ∷ flag "CA_UDIN_EXPIRED" high "CA / UDIN" "CA UDIN expired" "CA UDIN expired"
    ∷ flag "CA_UDIN_INVALID" high "CA / UDIN" "CA UDIN invalid" "CA UDIN invalid"
    ∷ flag "CA_UDIN_NOT_FOUND" high "CA / UDIN" "CA UDIN not found" "CA UDIN not found"
    ∷ []
