-- ===== src/Flags/Rows8.antt =====
-- src/compliance_engine/flags/registry.py: `_FLAGS`, from MANDATORY_CAPABILITY_MISSING to PAN_IDENTITY_MISMATCH.
use core_engine_ge_m.Base.{List, [], ◌∷◌}
use core_engine_ge_m.Flags.Model.{FlagDefinition, high, low, medium, flag}

unfoldable pub rows_8 : List FlagDefinition
rows_8 =
    flag "MANDATORY_CAPABILITY_MISSING" high "Tender Applicability / Exemption Checks"
      "Mandatory capability missing" "Mandatory capability missing"
    ∷ flag "MANUFACTURING_LOCATION_INELIGIBLE" high "Make in India / Local Content"
        "Manufacturing location ineligible" "Manufacturing location ineligible"
    ∷ flag "MCA_VERIFICATION_UNAVAILABLE" medium "MCA21" "MCA verification unavailable"
        "MCA verification unavailable"
    ∷ flag "MISSING_REASON_NOT_SPECIFIED" low "Missing / Completeness Checks"
        "Missing reason not specified" "Missing reason not specified"
    ∷ flag "MULTIPLE_INACTIVE_REGISTRATIONS" high "Registration / Status Checks"
        "Multiple inactive registrations" "Multiple inactive registrations"
    ∷ flag "NEAR_DUPLICATE_BIDDER_DETECTED" high
        "Cross-Bidder / Duplicate / Near-Duplicate Detection" "Near-duplicate bidder detected"
        "Near-duplicate bidder detected"
    ∷ flag "NET_WORTH_BELOW_THRESHOLD" high "Financial Capacity" "Net worth below threshold"
        "Net worth below threshold"
    ∷ flag "NSIC_ENTITY_IDENTITY_MISMATCH" high "NSIC" "NSIC entity identity mismatch"
        "NSIC entity identity mismatch"
    ∷ flag "NSIC_REGISTRATION_EXPIRED" high "NSIC" "NSIC registration expired"
        "NSIC registration expired"
    ∷ flag "NSIC_REGISTRATION_INVALID" high "NSIC" "NSIC registration invalid"
        "NSIC registration invalid"
    ∷ flag "NSIC_REGISTRATION_NOT_FOUND" high "NSIC" "NSIC registration not found"
        "NSIC registration not found"
    ∷ flag "NSIC_REGISTRATION_TYPE_MISMATCH" medium "NSIC" "NSIC registration type mismatch"
        "NSIC registration type mismatch"
    ∷ flag "NSIC_VERIFICATION_UNAVAILABLE" medium "NSIC" "NSIC verification unavailable"
        "NSIC verification unavailable"
    ∷ flag "OCR_CONFIDENCE_BELOW_THRESHOLD" medium "Evidence Quality Checks"
        "OCR confidence below threshold" "OCR confidence below threshold"
    ∷ flag "OEM_AUTHORIZATION_EXPIRED" high "OEM Authorization" "OEM authorization expired"
        "OEM authorization expired"
    ∷ flag "OEM_AUTHORIZATION_INVALID" high "OEM Authorization" "OEM authorization invalid"
        "OEM authorization invalid"
    ∷ flag "OEM_AUTHORIZATION_NOT_PROVIDED" high "OEM Authorization"
        "OEM authorization not provided" "OEM authorization not provided"
    ∷ flag "OEM_NAME_MISMATCH" high "OEM Authorization" "OEM name mismatch" "OEM name mismatch"
    ∷ flag "OEM_VERIFICATION_UNAVAILABLE" medium "OEM Authorization" "OEM verification unavailable"
        "OEM verification unavailable"
    ∷ flag "PAN_IDENTITY_MISMATCH" high "PAN / Income Tax" "PAN identity mismatch"
        "PAN identity mismatch"
    ∷ []
