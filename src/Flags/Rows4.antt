-- ===== src/Flags/Rows4.antt =====
-- src/compliance_engine/flags/registry.py: `_FLAGS`, from CROSS_BIDDER_DOCUMENT_REUSED to DIGITAL_DOCUMENT_REVOKED.
use core_engine_ge_m.Base.{List, [], ◌∷◌}
use core_engine_ge_m.Flags.Model.{FlagDefinition, critical, high, low, medium, flag}

unfoldable pub rows_4 : List FlagDefinition
rows_4 =
    flag "CROSS_BIDDER_DOCUMENT_REUSED" high "Cross-Bidder / Duplicate / Near-Duplicate Detection"
      "Cross-bidder document reused"
      "Identical document content or artifact detected across different bidders."
    ∷ flag "CROSS_DOCUMENT_ADDRESS_CONFLICT" high "Cross-Document Verification"
        "Cross-document address conflict" "Cross-document address conflict"
    ∷ flag "CROSS_DOCUMENT_DATE_SEQUENCE_INVALID" high "Cross-Document Verification"
        "Cross-document date sequence invalid" "Cross-document date sequence invalid"
    ∷ flag "CROSS_DOCUMENT_ENTITY_TYPE_CONFLICT" high "Cross-Document Verification"
        "Cross-document entity type conflict" "Cross-document entity type conflict"
    ∷ flag "CROSS_DOCUMENT_FINANCIAL_YEAR_MISMATCH" medium "Cross-Document Verification"
        "Cross-document financial year mismatch" "Cross-document financial year mismatch"
    ∷ flag "CROSS_DOCUMENT_IDENTIFIER_CONFLICT" critical "Cross-Document Verification"
        "Cross-document identifier conflict" "Cross-document identifier conflict"
    ∷ flag "CROSS_DOCUMENT_IDENTITY_MISMATCH" high "Bidder Identity"
        "Cross-document identity mismatch" "Cross-document identity mismatch"
    ∷ flag "CROSS_DOCUMENT_NAME_CONFLICT" high "Cross-Document Verification"
        "Cross-document name conflict" "Cross-document name conflict"
    ∷ flag "CROSS_DOCUMENT_PRODUCT_MISMATCH" medium "Cross-Document Verification"
        "Cross-document product mismatch" "Cross-document product mismatch"
    ∷ flag "CROSS_DOCUMENT_MANUFACTURER_MISMATCH" medium "Cross-Document Verification"
        "Cross-document manufacturer mismatch" "Cross-document manufacturer mismatch"
    ∷ flag "CROSS_DOCUMENT_TEMPORAL_GAP" medium "Cross-Document Verification"
        "Cross-document temporal gap" "Cross-document temporal gap"
    ∷ flag "CROSS_DOCUMENT_VERIFICATION_INCOMPLETE" low "Cross-Document Verification"
        "Cross-document verification incomplete" "Cross-document verification incomplete"
    ∷ flag "DEBARMENT_CLEARANCE_INVALID" high "Blacklisting / Debarment"
        "Debarment clearance invalid" "Debarment clearance invalid"
    ∷ flag "DEBARMENT_CLEARANCE_MISSING" high "Blacklisting / Debarment"
        "Debarment clearance missing" "Debarment clearance missing"
    ∷ flag "DEBARMENT_VERIFICATION_UNAVAILABLE" medium "Blacklisting / Debarment"
        "Debarment verification unavailable" "Debarment verification unavailable"
    ∷ flag "DIGILOCKER_VERIFICATION_UNAVAILABLE" medium "DigiLocker / Document Verification"
        "DigiLocker verification unavailable" "DigiLocker verification unavailable"
    ∷ flag "DIGITAL_DOCUMENT_EXPIRED" high "DigiLocker / Document Verification"
        "Digital document expired" "Digital document expired"
    ∷ flag "DIGITAL_DOCUMENT_HASH_MISMATCH" high "DigiLocker / Document Verification"
        "Digital document hash mismatch" "Digital document hash mismatch"
    ∷ flag "DIGITAL_DOCUMENT_NOT_FOUND" high "DigiLocker / Document Verification"
        "Digital document not found" "Digital document not found"
    ∷ flag "DIGITAL_DOCUMENT_REVOKED" critical "DigiLocker / Document Verification"
        "Digital document revoked" "Digital document revoked"
    ∷ []
