-- ===== src/Rules/Registered.antt =====
-- The flags that the rules name stand in the registry, so that looking them up raises nothing.
use core_engine_ge_m.Base.{◌≡◌, refl, String, some, List, [], ◌∷◌, lookup, insert, string_eq, ok}
use core_engine_ge_m.Flags.{flags, registry_from, get_flag_definition}
use core_engine_ge_m.Rules.Calls.{checked_flag, checked_flags}

pub gst_return_compliance_issue_registered :
    checked_flag "GST_RETURN_COMPLIANCE_ISSUE" ≡ ok "GST_RETURN_COMPLIANCE_ISSUE"
unfolding checked_flag get_flag_definition lookup insert registry_from flags
gst_return_compliance_issue_registered = refl

pub gst_verification_unavailable_registered :
    checked_flag "GST_VERIFICATION_UNAVAILABLE" ≡ ok "GST_VERIFICATION_UNAVAILABLE"
unfolding checked_flag get_flag_definition lookup insert registry_from flags
gst_verification_unavailable_registered = refl

pub gst_return_evidence_missing_registered :
    checked_flag "GST_RETURN_EVIDENCE_MISSING" ≡ ok "GST_RETURN_EVIDENCE_MISSING"
unfolding checked_flag get_flag_definition lookup insert registry_from flags
gst_return_evidence_missing_registered = refl

pub required_field_missing_registered :
    checked_flag "REQUIRED_FIELD_MISSING" ≡ ok "REQUIRED_FIELD_MISSING"
unfolding checked_flag get_flag_definition lookup insert registry_from flags
required_field_missing_registered = refl

pub pan_inactive_registered : checked_flag "PAN_INACTIVE" ≡ ok "PAN_INACTIVE"
unfolding checked_flag get_flag_definition lookup insert registry_from flags
pan_inactive_registered = refl

pub pan_invalid_registered : checked_flag "PAN_INVALID" ≡ ok "PAN_INVALID"
unfolding checked_flag get_flag_definition lookup insert registry_from flags
pan_invalid_registered = refl

pub pan_not_found_registered : checked_flag "PAN_NOT_FOUND" ≡ ok "PAN_NOT_FOUND"
unfolding checked_flag get_flag_definition lookup insert registry_from flags
pan_not_found_registered = refl

pub pan_verification_unavailable_registered :
    checked_flag "PAN_VERIFICATION_UNAVAILABLE" ≡ ok "PAN_VERIFICATION_UNAVAILABLE"
unfolding checked_flag get_flag_definition lookup insert registry_from flags
pan_verification_unavailable_registered = refl

pub udyam_inactive_registered : checked_flag "UDYAM_INACTIVE" ≡ ok "UDYAM_INACTIVE"
unfolding checked_flag get_flag_definition lookup insert registry_from flags
udyam_inactive_registered = refl

pub udyam_invalid_registered : checked_flag "UDYAM_INVALID" ≡ ok "UDYAM_INVALID"
unfolding checked_flag get_flag_definition lookup insert registry_from flags
udyam_invalid_registered = refl

pub udyam_not_found_registered : checked_flag "UDYAM_NOT_FOUND" ≡ ok "UDYAM_NOT_FOUND"
unfolding checked_flag get_flag_definition lookup insert registry_from flags
udyam_not_found_registered = refl

pub udyam_verification_unavailable_registered :
    checked_flag "UDYAM_VERIFICATION_UNAVAILABLE" ≡ ok "UDYAM_VERIFICATION_UNAVAILABLE"
unfolding checked_flag get_flag_definition lookup insert registry_from flags
udyam_verification_unavailable_registered = refl

pub company_inactive_registered : checked_flag "COMPANY_INACTIVE" ≡ ok "COMPANY_INACTIVE"
unfolding checked_flag get_flag_definition lookup insert registry_from flags
company_inactive_registered = refl

pub cin_invalid_registered : checked_flag "CIN_INVALID" ≡ ok "CIN_INVALID"
unfolding checked_flag get_flag_definition lookup insert registry_from flags
cin_invalid_registered = refl

pub cin_not_found_registered : checked_flag "CIN_NOT_FOUND" ≡ ok "CIN_NOT_FOUND"
unfolding checked_flag get_flag_definition lookup insert registry_from flags
cin_not_found_registered = refl

pub mca_verification_unavailable_registered :
    checked_flag "MCA_VERIFICATION_UNAVAILABLE" ≡ ok "MCA_VERIFICATION_UNAVAILABLE"
unfolding checked_flag get_flag_definition lookup insert registry_from flags
mca_verification_unavailable_registered = refl

pub company_strike_off_registered : checked_flag "COMPANY_STRIKE_OFF" ≡ ok "COMPANY_STRIKE_OFF"
unfolding checked_flag get_flag_definition lookup insert registry_from flags
company_strike_off_registered = refl

pub company_under_liquidation_registered :
    checked_flag "COMPANY_UNDER_LIQUIDATION" ≡ ok "COMPANY_UNDER_LIQUIDATION"
unfolding checked_flag get_flag_definition lookup insert registry_from flags
company_under_liquidation_registered = refl

-- A flag that is registered is the one flag of the result.
pub one_flag :
    (flag_id : String)
    → checked_flag flag_id ≡ ok flag_id
    → (flags : List String) × (checked_flags (some flag_id) ≡ ok flags)
one_flag flag_id h = (flag_id ∷ [], rw h refl)
