-- ===== src/Flags/Rows12.antt =====
-- src/compliance_engine/flags/registry.py: `_FLAGS`, from VERIFICATION_PROVIDER_ERROR to VERIFICATION_PROVIDER_UNAVAILABLE.
use core_engine_ge_m.Base.{List, [], ◌∷◌}
use core_engine_ge_m.Flags.Model.{FlagDefinition, medium, flag}

unfoldable pub rows_12 : List FlagDefinition
rows_12 =
    flag "VERIFICATION_PROVIDER_ERROR" medium "Verification Infrastructure Checks"
      "Verification provider error" "Verification provider error"
    ∷ flag "VERIFICATION_PROVIDER_TIMEOUT" medium "Verification Infrastructure Checks"
        "Verification provider timeout" "Verification provider timeout"
    ∷ flag "VERIFICATION_PROVIDER_UNAVAILABLE" medium "Verification Infrastructure Checks"
        "Verification provider unavailable" "Verification provider unavailable"
    ∷ []
