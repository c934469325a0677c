-- ===== src/Flags/Tests.antt =====
-- The registry at an ID of the table.
use core_engine_ge_m.Base.{Among, ◌≡◌, ◌↔◌, ok}
use core_engine_ge_m.Flags.Model.{FlagDefinition, high, flag}
use core_engine_ge_m.Flags.{flags, get_flag_definition}
use core_engine_ge_m.Flags.Listed.{get_flag_definition_iff}

abbrev pan_invalid : FlagDefinition
pan_invalid = flag "PAN_INVALID" high "PAN / Income Tax" "PAN invalid" "PAN invalid"

get_flag_definition_iff_example :
    (get_flag_definition "PAN_INVALID" ≡ ok pan_invalid)
    ↔ (Among pan_invalid flags × (pan_invalid.flag_id ≡ "PAN_INVALID"))
get_flag_definition_iff_example = get_flag_definition_iff "PAN_INVALID" pan_invalid
