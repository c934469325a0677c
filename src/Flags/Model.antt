-- ===== src/Flags/Model.antt =====
-- src/compliance_engine/flags/registry.py: `FlagSeverity` and `FlagDefinition`.
use core_engine_ge_m.Base.{String}

pub data FlagSeverity : Type 0 where
  info low medium high critical : FlagSeverity

pub record FlagDefinition : Type 0 where
  pub flag_id : String
  pub severity : FlagSeverity
  pub capability : String
  pub title : String
  pub description : String

-- `_flag`
abbrev pub flag : String → FlagSeverity → String → String → String → FlagDefinition
flag flag_id severity capability title description = record {
  flag_id = flag_id;
  severity = severity;
  capability = capability;
  title = title;
  description = description;
}
