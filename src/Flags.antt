-- ===== src/Flags.antt =====
-- src/compliance_engine/flags/registry.py: the registry, and how a flag is looked up. The rows of the
-- table stand in the children.
pub mod Model
mod Rows1
mod Rows2
mod Rows3
mod Rows4
mod Rows5
mod Rows6
mod Rows7
mod Rows8
mod Rows9
mod Rows10
mod Rows11
mod Rows12
pub mod Listed
mod Tests
use Rows1.{rows_1}
use Rows2.{rows_2}
use Rows3.{rows_3}
use Rows4.{rows_4}
use Rows5.{rows_5}
use Rows6.{rows_6}
use Rows7.{rows_7}
use Rows8.{rows_8}
use Rows9.{rows_9}
use Rows10.{rows_10}
use Rows11.{rows_11}
use Rows12.{rows_12}
use core_engine_ge_m.Base.{
  String, string_eq, Option, none, some, List, [], ◌∷◌, ◌++◌, Map, lookup, insert, Outcome, ok,
  raised,
}
use core_engine_ge_m.Flags.Model.{FlagDefinition}

-- `UnknownFlagError`
pub data FlagError : Type 0 where
  unknown_flag : String → FlagError

-- `_FLAGS`
unfoldable pub flags : List FlagDefinition
unfolding rows_1 rows_2 rows_3 rows_4 rows_5 rows_6 rows_7 rows_8 rows_9 rows_10 rows_11 rows_12
flags =
    rows_1
    ++ (rows_2
        ++ (rows_3
            ++ (rows_4
                ++ (rows_5
                    ++ (rows_6
                        ++ (rows_7
                            ++ (rows_8 ++ (rows_9 ++ (rows_10 ++ (rows_11 ++ rows_12))))))))))

-- `{item.flag_id: item for item in _FLAGS}`, on top of the items so far: a later row with the same ID
-- would replace an earlier one.
unfoldable pub registry_from :
    List FlagDefinition → Map String FlagDefinition → Map String FlagDefinition
registry_from [] registry = registry
registry_from (item ∷ items) registry = registry_from items (insert item.flag_id item registry)

-- `FLAG_REGISTRY`
unfoldable pub flag_registry : Map String FlagDefinition
flag_registry = registry_from flags []

abbrev pub or_unknown : String → Option FlagDefinition → Outcome FlagError FlagDefinition
or_unknown flag_id none = raised (unknown_flag flag_id)
or_unknown flag_id (some definition) = ok definition

unfoldable pub get_flag_definition : String → Outcome FlagError FlagDefinition
unfolding flag_registry
get_flag_definition flag_id = or_unknown flag_id (lookup flag_id flag_registry)
