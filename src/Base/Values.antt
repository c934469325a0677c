-- ===== src/Base/Values.antt =====
-- The values that the source types as `Any`: what `json` reads and writes. A number is kept as it
-- is spelled, since the modelled code never computes with one.
use Prim.Native.String.{String}
use mathlib.Core.Bool.{Bool}

mutual
  pub data Json : Type 0 where
    null : Json
    bool : Bool → Json
    number : String → Json
    text : String → Json
    array : JsonItems → Json
    object : JsonFields → Json

  pub data JsonItems : Type 0 where
    nil : JsonItems
    cons : Json → JsonItems → JsonItems

  pub data JsonFields : Type 0 where
    end : JsonFields
    field : String → Json → JsonFields → JsonFields

-- A `float` that the modelled code only stores, as it is spelled.
abbrev pub Float : Type 0
Float = String
