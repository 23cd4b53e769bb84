-- ===== src/Contract/Models/Values.antt =====
-- The values of a free-form mapping, `dict[str, Any]`, as JSON has them.
use strategy_adapter.Prelude.{
  String, Bool, Option, none, some, List, [], ◌∷◌, string_eq, ◌==◌, if◌then◌else◌,
}
use strategy_adapter.Decimal.{Decimal}

mutual
  pub data Json : Type 0 where
    null : Json
    boolean : Bool → Json
    number : Decimal → Json
    text : String → Json
    array : JsonItems → Json
    object : JsonFields → Json

  pub data JsonItems : Type 0 where
    nil : JsonItems
    cons : Json → JsonItems → JsonItems

  pub data JsonFields : Type 0 where
    end : JsonFields
    field : String → Json → JsonFields → JsonFields

abbrev pub Fields : Type 0
Fields = List (String × Json)

-- `mapping.get(key)` of an association list
abbrev pub lookup {ℓ} : {V : Type ℓ} → String → List (String × V) → Option V
lookup k [] = none
lookup k ((j, v) ∷ l) = if j == k then some v else lookup k l
