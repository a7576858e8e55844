-- ===== src/Registry/Schema.antt =====
-- Tool.to_openai_dict of tool/base.py (src/ftre_agent_core): a tool's definition for a provider. An
-- `enum` that is None or empty is the empty list here, since the code tells them apart nowhere.
pub mod Laws
mod Tests
use ftre_agent_core.Prelude.{String, Bool, true, false, List, [], ◌∷◌, map, if◌then◌else◌}
use ftre_agent_core.Json.{Json, str, arr, obj, Fields, end, field, put, items_of}

pub record ToolParameter : Type 0 where
  pub name : String
  pub type : String
  pub description : String
  pub required : Bool
  pub enum : List Json

abbrev pub with_enum : List Json → Fields → Fields
with_enum [] d = d
with_enum (v ∷ vs) d = put "enum" (arr (items_of (v ∷ vs))) d

-- `prop`
abbrev pub property_of : ToolParameter → Fields
property_of p =
    with_enum p.enum (field "type" (str p.type) (field "description" (str p.description) end))

-- The loop: the dict of the properties, and the list of the required names.
unfoldable pub add_properties : List ToolParameter → Fields → Fields
unfolding put
add_properties [] d = d
add_properties (p ∷ ps) d = add_properties ps (put p.name (obj (property_of p)) d)

unfoldable pub required_names : List ToolParameter → List String
required_names [] = []
required_names (p ∷ ps) = let rest = required_names ps in if p.required then p.name ∷ rest else rest

abbrev pub schema_of : List ToolParameter → Fields
schema_of ps = field "type" (str "object") (
    field "properties" (obj (add_properties ps end))
      (field "required" (arr (items_of (map str (required_names ps)))) end))

unfoldable pub to_openai_dict : String → String → List ToolParameter → Fields
unfolding add_properties required_names items_of
to_openai_dict name description ps = field "type" (str "function") (
    field "function"
      (obj (
        field "name" (str name)
          (field "description" (str description) (field "parameters" (obj (schema_of ps)) end))))
      end)
