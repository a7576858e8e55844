-- ===== src/Registry.antt =====
-- class ToolRegistry of tool/registry.py (src/ftre_agent_core). A tool is of any type, with its name
-- and the injected parameters that _parse_injections reads from its Python signature; running it is
-- its own code. The values of a call and of the runtime context are JSON values.
pub mod Schema
pub mod Laws
mod Tests
use ftre_agent_core.Prelude.{
  ℕ, String, Option, none, some, Bool, true, false, List, [], ◌∷◌, map, length, ◌==◌, ◌<>◌, is_some,
  if◌then◌else◌,
}
use ftre_agent_core.Json.{Json, null, Fields, end, get, put}
use ftre_agent_core.Handler.{insert, lookup}

-- `dict.pop(key, None)`
unfoldable pub discard : {V : Type 0} → String → List (String × V) → List (String × V)
discard key [] = []
discard key ((k, v) ∷ rest) =
    let rest' = discard key rest in if k == key then rest' else (k, v) ∷ rest'

abbrev pub or_null : Option Json → Json
or_null none = null
or_null (some v) = v

-- The loop over the injected parameters: those that were not given are taken from the context.
unfoldable pub inject : List (String × String) → Fields → Fields → Fields
unfolding get put
inject [] ctx merged = merged
inject ((parameter, key) ∷ rest) ctx merged = inject rest ctx (
    if is_some (get parameter merged) then merged else put parameter (or_null (get key ctx)) merged)

abbrev pub or_empty : Option Fields → Fields
or_empty none = end
or_empty (some d) = d

module _ (Tool : Type 0) (name_of : Tool → String)
    (injections_of : Tool → List (String × String)) where
  pub record ToolRegistry : Type 0 where
    pub tools : List (String × Tool)
    pub inject_map : List (String × List (String × String))

  abbrev pub new_registry : ToolRegistry
  new_registry = record { tools = []; inject_map = [] }

  unfoldable pub register : Tool → ToolRegistry → ToolRegistry
  unfolding insert
  register tool r = record {
    tools = insert (name_of tool) tool r.tools;
    inject_map = insert (name_of tool) (injections_of tool) r.inject_map;
  }

  unfoldable pub unregister : String → ToolRegistry → ToolRegistry
  unfolding discard
  unregister name r = record {
    tools = discard name r.tools;
    inject_map = discard name r.inject_map;
  }

  -- `get`
  unfoldable pub get_tool : String → ToolRegistry → Option Tool
  unfolding lookup
  get_tool name r = lookup name r.tools

  unfoldable pub has_tool : String → ToolRegistry → Bool
  unfolding get_tool
  has_tool name r = is_some (get_tool name r)

  abbrev pub map_of : Option (List (String × String)) → List (String × String)
  map_of none = []
  map_of (some l) = l

  -- _resolve_injections; without a map, or with an empty one, the arguments stay as they are
  unfoldable pub resolve_injections : ToolRegistry → String → Fields → Option Fields → Fields
  unfolding inject lookup
  resolve_injections r name kwargs ctx =
      inject (map_of (lookup name r.inject_map)) (or_empty ctx) kwargs

  -- execute: the error's message, or what the tool does with its arguments
  unfoldable pub execute :
      {R : Type 0}
      → (Tool → Fields → R)
      → (String → R)
      → ToolRegistry
      → String
      → Option Fields
      → Fields
      → R
  unfolding get_tool resolve_injections
  execute run raise r name ctx kwargs = elim (get_tool name r) [
    | none ↦ raise ("Tool '" <> name <> "' not found")
    | some tool ↦ run tool (resolve_injections r name kwargs ctx)
  ]

  unfoldable pub snapshot : ToolRegistry → List Tool
  snapshot r = map (λ (e : String × Tool). e.1) r.tools

  unfoldable pub names : ToolRegistry → List String
  names r = map (λ (e : String × Tool). e.0) r.tools

  -- What is done to a registry.
  pub data Change : Type 0 where
    add : Tool → Change
    drop : String → Change

  unfoldable pub changed : ToolRegistry → List Change → ToolRegistry
  unfolding register unregister
  changed r [] = r
  changed r (add tool ∷ cs) = changed (register tool r) cs
  changed r (drop name ∷ cs) = changed (unregister name r) cs
