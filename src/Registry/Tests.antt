-- ===== src/Registry/Tests.antt =====
-- A registry of two tools (src/ftre_agent_core/tool/registry.py).
use ftre_agent_core.Prelude.{String, ◌≡◌, refl, Option, none, some, List, [], ◌∷◌}
use ftre_agent_core.Json.{str, Fields, end, field, get}
use ftre_agent_core.Handler.{lookup}
use ftre_agent_core.Registry.{
  ToolRegistry, new_registry, or_empty, map_of, resolve_injections, execute, Change, add, drop,
  changed,
}
use ftre_agent_core.Registry.Laws.{
  last_of, answer, injected, execute-changed, get-resolve_injections,
}

abbrev injections : String → List (String × String)
injections name = ("session", "session_id") ∷ []

abbrev name : String → String
name s = s

abbrev run : String → Fields → Option Fields
run s d = some d

abbrev raise : String → Option Fields
raise s = none

abbrev changes : List (Change String name injections)
changes = add "read" ∷ add "write" ∷ drop "write" ∷ []

abbrev registry : ToolRegistry String name injections
registry = changed String name injections (new_registry String name injections) changes

abbrev context : Option Fields
context = some (field "session_id" (str "s1") end)

read_runs :
    execute String name injections run raise registry "read" context end
    ≡ some (field "session" (str "s1") end)
unfolding execute changed
read_runs = refl

execute-changed_example :
    execute String name injections run raise registry "write" context end
    ≡ answer String name injections run raise "write" context end
        (last_of String name injections "write" none changes)
execute-changed_example =
    execute-changed String name injections run raise "write" changes context end

get-resolve_injections_example :
    get "session" (
      resolve_injections String name injections registry "read"
        (field "session" (str "mine") end)
        context)
    ≡ injected
        (get "session" (field "session" (str "mine") end))
        (lookup "session" (map_of String name injections (lookup "read" registry.inject_map)))
        (or_empty context)
get-resolve_injections_example =
    get-resolve_injections String name injections registry "read" "session"
      (field "session" (str "mine") end) context
