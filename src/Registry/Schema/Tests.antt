-- ===== src/Registry/Schema/Tests.antt =====
-- The schema of one tool (src/ftre_agent_core/tool/base.py).
use ftre_agent_core.Prelude.{◌≡◌, refl, true, false, List, [], ◌∷◌}
use ftre_agent_core.Json.{str, arr, obj, end, field, nil, cons}
use ftre_agent_core.Registry.Schema.{ToolParameter, to_openai_dict}
use ftre_agent_core.Registry.Schema.Laws.{IsSchema, to_openai_dict-IsSchema}

abbrev path_and_mode : List ToolParameter
path_and_mode =
    record { name = "path"; type = "string"; description = "a path"; required = true; enum = [] }
    ∷ record {
      name = "mode";
      type = "string";
      description = "a mode";
      required = false;
      enum = str "r" ∷ str "w" ∷ [];
    }
    ∷ []

read_definition :
    to_openai_dict "read" "Reads." path_and_mode
    ≡ field "type" (str "function") (
        field "function"
          (obj (
            field "name" (str "read") (
              field "description" (str "Reads.") (
                field "parameters"
                  (obj (
                    field "type" (str "object") (
                      field "properties"
                        (obj (
                          field "path"
                            (obj (
                              field "type" (str "string") (field "description" (str "a path") end)))
                            (field "mode"
                              (obj (
                                field "type" (str "string") (
                                  field "description" (str "a mode") (
                                    field "enum" (arr (cons (str "r") (cons (str "w") nil))) end))))
                              end)))
                        (field "required" (arr (cons (str "path") nil)) end))))
                  end))))
          end)
unfolding to_openai_dict
read_definition = refl

to_openai_dict-IsSchema_example :
    IsSchema "read" "Reads." path_and_mode (to_openai_dict "read" "Reads." path_and_mode)
to_openai_dict-IsSchema_example = to_openai_dict-IsSchema "read" "Reads." path_and_mode
