-- ===== src/Normalize/Tests.antt =====
-- Runs of src/ftre_agent_core/llm/wire/normalize.py, and the theorems on them.
use ftre_agent_core.Prelude.{all, String, ◌≡◌, refl, subst, ◌==◌, false, List, [], ◌∷◌}
use ftre_agent_core.Json.{
  Json, null, get, number, str, arr, nil, cons, obj, Fields, end, field, put, remove, list_of,
}
use ftre_agent_core.Normalize.{
  normalize_usage, normalize_messages, normalize_from, call_list, normalize_content,
  is_empty_content, is_complete, texts_under, following, ids_match, is_distinct, holds, has_payload,
}
use ftre_agent_core.Convert.{text_or}
use ftre_agent_core.Runner.Decide.{is_blank}
use ftre_agent_core.Normalize.Shape.{IsNormal}
use ftre_agent_core.Normalize.Protocol.{normalize_messages-IsNormal}
use ftre_agent_core.Normalize.Stable.{normalize_messages-same}
use ftre_agent_core.Normalize.Usage.{or_else, get-normalize_usage}
use ftre_agent_core.Normalize.Kept.{all_shown, all_shown-normalize_messages}

abbrev asked : Fields
asked = field "role" (str "user") (field "content" (str "look it up") end)

abbrev calling : String → Json → Fields
calling id content = field "role" (str "assistant") (
    field "content" content
      (field "tool_calls" (arr (cons (obj (field "id" (str id) end)) nil)) end))

abbrev result_of : String → Fields
result_of id =
    field "role" (str "tool") (field "tool_call_id" (str id) (field "content" (str "found") end))

abbrev history : List Fields
history =
    result_of "b"
    ∷ asked
    ∷ calling "a" null
    ∷ result_of "a"
    ∷ calling "c" (str "one more")
    ∷ asked
    ∷ result_of "c"
    ∷ calling "d" null
    ∷ []

abbrev sent : List Fields
sent =
    asked
    ∷ calling "a" (str "")
    ∷ result_of "a"
    ∷ field "role" (str "assistant") (field "content" (str "one more") end)
    ∷ asked
    ∷ []

history-sent : normalize_messages false history ≡ sent
unfolding normalize_messages normalize_from text_or call_list normalize_content is_empty_content put
    list_of is_complete texts_under following ids_match is_distinct holds has_payload remove
    is_blank all
history-sent = refl

normalize_messages-IsNormal_example : IsNormal false (normalize_messages false history)
normalize_messages-IsNormal_example = normalize_messages-IsNormal false history

all_shown-normalize_messages_example :
    all_shown (normalize_messages false history) ≡ all_shown history
all_shown-normalize_messages_example = all_shown-normalize_messages false history

normalize_messages-same_example : normalize_messages false sent ≡ sent
normalize_messages-same_example =
    normalize_messages-same false sent
      (subst (IsNormal false) history-sent (normalize_messages-IsNormal false history))

abbrev measured : Fields
measured = field "input_tokens" (number "7") (field "output_tokens" (number "2") end)

get-normalize_usage_example :
    (get "prompt_tokens" (normalize_usage measured)
      ≡ or_else (get "prompt_tokens" measured) (get "input_tokens" measured))
    × (get "completion_tokens" (normalize_usage measured)
        ≡ or_else (get "completion_tokens" measured) (get "output_tokens" measured))
    × ((key : String)
        → ("prompt_tokens" == key) ≡ false
        → ("completion_tokens" == key) ≡ false
        → get key (normalize_usage measured) ≡ get key measured)
get-normalize_usage_example = get-normalize_usage measured
