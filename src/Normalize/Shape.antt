-- ===== src/Normalize/Shape.antt =====
-- The shape of the messages that src/ftre_agent_core/llm/wire/normalize.py hands on.
use ftre_agent_core.Prelude.{
  String, ◌≡◌, some, Bool, true, false, List, [], ◌∷◌, ◌++◌, length, ◌==◌, All, Memᴰ,
}
use ftre_agent_core.Json.{Json, str, Fields, get}
use ftre_agent_core.Normalize.{
  role_of, is_empty_content, has_payload, call_list, texts_under, is_distinct, as_json,
}

abbrev pub IsOf : String → Fields → Type 0
IsOf role m = role_of m ≡ role

-- The content is there, and an empty one is the empty text.
pub record HasContent (m : Fields) : Type 0 where
  pub content : Json
  pub is_there : get "content" m ≡ some content
  pub if_empty : is_empty_content (some content) ≡ true → content ≡ str ""

-- The results answer the calls: each call has an id of its own, and the ids of the results are those
-- of the calls, each once, in any order.
pub record IsAnswered (calls : List Json) (results : List Fields) : Type 0 where
  pub call_ids : List String
  pub result_ids : List String
  pub of_calls : texts_under "id" calls ≡ some call_ids
  pub of_results : texts_under "tool_call_id" (as_json results) ≡ some result_ids
  pub distinct : is_distinct call_ids ≡ true
  pub as_many : length result_ids ≡ length call_ids
  pub only_calls : All (λ id. Memᴰ id call_ids) result_ids
  pub every_call : All (λ id. Memᴰ id result_ids) call_ids

-- A message of the assistant without tool calls.
pub record IsPlain (preserve : Bool) (m : Fields) : Type 0 where
  pub of_assistant : IsOf "assistant" m
  pub has_content : HasContent m
  pub no_calls : call_list (get "tool_calls" m) ≡ []
  pub payload : has_payload preserve m ≡ true

-- A message of the assistant with tool calls, and the results after it.
pub record IsPair (m : Fields) (results : List Fields) : Type 0 where
  pub of_assistant : IsOf "assistant" m
  pub has_content : HasContent m
  pub call : Json
  pub calls : List Json
  pub has_calls : call_list (get "tool_calls" m) ≡ call ∷ calls
  pub of_tool : All (IsOf "tool") results
  pub answered : IsAnswered (call ∷ calls) results

pub data IsNormal (preserve : Bool) : List Fields → Type 0 where
  nil : IsNormal preserve []
  other :
      {m : Fields} {ms : List Fields}
      → (role_of m == "tool") ≡ false
      → (role_of m == "assistant") ≡ false
      → IsNormal preserve ms
      → IsNormal preserve (m ∷ ms)
  plain :
      {m : Fields} {ms : List Fields}
      → IsPlain preserve m
      → IsNormal preserve ms
      → IsNormal preserve (m ∷ ms)
  pair :
      {m : Fields} {results ms : List Fields}
      → IsPair m results
      → IsNormal preserve ms
      → IsNormal preserve (m ∷ (results ++ ms))
