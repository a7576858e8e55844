-- ===== src/Normalize.antt =====
-- llm/wire/normalize.py (src/ftre_agent_core): provider messages, which are dicts, before a request.
-- A `tool_calls` that is true and no list is taken as a list of one item that is no dict, and a
-- message whose `role` is no text as one with an empty role.
pub mod Shape
pub mod Steps
pub mod Answers
pub mod Protocol
pub mod Kept
pub mod Stable
pub mod Usage
mod Tests
use ftre_agent_core.Prelude.{
  ℕ, zero, suc, String, Option, none, some, Bool, true, false, not, ◌&&◌, ◌||◌, List, [], ◌∷◌, ◌++◌,
  length, all, is_some, ◌==◌, eqb, if◌then◌else◌,
}
use ftre_agent_core.Json.{
  Json, null, str, arr, nil, obj, Fields, get, put, remove, list_of, truthy, truthy?,
}
use ftre_agent_core.Convert.{text_or}
use ftre_agent_core.Runner.Decide.{is_blank}

abbrev pub role_of : Fields → String
role_of m = text_or "" "role" m

-- `is_empty` of normalize_assistant_content
unfoldable pub is_empty_content : Option Json → Bool
is_empty_content none = true
is_empty_content (some null) = true
is_empty_content (some (arr nil)) = true
is_empty_content (some (str s)) = is_blank s
is_empty_content (some _) = false

unfoldable pub normalize_content : Fields → Fields
normalize_content m = if is_empty_content (get "content" m) then put "content" (str "") m else m

unfoldable pub has_payload : Bool → Fields → Bool
has_payload preserve m =
    truthy? (get "content" m) || (preserve && truthy? (get "reasoning_content" m))

-- `current.get("tool_calls") or []`
unfoldable pub call_list : Option Json → List Json
call_list none = []
call_list (some (arr items)) = list_of items
call_list (some v) = if truthy v then null ∷ [] else []

-- The texts under a key of each item; none if an item is no dict, or has no such text or an empty one.
text_under : String → Json → Option String
text_under key (obj d) = elim (get key d) [
  | some (str s) ↦ if s == "" then none else some s
  | _ ↦ none
]
text_under key _ = none

unfoldable pub texts_under : String → List Json → Option (List String)
unfolding text_under
texts_under key [] = some []
texts_under key (v ∷ vs) = elim (text_under key v) [
  | none ↦ none
  | some s ↦ elim (texts_under key vs) [ none ↦ none | some ss ↦ some (s ∷ ss) ]
]

unfoldable pub holds : String → List String → Bool
holds s [] = false
holds s (t ∷ ts) = t == s || holds s ts

-- `len(set(ids)) == len(ids)`
unfoldable pub is_distinct : List String → Bool
is_distinct [] = true
is_distinct (s ∷ ss) = not (holds s ss) && is_distinct ss

-- The messages of role "tool" at the front.
unfoldable pub following : List Fields → List Fields
following [] = []
following (m ∷ ms) = let rest = following ms in if role_of m == "tool" then m ∷ rest else []

abbrev pub as_json : List Fields → List Json
as_json [] = []
as_json (m ∷ ms) = obj m ∷ as_json ms

-- `set(a) <= set(b)`
abbrev pub is_within : List String → List String → Bool
is_within ss ts = all (λ s. holds s ts) ss

-- `complete_pair`, of the two lists of ids
unfoldable pub ids_match : List String → List String → Bool
ids_match call_ids result_ids =
    is_distinct call_ids
    && eqb (length result_ids) (length call_ids)
    && is_within result_ids call_ids
    && is_within call_ids result_ids

unfoldable pub is_complete : List Json → List Fields → Bool
is_complete calls results = elim (texts_under "id" calls) [
  | none ↦ false
  | some call_ids ↦ elim (texts_under "tool_call_id" (as_json results)) [
    | none ↦ false
    | some result_ids ↦ ids_match call_ids result_ids
  ]
]

module _ (preserve : Bool) where
  -- `if has_assistant_payload(current): normalized.append(current)`
  abbrev pub if_payload : Fields → List Fields → List Fields
  if_payload m rest = if has_payload preserve m then m ∷ rest else rest

  -- The `while` loop from an index on; the next `skip` messages have been taken already.
  unfoldable pub normalize_from : ℕ → List Fields → List Fields
  normalize_from skip [] = []
  normalize_from (suc skip) (m ∷ ms) = normalize_from skip ms
  normalize_from zero (m ∷ ms) = elim (role_of m == "tool") [
    | true ↦ normalize_from zero ms
    | false ↦ elim (role_of m == "assistant") [
      | false ↦ m ∷ normalize_from zero ms
      | true ↦
          let current = normalize_content m in
          elim (call_list (get "tool_calls" current)) [
            | [] ↦ if_payload current (normalize_from zero ms)
            | call ∷ calls ↦ elim (is_complete (call ∷ calls) (following ms)) [
              | true ↦ current ∷ (following ms ++ normalize_from (length (following ms)) ms)
              | false ↦ if_payload (remove "tool_calls" current) (normalize_from zero ms)
            ]
          ]
    ]
  ]

  -- _normalize_chat_messages
  unfoldable pub normalize_messages : List Fields → List Fields
  normalize_messages ms = normalize_from zero ms

unfoldable pub add_alias : String → String → Fields → Fields
add_alias canonical responses_field d =
    if is_some (get canonical d)
    then d
    else elim (get responses_field d) [ none ↦ d | some v ↦ put canonical v d ]

-- normalize_usage, of a usage that is there, as a dict
unfoldable pub normalize_usage : Fields → Fields
unfolding add_alias
normalize_usage d =
    add_alias "completion_tokens" "output_tokens" (add_alias "prompt_tokens" "input_tokens" d)
