-- ===== src/Context/Export.antt =====
-- _msg_to_dicts of message_context.py (src/ftre_agent_core): a message as provider messages.
use ftre_agent_core.Prelude.{
  String, Option, none, some, not, ◌&&◌, List, [], ◌∷◌, ◌++◌, if◌then◌else◌,
}
use ftre_agent_core.Json.{
  Json, str, arr, cons, Fields, end, field, get, put, list_of, truthy, truthy?,
}
use ftre_agent_core.Message.{
  DataBlock, Output, plain, parts, ContentBlock, text, thinking, binary, hint, tool_call,
  tool_result, Role, user, assistant, system, Msg,
}
use ftre_agent_core.Convert.{Codec}
use ftre_agent_core.Convert.Export.{to_openai_message}
use ftre_agent_core.Message.Blocks.{dicts_of}

abbrev pub role_text : Role → String
role_text user = "user"
role_text assistant = "assistant"
role_text system = "system"

-- What is left to hand out: the reasoning of the metadata until the first flush, and the groups of
-- output items.
pub record Extras : Type 0 where
  pub reasoning : Option Json
  pub groups : List Json

abbrev pub rest_of : List Json → List Json
rest_of [] = []
rest_of (g ∷ gs) = gs

-- After a flush of pending blocks.
abbrev pub spend : List ContentBlock → Extras → Extras
spend [] e = e
spend (b ∷ bs) e = record { reasoning = none; groups = rest_of e.groups }

abbrev pub add_reasoning : Option Json → Fields → Fields
add_reasoning none m = m
add_reasoning (some v) m =
    if truthy v && not (truthy? (get "reasoning_content" m)) then put "reasoning_content" v m else m

unfoldable pub add_items : List Json → Fields → Fields
unfolding dicts_of put
add_items (arr (cons v vs) ∷ gs) m = put "responses_output_items" (arr (dicts_of (cons v vs))) m
add_items _ m = m

module _ (codec : Codec) (dump : DataBlock → Json) (role : String) where
  -- flush_assistant
  unfoldable pub flush : List ContentBlock → Extras → List Fields
  unfolding add_items to_openai_message
  flush [] e = []
  flush (b ∷ bs) e =
      add_items e.groups
        (add_reasoning e.reasoning (to_openai_message codec dump (some role) (b ∷ bs)))
      ∷ []

  abbrev pub hint_message : Output → ContentBlock → Fields
  hint_message (plain s) b = field "role" (str "user") (field "content" (str s) end)
  hint_message (parts ps) b = to_openai_message codec dump (some "user") (b ∷ [])

  -- The loop over the content; `pending` is `assistant_blocks`.
  unfoldable pub expand : List ContentBlock → List ContentBlock → Extras → List Fields
  unfolding flush to_openai_message
  expand [] pending e = flush pending e
  expand (hint b ∷ bs) pending e =
      flush pending e ++ (hint_message b.hint (hint b) ∷ expand bs [] (spend pending e))
  expand (tool_result b ∷ bs) pending e =
      flush pending e
      ++ (to_openai_message codec dump (some "tool") (tool_result b ∷ [])
          ∷ expand bs [] (spend pending e))
  expand (text b ∷ bs) pending e = expand bs (pending ++ (text b ∷ [])) e
  expand (thinking b ∷ bs) pending e = expand bs (pending ++ (thinking b ∷ [])) e
  expand (binary b ∷ bs) pending e = expand bs (pending ++ (binary b ∷ [])) e
  expand (tool_call b ∷ bs) pending e = expand bs (pending ++ (tool_call b ∷ [])) e

abbrev pub list_in : Option Json → List Json
list_in (some (arr gs)) = list_of gs
list_in _ = []

abbrev pub or_blank : Fields → Option Json → List Fields → List Fields
or_blank blank (some v) [] = (if truthy v then put "reasoning_content" v blank else blank) ∷ []
or_blank blank none [] = blank ∷ []
or_blank blank o (m ∷ ms) = m ∷ ms

unfoldable pub msg_to_dicts : Codec → (DataBlock → Json) → Msg → List Fields
unfolding expand to_openai_message
msg_to_dicts codec dump m =
    let reasoning = get "reasoning_content" m.metadata in
    or_blank (to_openai_message codec dump (some (role_text m.role)) []) reasoning (
      expand codec dump (role_text m.role) m.content [] (record {
        reasoning = reasoning;
        groups = list_in (get "responses_output_item_groups" m.metadata);
      }))
