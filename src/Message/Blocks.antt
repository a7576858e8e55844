-- ===== src/Message/Blocks.antt =====
-- The changes of blocks, usages and buffers that Msg.append_event is made of
-- (src/ftre_agent_core/message/_msg.py).
use ftre_agent_core.Prelude.{
  ◌+◌, String, Option, none, some, Bool, ◌&&◌, List, [], ◌∷◌, ◌++◌, ◌==◌, ◌<>◌, if◌then◌else◌,
}
use ftre_agent_core.Json.{Json, arr, obj, nil, cons, Items, Fields, get, put}
use ftre_agent_core.Message.{
  Source, base64, url, ToolResultBlock, Part, text_part, data_part, dict_part, Output, plain, parts,
  ContentBlock, text, thinking, binary, hint, tool_call, tool_result, ToolCallState,
  ToolResultState, TokenUsage, MsgToken, Msg,
}

abbrev pub block_type : ContentBlock → String
block_type (text b) = "text"
block_type (thinking b) = "thinking"
block_type (binary b) = "data"
block_type (hint b) = "hint"
block_type (tool_call b) = "tool_call"
block_type (tool_result b) = "tool_result"

abbrev pub block_id : ContentBlock → String
block_id (text b) = b.id
block_id (thinking b) = b.id
block_id (binary b) = b.id
block_id (hint b) = b.id
block_id (tool_call b) = b.id
block_id (tool_result b) = b.id

abbrev pub is_at : String → String → ContentBlock → Bool
is_at type id b = block_type b == type && block_id b == id

-- Msg._find_block
unfoldable pub find_block : String → String → List ContentBlock → Option ContentBlock
find_block type id [] = none
find_block type id (b ∷ bs) = if is_at type id b then some b else find_block type id bs

-- The block that `_find_block` gives, replaced by the block with its new fields.
unfoldable pub set_block : String → String → ContentBlock → List ContentBlock → List ContentBlock
set_block type id new [] = []
set_block type id new (b ∷ bs) = if is_at type id b then new ∷ bs else b ∷ set_block type id new bs

-- `d.get(key, "")`, `d[key] = value` and `d.pop(key, None)` of the argument buffer
unfoldable pub buffered : String → List (String × String) → String
buffered key [] = ""
buffered key ((k, v) ∷ rest) = if k == key then v else buffered key rest

unfoldable pub buffer : String → String → List (String × String) → List (String × String)
buffer key value [] = (key, value) ∷ []
buffer key value ((k, v) ∷ rest) =
    if k == key then (k, value) ∷ rest else (k, v) ∷ buffer key value rest

unfoldable pub unbuffer : String → List (String × String) → List (String × String)
unbuffer key [] = []
unbuffer key ((k, v) ∷ rest) =
    let rest' = unbuffer key rest in if k == key then rest' else (k, v) ∷ rest'

abbrev pub add_usage : TokenUsage → TokenUsage → TokenUsage
add_usage t u = record {
  prompt_tokens = t.prompt_tokens + u.prompt_tokens;
  completion_tokens = t.completion_tokens + u.completion_tokens;
  total_tokens = t.total_tokens + u.total_tokens;
}

unfoldable pub count_usage : TokenUsage → Option MsgToken → MsgToken
count_usage current none = record { usage = current; last_call_usage = current }
count_usage current (some token) = record {
  usage = add_usage token.usage current;
  last_call_usage = current;
}

-- `[dict(item) for item in output_items if isinstance(item, dict)]`
unfoldable pub dicts_of : Items → Items
dicts_of nil = nil
dicts_of (cons (obj d) vs) = cons (obj d) (dicts_of vs)
dicts_of (cons v vs) = dicts_of vs

unfoldable pub add_item : Json → Items → Items
add_item v nil = cons v nil
add_item v (cons w ws) = cons w (add_item v ws)

unfoldable pub add_group : Items → Option Json → Json
unfolding dicts_of add_item
add_group items (some (arr groups)) = arr (add_item (arr (dicts_of items)) groups)
add_group items (some v) = v
add_group items none = arr (cons (arr (dicts_of items)) nil)

-- The grouping of Responses output items under `responses_output_item_groups`.
unfoldable pub group_items : Fields → Fields → Fields
unfolding add_group
group_items response_metadata metadata = elim (get "output_items" response_metadata) [
  | some (arr (cons v vs)) ↦
      let groups = get "responses_output_item_groups" metadata in
      put "responses_output_item_groups" (add_group (cons v vs) groups) metadata
  | _ ↦ metadata
]

abbrev pub add_text : String → ContentBlock → ContentBlock
add_text delta (text b) = text (record b { text = b.text <> delta })
add_text delta b = b

abbrev pub add_thinking : String → ContentBlock → ContentBlock
add_thinking delta (thinking b) = thinking (record b { thinking = b.thinking <> delta })
add_thinking delta b = b

-- `block.finished_at = time`
abbrev pub finish_at : String → ContentBlock → ContentBlock
finish_at time (text b) = text (record b { finished_at = some time })
finish_at time (thinking b) = thinking (record b { finished_at = some time })
finish_at time (binary b) = binary (record b { finished_at = some time })
finish_at time (hint b) = hint (record b { finished_at = some time })
finish_at time (tool_call b) = tool_call (record b { finished_at = some time })
finish_at time (tool_result b) = tool_result (record b { finished_at = some time })

-- `block.state = state` of a tool call
abbrev pub set_state : ToolCallState → ContentBlock → ContentBlock
set_state state (tool_call b) = tool_call (record b { state = state })
set_state state b = b

abbrev pub set_arguments : Fields → ContentBlock → ContentBlock
set_arguments arguments (tool_call b) = tool_call (record b { arguments = arguments })
set_arguments arguments b = b

abbrev pub end_result : ToolResultState → Fields → ContentBlock → ContentBlock
end_result state metadata (tool_result b) =
    tool_result (record b { state = state; metadata = metadata })
end_result state metadata b = b

-- A new text block of a tool's output.
abbrev pub new_part : String → String → Part
new_part id s = text_part (record { text = s; id = id; finished_at = none })

-- The delta joins a last text block, or opens a new one.
unfoldable pub extend_parts : String → String → List Part → Option (List Part)
extend_parts id delta [] = some (new_part id delta ∷ [])
extend_parts id delta (text_part b ∷ []) =
    some (text_part (record b { text = b.text <> delta }) ∷ [])
extend_parts id delta (data_part b ∷ []) = some (data_part b ∷ new_part id delta ∷ [])
extend_parts id delta (dict_part d ∷ []) = none
extend_parts id delta (p ∷ q ∷ ps) = elim (extend_parts id delta (q ∷ ps)) [
  | none ↦ none
  | some ps' ↦ some (p ∷ ps')
]

-- `[TextBlock(text=output)]` for an output that is a text
abbrev pub as_parts : String → Output → List Part
as_parts id (plain s) = new_part id s ∷ []
as_parts id (parts ps) = ps

abbrev pub set_output : ToolResultBlock → Option (List Part) → Option ContentBlock
set_output b none = none
set_output b (some ps) = some (tool_result (record b { output = parts ps }))

-- An output that was a text takes its block's id from the event too.
unfoldable pub add_output : String → String → ContentBlock → Option ContentBlock
unfolding extend_parts
add_output id delta (tool_result b) = set_output b (extend_parts id delta (as_parts id b.output))
add_output id delta b = some b

abbrev pub source_of : String → Option String → Option String → Source
source_of media_type (some data') link = base64 data' media_type
source_of media_type none (some link) = url link media_type
source_of media_type none none = url "None" media_type

abbrev pub add_data_output : String → String → Source → ContentBlock → ContentBlock
add_data_output new block_id source (tool_result b) = tool_result (record b {
  output = parts (
      as_parts new b.output
      ++ (data_part (record { source = source; name = none; id = block_id; finished_at = none })
          ∷ []));
})
add_data_output new block_id source b = b

-- A change of the block that `_find_block` gives; nothing without one.
unfoldable pub alter : String → String → (ContentBlock → Option ContentBlock) → Msg → Option Msg
unfolding find_block set_block
alter type id change m = elim (find_block type id m.content) [
  | none ↦ some m
  | some b ↦ elim (change b) [
    | none ↦ none
    | some new ↦ some (record m { content = set_block type id new m.content })
  ]
]

abbrev pub add_block : ContentBlock → Msg → Option Msg
add_block b m = some (record m { content = m.content ++ (b ∷ []) })
