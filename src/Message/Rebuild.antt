-- ===== src/Message/Rebuild.antt =====
-- Msg.append_event of message/_msg.py (src/ftre_agent_core): a message is rebuilt from the events of
-- its stream. A Python exception (data that is no base64, a data delta on a linked source, a text
-- delta after an output item that is a bare dict) gives `none`.
use ftre_agent_core.Prelude.{
  ℕ, String, Option, none, some, Bool, true, List, [], ◌∷◌, ◌++◌, ◌==◌, ◌<>◌, if◌then◌else◌,
}
use ftre_agent_core.Json.{Fields, end}
use ftre_agent_core.Message.{
  Source, base64, url, DataBlock, parts, ContentBlock, text, thinking, binary, hint, tool_call,
  tool_result, pending, asking, allowed, finished, ToolResultState, running, Msg,
}
use ftre_agent_core.Event.{
  Event, EventBody, reply_end, model_call_end, text_block_start, text_block_delta, text_block_end,
  data_block_start, data_block_delta, data_block_end, thinking_block_start, thinking_block_delta,
  thinking_block_end, hint_block, tool_call_start, tool_call_delta, tool_call_end,
  tool_result_start, tool_result_text_delta, tool_result_data_delta, tool_result_end,
  require_user_confirm, user_confirm_result, or_text,
}
use ftre_agent_core.Message.Blocks.{
  block_id, find_block, buffered, buffer, unbuffer, count_usage, group_items, add_text,
  add_thinking, finish_at, set_state, set_arguments, end_result, add_output, source_of,
  add_data_output, alter, add_block,
}

-- What the code takes from Python's library: json.loads (the dict of a text, none for an error),
-- base64, and the ids and times of new blocks, of the event that makes them.
pub record Library : Type 0 where
  pub loads : String → Option Fields
  pub decode : String → Option (List ℕ)
  pub encode : List ℕ → String
  pub new_id : Event → String
  pub now : Event → String

-- `event.message_id or event.reply_id`
abbrev pub target_id : Event → Option String
target_id e = elim e.message_id [
  | none ↦ e.reply_id
  | some id ↦ if id == "" then e.reply_id else some id
]

abbrev pub is_for : String → Event → Bool
is_for id e = elim (target_id e) [ none ↦ true | some target ↦ target == id ]

module _ (lib : Library) where
  abbrev pub bytes_of : String → Option (List ℕ)
  bytes_of old = if old == "" then some [] else lib.decode old

  -- The base64 text of the bytes of two such texts.
  unfoldable pub join_data : String → String → Option String
  join_data old new = elim (bytes_of old) [
    | none ↦ none
    | some xs ↦ elim (lib.decode new) [ none ↦ none | some ys ↦ some (lib.encode (xs ++ ys)) ]
  ]

  abbrev pub with_data : DataBlock → String → Option String → Option ContentBlock
  with_data b media_type none = none
  with_data b media_type (some data') =
      some (binary (record b { source = base64 data' media_type }))

  unfoldable pub data_on : DataBlock → String → Source → Option ContentBlock
  unfolding join_data
  data_on b new (base64 old media_type) = with_data b media_type (join_data old new)
  data_on b new (url link media_type) = none

  unfoldable pub add_data : String → ContentBlock → Option ContentBlock
  unfolding data_on
  add_data new (binary b) = if new == "" then some (binary b) else data_on b new b.source
  add_data new b = some b

  -- `json.loads(raw) if raw else {}`, and `{}` when that fails
  unfoldable pub parse_arguments : String → Fields
  parse_arguments raw = if raw == "" then end else elim (lib.loads raw) [ some d ↦ d | none ↦ end ]

  abbrev pub arguments_of : String → String → Msg → Fields
  arguments_of id raw m = parse_arguments (or_text raw (buffered id m.tool_call_input_buf))

  -- TOOL_CALL_END
  unfoldable pub end_call : String → String → String → Msg → Option Msg
  unfolding find_block buffered unbuffer parse_arguments alter
  end_call time id raw m = elim (find_block "tool_call" id m.content) [
    | none ↦ some m
    | some b ↦
        alter "tool_call" id (λ b. some (finish_at time (set_arguments (arguments_of id raw m) b)))
          (record m { tool_call_input_buf = unbuffer id m.tool_call_input_buf })
  ]

  -- TOOL_RESULT_END
  unfoldable pub end_tool_result : String → String → ToolResultState → Fields → Msg → Option Msg
  unfolding find_block alter
  end_tool_result time id state metadata m = elim (find_block "tool_result" id m.content) [
    | none ↦ some m
    | some b ↦
        elim (alter "tool_result" id (λ b. some (finish_at time (end_result state metadata b))) m) [
          | none ↦ none
          | some m' ↦ alter "tool_call" id (λ b. some (set_state finished b)) m'
        ]
  ]

  unfoldable pub apply : Event → EventBody → Msg → Option Msg
  unfolding count_usage group_items alter add_output add_data end_call end_tool_result buffer
      buffered
  apply e (reply_end session reason failure) m =
      some (record m {
        finished_at = some e.created_at;
        finished_reason = some reason;
        error = failure;
      })
  apply e (model_call_end usage reason response_metadata) m = some (record m {
    token = some (count_usage usage m.token);
    metadata = group_items response_metadata m.metadata;
  })
  apply e (text_block_start id) m =
      add_block (text (record { text = ""; id = id; finished_at = none })) m
  apply e (text_block_delta id delta) m = alter "text" id (λ b. some (add_text delta b)) m
  apply e (text_block_end id) m = alter "text" id (λ b. some (finish_at e.created_at b)) m
  apply e (thinking_block_start id) m =
      add_block (thinking (record { thinking = ""; id = id; finished_at = none })) m
  apply e (thinking_block_delta id delta) m =
      alter "thinking" id (λ b. some (add_thinking delta b)) m
  apply e (thinking_block_end id) m = alter "thinking" id (λ b. some (finish_at e.created_at b)) m
  apply e (data_block_start id media_type) m =
      add_block
        (binary
          (record { source = base64 "" media_type; name = none; id = id; finished_at = none }))
        m
  apply e (data_block_delta id new media_type) m = alter "data" id (add_data new) m
  apply e (data_block_end id) m = alter "data" id (λ b. some (finish_at e.created_at b)) m
  apply e (hint_block id source content) m =
      add_block
        (hint (record { hint = content; source = source; id = id; finished_at = some (lib.now e) }))
        m
  apply e (tool_call_start id name) m =
      add_block
        (tool_call
          (record { id = id; name = name; arguments = end; state = pending; finished_at = none }))
        (record m { tool_call_input_buf = buffer id "" m.tool_call_input_buf })
  apply e (tool_call_delta id delta) m = some (record m {
    tool_call_input_buf =
        buffer id (buffered id m.tool_call_input_buf <> delta) m.tool_call_input_buf;
  })
  apply e (tool_call_end id arguments) m = end_call e.created_at id arguments m
  apply e (tool_result_start id name) m =
      add_block
        (tool_result (record {
          id = id;
          name = name;
          output = parts [];
          state = running;
          metadata = end;
          finished_at = none;
        }))
        m
  apply e (tool_result_text_delta id delta) m =
      alter "tool_result" id (add_output (lib.new_id e) delta) m
  apply e (tool_result_data_delta id block_id media_type new link) m =
      alter "tool_result" id
        (λ b. some (add_data_output (lib.new_id e) block_id (source_of media_type new link) b)) m
  apply e (tool_result_end id state metadata) m = end_tool_result e.created_at id state metadata m
  apply e (require_user_confirm id name arguments reason rule_id) m =
      alter "tool_call" id (λ b. some (set_state asking b)) m
  apply e (user_confirm_result id approved) m =
      alter "tool_call" id (λ b. some (set_state (if approved then allowed else finished) b)) m
  apply e _ m = some m

  -- Msg.append_event
  unfoldable pub append_event : Event → Msg → Option Msg
  unfolding apply
  append_event e m = if is_for m.id e then apply e e.body m else some m

  -- A message after all events of a stream.
  unfoldable pub rebuild : List Event → Msg → Option Msg
  unfolding append_event
  rebuild [] m = some m
  rebuild (e ∷ es) m = elim (append_event e m) [ none ↦ none | some m' ↦ rebuild es m' ]
