-- ===== src/Event.antt =====
-- event/_event.py (src/ftre_agent_core): the stream events. What every event class has stands in
-- the record, and what is its own in the body. The generated id of an event, which nothing reads,
-- is left out, and so is the free `metadata` of the base class.
use ftre_agent_core.Prelude.{ℕ, String, Option, none, some, Bool, ◌==◌, if◌then◌else◌}
use ftre_agent_core.Json.{Fields}
use ftre_agent_core.Message.{ToolResultState, Output, ReplyFinishedReason, TokenUsage, ErrorInfo}

pub data EventBody : Type 0 where
  reply_start : String → String → EventBody
  reply_end : String → ReplyFinishedReason → Option ErrorInfo → EventBody
  exceed_max_iters : String → EventBody
  model_call_start : String → EventBody
  model_call_end : TokenUsage → String → Fields → EventBody
  text_block_start : String → EventBody
  text_block_delta : String → String → EventBody
  text_block_end : String → EventBody
  data_block_start : String → String → EventBody
  data_block_delta : String → String → String → EventBody
  data_block_end : String → EventBody
  thinking_block_start : String → EventBody
  thinking_block_delta : String → String → EventBody
  thinking_block_end : String → EventBody
  hint_block : String → Option String → Output → EventBody
  tool_call_start : String → String → EventBody
  tool_call_delta : String → String → EventBody
  tool_call_end : String → String → EventBody
  tool_result_start : String → String → EventBody
  tool_result_text_delta : String → String → EventBody
  tool_result_data_delta : String → String → String → Option String → Option String → EventBody
  tool_result_end : String → ToolResultState → Fields → EventBody
  require_user_confirm : String → String → Fields → String → Option String → EventBody
  user_confirm_result : String → Bool → EventBody
  retry : String → String → ℕ → ℕ → EventBody
  custom : String → Fields → EventBody
  user_message : Fields → EventBody

pub record Event : Type 0 where
  pub reply_id : Option String
  pub message_id : Option String
  pub created_at : String
  pub body : EventBody

-- Python's `a or b` on texts
abbrev pub or_text : String → String → String
or_text s t = if s == "" then t else s

-- ReActRunner._annotate_event, at the runner's current message id
unfoldable pub annotate_event : String → Event → Event
annotate_event current e = elim e.reply_id [
  | none ↦ e
  | some reply_id ↦
      if reply_id == "" then e else record e { message_id = some (or_text current reply_id) }
]
