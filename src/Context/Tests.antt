-- ===== src/Context/Tests.antt =====
-- The context (src/ftre_agent_core/message_context.py) on a concrete conversation.
use ftre_agent_core.Prelude.{◌≡◌, refl, none, List, [], ◌∷◌, ◌==◌, if◌then◌else◌}
use ftre_agent_core.Json.{null, end}
use ftre_agent_core.Message.{
  pending, asking, allowed, text, tool_call, tool_result, hint, success, plain, ContentBlock, Msg,
  default, assistant, user, Role, ToolCallBlock,
}
use ftre_agent_core.Context.{Context, set_tool_call_state, find_call, tool_calls_in_state}
use ftre_agent_core.Context.{append_reply_blocks}
use ftre_agent_core.Context.Replies.{IsExtended, append_reply_blocks-IsExtended}
use ftre_agent_core.Convert.{Codec}
use ftre_agent_core.Context.Export.{msg_to_dicts}
use ftre_agent_core.Context.Order.{all_marks, block_marks, all_marks-msg_to_dicts}
use ftre_agent_core.Context.Calls.{with_state, find_call-set_tool_call_state}

abbrev read_call : ToolCallBlock
read_call = record {
  id = "c1";
  name = "read";
  arguments = end;
  state = pending;
  finished_at = none;
}

abbrev write_call : ToolCallBlock
write_call = record {
  id = "c2";
  name = "write";
  arguments = end;
  state = asking;
  finished_at = none;
}

abbrev message : Role → List ContentBlock → Msg
message role content = record {
  name = default;
  content = content;
  role = role;
  id = "m";
  metadata = end;
  token = none;
  finished_at = none;
  finished_reason = none;
  error = none;
  tool_call_input_buf = [];
}

abbrev conversation : Context
conversation =
    message user (text (record { text = "hi"; id = "t"; finished_at = none }) ∷ [])
    ∷ message assistant (tool_call read_call ∷ tool_call write_call ∷ [])
    ∷ []

allowed_now :
    tool_calls_in_state (set_tool_call_state conversation "c2" allowed).0 allowed
    ≡ record write_call { state = allowed } ∷ []
unfolding tool_calls_in_state set_tool_call_state
allowed_now = refl

find_call-set_tool_call_state_example :
    find_call (set_tool_call_state conversation "c1" allowed).0 "c1" ≡ (
      if "c1" == "c1"
      then with_state allowed (find_call conversation "c1")
      else find_call conversation "c1")
find_call-set_tool_call_state_example = find_call-set_tool_call_state conversation "c1" "c1" allowed

append_reply_blocks-IsExtended_example :
    IsExtended "m"
      (tool_call write_call ∷ [])
      conversation
      (append_reply_blocks conversation "m" (tool_call write_call ∷ []))
append_reply_blocks-IsExtended_example =
    append_reply_blocks-IsExtended "m" conversation (tool_call write_call ∷ [])

abbrev codec : Codec
codec = record { loads = λ s. none; dumps = λ v. "{}"; text_of = λ v. ""; read_base64 = λ s. none }

abbrev worked : Msg
worked = message assistant (
    tool_call read_call
    ∷ tool_call write_call
    ∷ tool_result (record {
      id = "c1";
      name = "read";
      output = plain "a";
      state = success;
      metadata = end;
      finished_at = none;
    })
    ∷ hint (record { hint = plain "mind the gap"; source = none; id = "h"; finished_at = none })
    ∷ text (record { text = "done"; id = "t"; finished_at = none })
    ∷ [])

all_marks-msg_to_dicts_example :
    all_marks (msg_to_dicts codec (λ b. null) worked) ≡ block_marks worked.content
all_marks-msg_to_dicts_example = all_marks-msg_to_dicts codec (λ b. null) worked
