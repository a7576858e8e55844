-- ===== src/Context.antt =====
-- class MessageContext of message_context.py (src/ftre_agent_core): the operations on the list of
-- messages that an agent owns. A generated id (`uuid4().hex[:16]`) is an argument.
pub mod Blocks
pub mod Calls
pub mod Replies
pub mod Tests
pub mod Raw
pub mod Export
pub mod Order
use ftre_agent_core.Prelude.{
  String, Option, none, some, Bool, true, false, List, [], ◌∷◌, ◌++◌, ◌==◌, ◌&&◌, not, is_empty,
  is_some, any, if◌then◌else◌,
}
use ftre_agent_core.Json.{end}
use ftre_agent_core.Message.{
  ToolCallState, same_state, ToolResultState, TextBlock, ToolCallBlock, ToolResultBlock, Output,
  plain, ContentBlock, text, tool_call, tool_result, Role, user, assistant, is_assistant, default,
  Msg,
}

abbrev pub Context : Type 0
Context = List Msg

-- `Msg(name=MsgName.DEFAULT, content=content, role=role, id=id)`
abbrev pub new_msg : String → Role → List ContentBlock → Msg
new_msg id role content = record {
  name = default;
  content = content;
  role = role;
  id = id;
  metadata = end;
  token = none;
  finished_at = none;
  finished_reason = none;
  error = none;
  tool_call_input_buf = [];
}

-- MessageContext.add_user; the ids are those of the block and of the message
unfoldable pub add_user : String → String → Context → String → Context
add_user block_id message_id context content =
    context
    ++ new_msg message_id user
        (text (record { text = content; id = block_id; finished_at = none }) ∷ [])
      ∷ []

abbrev pub is_reply : String → Msg → Bool
is_reply message_id m = is_assistant m.role && m.id == message_id

-- The loop of `append_reply_blocks` over the reversed context: the last message that fits is
-- extended, and `none` is that none fits.
unfoldable pub extend_last : String → List ContentBlock → Context → Option Context
extend_last message_id blocks [] = none
extend_last message_id blocks (m ∷ rest) = elim (extend_last message_id blocks rest) [
  | some rest' ↦ some (m ∷ rest')
  | none ↦
      if is_reply message_id m
      then some (record m { content = m.content ++ blocks } ∷ rest)
      else none
]

abbrev or_append : Context → String → List ContentBlock → Option Context → Context
or_append context message_id blocks none = context ++ new_msg message_id assistant blocks ∷ []
or_append context message_id blocks (some context') = context'

-- MessageContext.append_reply_blocks
unfoldable pub append_reply_blocks : Context → String → List ContentBlock → Context
unfolding extend_last
append_reply_blocks context message_id blocks =
    if is_empty blocks
    then context
    else or_append context message_id blocks (extend_last message_id blocks context)

-- MessageContext.add_tool_result
unfoldable pub add_tool_result :
    Context → String → String → String → String → ToolResultState → Context
add_tool_result context message_id tool_call_id name content state =
    append_reply_blocks context message_id (
      tool_result (record {
        id = tool_call_id;
        name = name;
        output = plain content;
        state = state;
        metadata = end;
        finished_at = none;
      })
      ∷ [])

-- The inner loop of `set_tool_call_state`: the first block that fits; `none` is that none fits.
unfoldable pub set_in_blocks :
    String → ToolCallState → List ContentBlock → Option (List ContentBlock)
set_in_blocks id state [] = none
set_in_blocks id state (tool_call b ∷ rest) =
    if b.id == id
    then some (tool_call (record b { state = state }) ∷ rest)
    else elim (set_in_blocks id state rest) [
      | none ↦ none
      | some rest' ↦ some (tool_call b ∷ rest')
    ]
set_in_blocks id state (b ∷ rest) = elim (set_in_blocks id state rest) [
  | none ↦ none
  | some rest' ↦ some (b ∷ rest')
]

-- MessageContext.set_tool_call_state; the Boolean is the method's result
unfoldable pub set_tool_call_state : Context → String → ToolCallState → Context × Bool
unfolding set_in_blocks
set_tool_call_state [] id state = ([], false)
set_tool_call_state (m ∷ rest) id state = elim (set_in_blocks id state m.content) [
  | some content ↦ (record m { content = content } ∷ rest, true)
  | none ↦ let (rest', found) = set_tool_call_state rest id state in (m ∷ rest', found)
]

unfoldable pub calls_in : ToolCallState → List ContentBlock → List ToolCallBlock
calls_in state [] = []
calls_in state (tool_call b ∷ rest) =
    let found = calls_in state rest in if same_state b.state state then b ∷ found else found
calls_in state (b ∷ rest) = calls_in state rest

-- MessageContext.tool_calls_in_state
unfoldable pub tool_calls_in_state : Context → ToolCallState → List ToolCallBlock
unfolding calls_in
tool_calls_in_state [] state = []
tool_calls_in_state (m ∷ rest) state = calls_in state m.content ++ tool_calls_in_state rest state

-- The search of `next((block for message … for block … if …), None)`.
unfoldable pub find_in_blocks : String → List ContentBlock → Option ToolCallBlock
find_in_blocks id [] = none
find_in_blocks id (tool_call b ∷ rest) = if b.id == id then some b else find_in_blocks id rest
find_in_blocks id (b ∷ rest) = find_in_blocks id rest

unfoldable pub find_call : Context → String → Option ToolCallBlock
unfolding find_in_blocks
find_call [] id = none
find_call (m ∷ rest) id = elim (find_in_blocks id m.content) [
  | some b ↦ some b
  | none ↦ find_call rest id
]
