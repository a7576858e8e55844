-- ===== src/Message.antt =====
-- message/_block.py and the data of message/_msg.py (src/ftre_agent_core/message): content blocks
-- and messages. The `created_at` stamps, which no code of the repository reads but to copy one
-- into a hint's `finished_at`, are left out.
pub mod Blocks
pub mod Rebuild
pub mod Place
pub mod Text
pub mod Order
pub mod Tokens
mod Tests
use ftre_agent_core.Prelude.{ℕ, String, Option, Bool, true, false, List}
use ftre_agent_core.Json.{Fields}

pub data ToolCallState : Type 0 where
  pending asking allowed submitted finished : ToolCallState

pub ToolCallState-discrete : Discrete ToolCallState
ToolCallState-discrete = hlevel

-- `==` on `ToolCallState`
abbrev pub same_state : ToolCallState → ToolCallState → Bool
same_state pending pending = true
same_state asking asking = true
same_state allowed allowed = true
same_state submitted submitted = true
same_state finished finished = true
same_state _ _ = false

pub data ToolResultState : Type 0 where
  success error interrupted denied running : ToolResultState

pub data Source : Type 0 where
  base64 : String → String → Source
  url : String → String → Source

pub record TextBlock : Type 0 where
  pub text : String
  pub id : String
  pub finished_at : Option String

pub record ThinkingBlock : Type 0 where
  pub thinking : String
  pub id : String
  pub finished_at : Option String

pub record DataBlock : Type 0 where
  pub source : Source
  pub name : Option String
  pub id : String
  pub finished_at : Option String

-- An item of a multimodal hint or of a tool's output: a block, or a dict that was not parsed.
pub data Part : Type 0 where
  text_part : TextBlock → Part
  data_part : DataBlock → Part
  dict_part : Fields → Part

-- `str | list`
pub data Output : Type 0 where
  plain : String → Output
  parts : List Part → Output

pub record HintBlock : Type 0 where
  pub hint : Output
  pub source : Option String
  pub id : String
  pub finished_at : Option String

pub record ToolCallBlock : Type 0 where
  pub id : String
  pub name : String
  pub arguments : Fields
  pub state : ToolCallState
  pub finished_at : Option String

pub record ToolResultBlock : Type 0 where
  pub id : String
  pub name : String
  pub output : Output
  pub state : ToolResultState
  pub metadata : Fields
  pub finished_at : Option String

pub data ContentBlock : Type 0 where
  text : TextBlock → ContentBlock
  thinking : ThinkingBlock → ContentBlock
  binary : DataBlock → ContentBlock
  hint : HintBlock → ContentBlock
  tool_call : ToolCallBlock → ContentBlock
  tool_result : ToolResultBlock → ContentBlock

pub data Role : Type 0 where
  user assistant system : Role

abbrev pub is_assistant : Role → Bool
is_assistant assistant = true
is_assistant _ = false

pub data MsgName : Type 0 where
  default compact compact_fast : MsgName

-- types.py
pub data ReplyFinishedReason : Type 0 where
  completed interrupted exceed_max_iters error : ReplyFinishedReason

pub record TokenUsage : Type 0 where
  pub prompt_tokens : ℕ
  pub completion_tokens : ℕ
  pub total_tokens : ℕ

pub record MsgToken : Type 0 where
  pub usage : TokenUsage
  pub last_call_usage : TokenUsage

-- The `{"message": …, "code": …}` of a failed reply.
pub record ErrorInfo : Type 0 where
  pub message : String
  pub code : Option String

pub record Msg : Type 0 where
  pub name : MsgName
  pub content : List ContentBlock
  pub role : Role
  pub id : String
  pub metadata : Fields
  pub token : Option MsgToken
  pub finished_at : Option String
  pub finished_reason : Option ReplyFinishedReason
  pub error : Option ErrorInfo
  pub tool_call_input_buf : List (String × String)
