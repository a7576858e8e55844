-- ===== src/Runner.antt =====
-- agent/runner/_state.py (src/ftre_agent_core): the state of a run, the actions, and what the
-- executors hand to one another. `cancel_token`, which the code never cancels, and the tracing span
-- have modules of their own.
pub mod Decide
pub mod Acting
pub mod ExitExecutor
pub mod ReasoningExecutor
pub mod Loop
pub mod Run
mod Tests
use ftre_agent_core.Prelude.{
  ℕ, String, Option, none, some, Bool, true, false, List, [], ◌==◌, if◌then◌else◌,
}
use ftre_agent_core.Json.{Fields}
use ftre_agent_core.Message.{ReplyFinishedReason, TokenUsage}

pub data RunStatus : Type 0 where
  idle running paused completed error cancelled : RunStatus

-- The keys of `runtime_context` that the runner reads. `cancellation` is an `asyncio.Event` that
-- others set at any time: it is asked of the environment.
pub record RuntimeContext : Type 0 where
  pub max_iterations : Option ℕ
  pub session_id : String
  pub turn_id : String
  pub continuation_count : ℕ
  pub max_continuations : ℕ

pub record RunState : Type 0 where
  pub status : RunStatus
  pub iteration : ℕ
  pub done_reason : Option ReplyFinishedReason
  pub error : Option String
  pub error_code : Option String
  pub runtime_context : RuntimeContext
  pub reply_id : String
  pub message_id : String
  pub turn_id : String
  pub empty_retries : ℕ
  pub in_finalization : Bool
  pub token_usage : TokenUsage

-- `ToolCall` of the LLM package: no input stands for arguments that are malformed JSON
pub record ToolCall : Type 0 where
  pub id : String
  pub name : String
  pub input : Option Fields

-- llm/errors.py
pub record LlmError : Type 0 where
  pub message : String
  pub code : String

pub record TurnResult : Type 0 where
  pub text : String
  pub reasoning : String
  pub tool_calls : List ToolCall
  pub finish_reason : String
  pub error : Option LlmError

pub record Reasoning : Type 0 where
  pub hint : Option String
  pub force_no_tools : Bool

pub record Exit : Type 0 where
  pub finished_reason : ReplyFinishedReason
  pub error : Option String
  pub error_code : Option String

pub data Action : Type 0 where
  reasoning : Reasoning → Action
  acting : List ToolCall → Action
  exit : Exit → Action

abbrev pub no_tokens : TokenUsage
no_tokens = record { prompt_tokens = 0; completion_tokens = 0; total_tokens = 0 }

-- RunState.is_cancelled
abbrev pub is_cancelled : RunStatus → Bool
is_cancelled RunStatus.cancelled = true
is_cancelled _ = false

-- RunState.is_done
abbrev pub is_done : RunStatus → Bool
is_done RunStatus.completed = true
is_done RunStatus.error = true
is_done RunStatus.cancelled = true
is_done _ = false

-- RunState.start; `new_turn` is the generated turn id
unfoldable pub start : String → RunState → RunState
start new_turn s = record {
  status = running;
  iteration = 0;
  done_reason = none;
  error = none;
  error_code = none;
  runtime_context = s.runtime_context;
  reply_id = "";
  message_id = "";
  turn_id = if s.runtime_context.turn_id == "" then new_turn else s.runtime_context.turn_id;
  empty_retries = 0;
  in_finalization = false;
  token_usage = no_tokens;
}
