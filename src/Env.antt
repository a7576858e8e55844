-- ===== src/Env.antt =====
-- Everything that the runner (src/ftre_agent_core/agent/runner) asks and does not implement: the
-- host's hooks, the model's stream, the tools, the clock and the generated ids, each answered at a
-- moment; the values of an agent that a run does not change; and the functions of Python's library
-- that the code calls on data. No answer is assumed to have any property.
use ftre_agent_core.Prelude.{ℕ, String, Option, Bool, List}
use ftre_agent_core.Json.{Fields}
use ftre_agent_core.Message.{Part}
use ftre_agent_core.Permission.{PyText}
use ftre_agent_core.Convert.{Codec}
use ftre_agent_core.Runner.{LlmError}
use ftre_agent_core.Handler.{ToolWorld}
use ftre_agent_core.Llm.{Chunk}
use ftre_agent_core.World.{Exc}

-- How a stream of chunks ended: it was exhausted, the task was cancelled, or an exception came,
-- which `LLMError.classify` has turned into an LLMError where it was none.
pub data StreamEnd : Type 0 where
  exhausted stream_cancelled : StreamEnd
  stream_raised : LlmError → StreamEnd

pub record StreamRun : Type 0 where
  pub chunks : List Chunk
  pub ending : StreamEnd

-- `agent/before-reasoning`: the messages to add, or what it raised
pub data BeforeReasoning : Type 0 where
  messages : List Fields → BeforeReasoning
  before_raised : Exc → BeforeReasoning

-- `agent/stop-decision`
pub data StopDecision : Type 0 where
  stop_turn : StopDecision
  continue_turn : String → StopDecision
  stop_raised : Exc → StopDecision

-- `llm/error`: no decision (also when a listener failed), retry or stop, or a cancellation
pub data ErrorDecision : Type 0 where
  no_decision retry stop decision_cancelled : ErrorDecision

pub record Env : Type 0 where
  pub now : ℕ → String
  pub fresh : ℕ → String
  -- the ids of the messages added at a moment, and of their blocks
  pub raw_ids : ℕ → ℕ → ℕ → String
  -- `runtime_context["cancellation"].is_set()`
  pub cancellation : ℕ → Bool
  pub tools : ToolWorld
  -- whether the wait for a batch of tools was cancelled
  pub gather_cancelled : ℕ → Bool
  pub before_reasoning : ℕ → BeforeReasoning
  pub stop_decision : ℕ → StopDecision
  pub llm_stream : ℕ → StreamRun
  pub llm_error : ℕ → ErrorDecision
  -- whether the pause before a retry was cancelled
  pub sleep_cancelled : ℕ → Bool
  -- the agent
  pub model : String
  pub max_retries : ℕ
  -- Python
  pub py : PyText
  pub codec : Codec
  -- `json.loads` of tool arguments; none is a JSONDecodeError
  pub loads : String → Option Fields
  -- `str` of a list of blocks
  pub text_of_parts : List Part → String
