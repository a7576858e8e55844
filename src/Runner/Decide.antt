-- ===== src/Runner/Decide.antt =====
-- decide and _REASON_TO_STATUS of agent/runner/react_runner.py (src/ftre_agent_core).
pub mod Laws
use Prim.Native.Char.{code}
use Prim.Native.String
use ftre_agent_core.Prelude.{
  ℕ, suc, ◌+◌, String, Option, none, some, Bool, true, false, ◌&&◌, ◌||◌, List, [], ◌∷◌, ◌==◌, ◌<>◌,
  ltb, leb, eqb, if◌then◌else◌,
}
use ftre_agent_core.Message.{ReplyFinishedReason}
use ftre_agent_core.Runner.{
  RunStatus, RunState, ToolCall, LlmError, TurnResult, Action, reasoning, acting, exit,
}

abbrev pub max_empty_response_retries : ℕ
max_empty_response_retries = 2

abbrev pub finalization_retry_prompt : String
finalization_retry_prompt = "请根据上面的对话，直接给出回复用户的最终内容。"

abbrev pub empty_final_response_message : String
empty_final_response_message = "模型多次重试后仍未生成可见的最终文本回复。"

-- Python's `str.isspace` of one character
unfoldable pub is_space : ℕ → Bool
is_space c =
    (leb 9 c && leb c 13)
    || (leb 28 c && leb c 32)
    || eqb c 133
    || eqb c 160
    || eqb c 5760
    || (leb 8192 c && leb c 8202)
    || eqb c 8232
    || eqb c 8233
    || eqb c 8239
    || eqb c 8287
    || eqb c 12288

-- `not text.strip()`
unfoldable pub is_blank : String → Bool
unfolding is_space
is_blank String.[] = true
is_blank (String.◌∷◌ c s) = is_space (code c) && is_blank s

-- Branch 1: the model call failed.
abbrev pub exit_of_error : LlmError → Action
exit_of_error e = exit (record {
  finished_reason = ReplyFinishedReason.error;
  error = some ("[" <> e.code <> "] " <> e.message);
  error_code = some e.code;
})

abbrev pub plain_exit : ReplyFinishedReason → Action
plain_exit reason = exit (record { finished_reason = reason; error = none; error_code = none })

abbrev pub plain_reasoning : Action
plain_reasoning = reasoning (record { hint = none; force_no_tools = false })

-- Branches 4 to 6: an empty response.
unfoldable pub decide_empty : RunState → Action × RunState
decide_empty s =
    if s.in_finalization
    then (
      exit (record {
        finished_reason = ReplyFinishedReason.error;
        error = some empty_final_response_message;
        error_code = some "empty_response";
      }),
      s,
    )
    else if ltb s.empty_retries max_empty_response_retries
    then (plain_reasoning, record s { empty_retries = s.empty_retries + 1 })
    else (
      reasoning (record { hint = some finalization_retry_prompt; force_no_tools = true }),
      record s { in_finalization = true },
    )

-- `max_iterations is not None and iteration >= max_iterations`
abbrev pub exhausted : Option ℕ → ℕ → Bool
exhausted none iteration = false
exhausted (some most) iteration = leb most iteration

-- Branches 2 to 6, of a turn that did not fail.
unfoldable pub decide_turn : RunState → String → List ToolCall → Action × RunState
unfolding decide_empty
decide_turn s text (call ∷ calls) = (acting (call ∷ calls), s)
decide_turn s text [] =
    if is_blank text then decide_empty s else (plain_exit ReplyFinishedReason.completed, s)

-- decide, with the state that it may have changed
unfoldable pub decide : RunState → Option TurnResult → Action × RunState
unfolding decide_turn
decide s none =
    if exhausted s.runtime_context.max_iterations s.iteration
    then (plain_exit ReplyFinishedReason.exceed_max_iters, s)
    else (plain_reasoning, s)
decide s (some prev) = elim prev.error [
  | some e ↦ (exit_of_error e, s)
  | none ↦ decide_turn s prev.text prev.tool_calls
]

-- _REASON_TO_STATUS
abbrev pub reason_to_status : ReplyFinishedReason → RunStatus
reason_to_status ReplyFinishedReason.completed = RunStatus.completed
reason_to_status ReplyFinishedReason.interrupted = RunStatus.cancelled
reason_to_status ReplyFinishedReason.error = RunStatus.error
reason_to_status ReplyFinishedReason.exceed_max_iters = RunStatus.completed
