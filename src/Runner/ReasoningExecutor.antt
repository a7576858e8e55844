-- ===== src/Runner/ReasoningExecutor.antt =====
-- class ReasoningExecutor of agent/runner/_execute_reasoning.py (src/ftre_agent_core). The request
-- itself (the messages and the tools handed to the model) shows only in the environment's answer;
-- the tracing spans and the logs are left out.
pub mod Attempts
pub mod Retries
use ftre_agent_core.Prelude.{
  ℕ, zero, suc, ◌+◌, ◌-◌, String, Option, none, some, Bool, true, false, not, ◌&&◌, ◌||◌, List, [],
  ◌∷◌, ◌++◌, map, ◌==◌, ◌<>◌, if◌then◌else◌,
}
use ftre_agent_core.Json.{Json, str, Fields, end, get}
use ftre_agent_core.Message.{
  ToolCallState, pending, TokenUsage, TextBlock, ThinkingBlock, ToolCallBlock, ContentBlock, text,
  thinking, tool_call, hint, plain,
}
use ftre_agent_core.Context.{append_reply_blocks}
use ftre_agent_core.Event.{
  EventBody, model_call_start, model_call_end, text_block_start, text_block_delta, text_block_end,
  thinking_block_start, thinking_block_delta, thinking_block_end, tool_call_start, tool_call_delta,
  tool_call_end, hint_block, retry, or_text,
}
use ftre_agent_core.Runner.{RunState, ToolCall, LlmError, TurnResult, Reasoning, is_cancelled}
use ftre_agent_core.Llm.{
  Usage, FinishReason, Chunk, block_start, text_delta, reasoning_delta, tool_call_delta, block_end,
  usage_chunk, finish_chunk, unknown,
}
use ftre_agent_core.Llm.Assembler
use ftre_agent_core.Llm.Assembler.{Fed, Assembler, init, feed, validate, text_at}
use ftre_agent_core.World.{
  Exc, World, Exec, pure, throw, ask_env, gets, ◌>>=◌, ◌>>◌, emit, set_context, set_run, when,
}
use ftre_agent_core.Env.{
  Env, StreamRun, StreamEnd, exhausted, stream_cancelled, stream_raised, ErrorDecision, no_decision,
  stop, decision_cancelled,
}
use ftre_agent_core.Runner.Acting.{or_empty, is_member, new_hint}

-- The local variables of an attempt.
pub record Collector : Type 0 where
  pub full_text : String
  pub full_reasoning : String
  pub tool_calls : List ToolCall
  pub finish_reason : String
  pub usage : Option Usage
  pub text_block_id : Option String
  pub thinking_block_id : Option String
  pub tool_call_started : List String
  pub assembler : Assembler

abbrev pub new_collector : Collector
new_collector = record {
  full_text = "";
  full_reasoning = "";
  tool_calls = [];
  finish_reason = "unknown";
  usage = none;
  text_block_id = none;
  thinking_block_id = none;
  tool_call_started = [];
  assembler = Assembler.init;
}

-- How an attempt ended: its stream is exhausted, cancelled, or an LLMError came.
pub data Ending : Type 0 where
  completed cancelled : Ending
  raised : LlmError → Ending

-- A usage with its three counts.
abbrev pub valid_usage : Option Usage → Option TokenUsage
valid_usage none = none
valid_usage (some u) = elim u.prompt_tokens [
  | none ↦ none
  | some p ↦ elim u.completion_tokens [
    | none ↦ none
    | some c ↦ elim u.total_tokens [
      | none ↦ none
      | some t ↦ some (record { prompt_tokens = p; completion_tokens = c; total_tokens = t })
    ]
  ]
]

abbrev pub add_usage : TokenUsage → RunState → RunState
add_usage u s = record s {
  token_usage = record {
    prompt_tokens = s.token_usage.prompt_tokens + u.prompt_tokens;
    completion_tokens = s.token_usage.completion_tokens + u.completion_tokens;
    total_tokens = s.token_usage.total_tokens + u.total_tokens;
  };
}

-- `reason.kind.upper()` of the two kinds that stand for a failure
abbrev pub failure_of : FinishReason → LlmError
failure_of reason = elim reason.failure [
  | some e ↦ e
  | none ↦ record {
    message = reason.kind;
    code = if reason.kind == "error" then "ERROR" else "ABORTED";
  }
]

abbrev pub is_failure : String → Bool
is_failure kind = kind == "error" || kind == "aborted"

-- LLMError.UNRETRYABLE_CODES
abbrev pub is_unretryable : String → Bool
is_unretryable code = code == "auth_error" || code == "bad_request" || code == "content_filter"

abbrev pub text_blocks : String → String → List ContentBlock
text_blocks id s =
    if s == "" then [] else text (record { text = s; id = id; finished_at = none }) ∷ []

abbrev pub thinking_blocks : String → String → List ContentBlock
thinking_blocks id s =
    if s == "" then [] else thinking (record { thinking = s; id = id; finished_at = none }) ∷ []

abbrev pub call_block : ToolCall → ContentBlock
call_block c = tool_call (record {
  id = c.id;
  name = c.name;
  arguments = or_empty c.input;
  state = pending;
  finished_at = none;
})

abbrev pub parse_arguments : (String → Option Fields) → String → Option Fields
parse_arguments loads arguments = if arguments == "" then some end else loads arguments

abbrev pub is_zero : ℕ → Bool
is_zero zero = true
is_zero (suc n) = false

-- A hint that is there and not empty.
abbrev pub given : Option String → Option String
given none = none
given (some s) = if s == "" then none else some s

module _ (env : Env) (reply_id : String) where
  abbrev pub yield_event : EventBody → Exec (Unit {0})
  yield_event body = emit env.now reply_id body

  -- `if text_block_id is not None`: the end event, and the id is forgotten
  unfoldable pub close_text : Collector → Exec Collector
  close_text c =
      when c.text_block_id (pure c)
        λ id. (do yield_event (text_block_end id); pure (record c { text_block_id = none }))

  unfoldable pub close_thinking : Collector → Exec Collector
  close_thinking c =
      when c.thinking_block_id (pure c)
        λ id. (do yield_event (thinking_block_end id); pure (record c { thinking_block_id = none }))

  unfoldable pub on_text : Collector → String → Exec Collector
  on_text c s =
      when c.text_block_id
        (do
          id ← ask_env env.fresh
          yield_event (text_block_start id)
          yield_event (text_block_delta id s)
          pure (record c { full_text = c.full_text <> s; text_block_id = some id }))
        λ id. (do
          yield_event (text_block_delta id s)
          pure (record c { full_text = c.full_text <> s }))

  unfoldable pub on_reasoning : Collector → String → Exec Collector
  on_reasoning c s =
      when c.thinking_block_id
        (do
          id ← ask_env env.fresh
          yield_event (thinking_block_start id)
          yield_event (thinking_block_delta id s)
          pure (record c { full_reasoning = c.full_reasoning <> s; thinking_block_id = some id }))
        λ id. (do
          yield_event (thinking_block_delta id s)
          pure (record c { full_reasoning = c.full_reasoning <> s }))

  -- ToolCallStart, the first time that the id is met
  unfoldable pub start_call : Collector → String → String → Exec Collector
  start_call c call_id name = if is_member call_id c.tool_call_started then pure c else (do
    yield_event (tool_call_start call_id name)
    pure (record c { tool_call_started = call_id ∷ c.tool_call_started }))

  unfoldable pub on_tool_delta : Collector → String → String → String → Exec Collector
  on_tool_delta c call_id name delta =
      if call_id == ""
      then pure c
      else (do c' ← start_call c call_id name; yield_event (tool_call_delta call_id delta); pure c')

  unfoldable pub on_tool_end : Collector → Fields → Exec Collector
  on_tool_end c block = do
    let call_id = text_at (get "id" block)
    let name = text_at (get "name" block)
    let arguments = text_at (get "arguments" block)
    c' ← start_call c call_id name
    yield_event (tool_call_end call_id arguments)
    pure (record c' {
      tool_calls =
          c'.tool_calls
          ++ record { id = call_id; name = name; input = parse_arguments env.loads arguments } ∷ [];
    })

  unfoldable pub on_block_end : Collector → Fields → Exec Collector
  on_block_end c block = do
    let type = text_at (get "type" block)
    if type == "tool-call"
        then on_tool_end c block
        else if type == "text"
        then close_text c
        else if type == "thinking"
        then close_thinking c
        else pure c

  unfoldable pub count_usage : Option TokenUsage → Exec (Unit {0})
  count_usage none = pure tt
  count_usage (some u) = set_run (add_usage u)

  unfoldable pub report_usage : FinishReason → Option TokenUsage → Exec (Unit {0})
  report_usage reason none = pure tt
  report_usage reason (some u) = yield_event (model_call_end u reason.kind reason.response_metadata)

  -- A finish of a kind that is no failure.
  unfoldable pub on_finish : Collector → FinishReason → Exec Collector
  on_finish c reason = do
    count_usage (valid_usage c.usage)
    c' ← close_text (record c { finish_reason = reason.kind })
    c'' ← close_thinking c'
    report_usage reason (valid_usage c.usage)
    pure c''

  -- The body of the loop, after `assembler.feed`, on a chunk that raises nothing.
  unfoldable pub on_chunk : Collector → Chunk → Exec Collector
  on_chunk c (block_start index block_type) = pure c
  on_chunk c (text_delta index s) = on_text c s
  on_chunk c (reasoning_delta index s) = on_reasoning c s
  on_chunk c (tool_call_delta index call_id name delta) = on_tool_delta c call_id name delta
  on_chunk c (block_end index block) = on_block_end c block
  on_chunk c (usage_chunk u) = pure (record c { usage = u })
  on_chunk c (finish_chunk reason) = on_finish c reason
  on_chunk c (unknown name) = pure c

  -- The error that a chunk raises once the assembler has taken it.
  abbrev pub chunk_error : Chunk → Option LlmError
  chunk_error (finish_chunk reason) =
      if is_failure reason.kind then some (failure_of reason) else none
  chunk_error _ = none

  abbrev pub end_of : StreamEnd → Collector → Ending
  end_of exhausted c = elim (validate c.assembler) [ Fed.ok _ ↦ completed | Fed.err e ↦ raised e ]
  end_of stream_cancelled c = cancelled
  end_of (stream_raised e) c = raised e

  -- One round of the loop, with what follows it.
  unfoldable pub take :
      (Collector → Exec (Collector × Ending))
      → Collector
      → Chunk
      → Fed Assembler
      → Exec (Collector × Ending)
  take rest c chunk (Fed.err e) = pure (c, raised e)
  take rest c chunk (Fed.ok assembler) =
      when (chunk_error chunk)
        (do c' ← on_chunk (record c { assembler = assembler }) chunk; rest c')
        λ e. pure (record c { assembler = assembler }, raised e)

  -- Phase 4 and the validation after it. What has been collected is kept whatever the ending.
  unfoldable pub consume : Collector → StreamEnd → List Chunk → Exec (Collector × Ending)
  consume c ending [] = pure (c, end_of ending c)
  consume c ending (chunk ∷ chunks) =
      let rest : Collector → Exec (Collector × Ending) = λ c'. consume c' ending chunks in
      take rest c chunk (feed c.assembler chunk)

  -- The half-finished output that a failed attempt leaves in the context.
  unfoldable pub write_partial : String → Collector → Exec (Unit {0})
  write_partial message_id c = do
    thinking_id ← ask_env env.fresh
    text_id ← ask_env env.fresh
    set_context (λ context.
        append_reply_blocks context message_id
          (thinking_blocks thinking_id c.full_reasoning ++ text_blocks text_id c.full_text))

  -- Phase 5: the calls of a truncated answer are dropped.
  abbrev pub kept_calls : Collector → List ToolCall
  kept_calls c = if c.finish_reason == "max-tokens" then [] else c.tool_calls

  unfoldable pub succeed : String → Collector → Exec (Option TurnResult)
  succeed message_id c = do
    thinking_id ← ask_env env.fresh
    text_id ← ask_env env.fresh
    set_context (λ context. append_reply_blocks context message_id (
        thinking_blocks thinking_id c.full_reasoning
        ++ (text_blocks text_id c.full_text ++ map call_block (kept_calls c))))
    pure (
        some (record {
          text = c.full_text;
          reasoning = c.full_reasoning;
          tool_calls = kept_calls c;
          finish_reason = c.finish_reason;
          error = none;
        }))

  abbrev pub failed_turn : LlmError → TurnResult
  failed_turn e = record {
    text = "";
    reasoning = "";
    tool_calls = [];
    finish_reason = "error";
    error = some e;
  }

  unfoldable pub answer_decision : ErrorDecision → Exec ErrorDecision
  answer_decision decision_cancelled = throw Exc.cancelled
  answer_decision decision = pure decision

  -- `_dispatch_llm_error`: with the run cancelled the hook is not asked
  unfoldable pub dispatch_llm_error : Exec ErrorDecision
  dispatch_llm_error = do
    set ← ask_env env.cancellation
    done ← gets (λ w. is_cancelled w.run.status)
    if done || set
        then pure no_decision
        else (do decision ← ask_env env.llm_error; answer_decision decision)

  -- Whether to try again, of the error, the last attempt's flag, the run's cancellation and the
  -- hook's decision.
  unfoldable pub should_retry : LlmError → Bool → Bool → ErrorDecision → Bool
  should_retry e is_last is_cancelled decision = not (is_last || is_cancelled) && elim decision [
    | ErrorDecision.retry ↦ true
    | stop ↦ false
    | _ ↦ not (is_unretryable e.code)
  ]

  -- An attempt that raised: `left` more attempts are left after it, and `again` makes them.
  unfoldable pub on_error :
      String → ℕ → ℕ → Exec (Option TurnResult) → Collector → LlmError → Exec (Option TurnResult)
  on_error message_id left attempt again collected e = do
    c ← close_text collected
    c' ← close_thinking c
    write_partial message_id c'
    decision ← dispatch_llm_error
    done ← gets (λ w. is_cancelled w.run.status)
    if should_retry e (is_zero left) done decision
        then (do
          yield_event (retry e.code e.message (suc attempt) (attempt + left))
          interrupted ← ask_env env.sleep_cancelled
          if interrupted then throw Exc.cancelled else again)
        else pure (some (failed_turn e))

  unfoldable pub on_cancel : String → Collector → Exec (Option TurnResult)
  on_cancel message_id collected = do
    c ← close_text collected
    c' ← close_thinking c
    write_partial message_id c'
    throw Exc.cancelled

  unfoldable pub ended :
      String → ℕ → ℕ → Exec (Option TurnResult) → Collector × Ending → Exec (Option TurnResult)
  ended message_id left attempt again (c, completed) = succeed message_id c
  ended message_id left attempt again (c, cancelled) = on_cancel message_id c
  ended message_id left attempt again (c, raised e) = on_error message_id left attempt again c e

  -- Phase 3: `left` attempts are left, and this is attempt number `attempt`, from 0. An exhausted
  -- range gives none: the code falls out of its loop there without a result.
  unfoldable pub attempts : String → ℕ → ℕ → Exec (Option TurnResult)
  attempts message_id zero attempt = pure none
  attempts message_id (suc left) attempt =
      let again = attempts message_id left (suc attempt) in
      do
        yield_event (model_call_start env.model)
        run ← ask_env env.llm_stream
        consumed ← consume new_collector run.ending run.chunks
        ended message_id left attempt again consumed

-- The `action.hint` of a turn.
unfoldable pub add_hint : Env → String → String → Option String → Exec (Unit {0})
add_hint env reply_id message_id none = pure tt
add_hint env reply_id message_id (some prompt) = do
  id ← ask_env env.fresh
  set_context (λ c. append_reply_blocks c message_id (hint (new_hint id "system" prompt) ∷ []))
  emit env.now reply_id (hint_block id (some "system") (plain prompt))

-- ReasoningExecutor.stream; the result is `self.result`
unfoldable pub reason : Env → Reasoning → Exec (Option TurnResult)
reason env action = do
  reply_id ← gets (λ w. w.run.reply_id)
  message_id ← gets (λ w. or_text w.run.message_id w.run.reply_id)
  add_hint env reply_id message_id (given action.hint)
  attempts env reply_id message_id (suc env.max_retries) 0
