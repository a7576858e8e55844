-- ===== src/Runner/ReasoningExecutor/Attempts.antt =====
-- A model call touches the run's state in its token counts only
-- (src/ftre_agent_core/agent/runner/_execute_reasoning.py).
use ftre_agent_core.Prelude.{ℕ, zero, suc, String, Option, none, some, List, [], ◌∷◌}
use ftre_agent_core.Json.{Fields}
use ftre_agent_core.Message.{TokenUsage}
use ftre_agent_core.Runner.{RunState, ToolCall, LlmError, TurnResult, Reasoning}
use ftre_agent_core.Llm.{
  FinishReason, Chunk, block_start, text_delta, reasoning_delta, tool_call_delta, block_end,
  usage_chunk, finish_chunk, unknown,
}
use ftre_agent_core.Llm.Assembler.{Fed, Assembler, feed}
use ftre_agent_core.World.{Exec}
use ftre_agent_core.World.Keeps.{Keeps, Keeps-set_run, keeps_rules}
use ftre_agent_core.Env.{
  Env, StreamEnd, ErrorDecision, no_decision, retry, stop, decision_cancelled,
}
use ftre_agent_core.Runner.ReasoningExecutor.{
  Collector, Ending, completed, cancelled, raised, add_usage, close_text, close_thinking, on_text,
  on_reasoning, start_call, on_tool_delta, on_tool_end, on_block_end, count_usage, report_usage,
  on_finish, on_chunk, take, consume, write_partial, succeed, answer_decision, dispatch_llm_error,
  on_cancel, on_error, ended, attempts, add_hint, reason,
}

module _ (Q : RunState → List ToolCall → Type 0)
    (counted : (u : TokenUsage) (s : RunState) (l : List ToolCall) → Q s l → Q (add_usage u s) l)
    (env : Env) where
  module _ (reply_id : String) where
    close_text-Keeps : (c : Collector) → Keeps Q (close_text env reply_id c)
    unfolding close_text
    close_text-Keeps c = search keeps_rules depth 14

    close_thinking-Keeps : (c : Collector) → Keeps Q (close_thinking env reply_id c)
    unfolding close_thinking
    close_thinking-Keeps c = search keeps_rules depth 14

    on_text-Keeps : (c : Collector) (s : String) → Keeps Q (on_text env reply_id c s)
    unfolding on_text
    on_text-Keeps c s = search keeps_rules depth 14

    on_reasoning-Keeps : (c : Collector) (s : String) → Keeps Q (on_reasoning env reply_id c s)
    unfolding on_reasoning
    on_reasoning-Keeps c s = search keeps_rules depth 14

    start_call-Keeps :
        (c : Collector) (id name : String) → Keeps Q (start_call env reply_id c id name)
    unfolding start_call
    start_call-Keeps c id name = search keeps_rules depth 12

    on_tool_delta-Keeps :
        (c : Collector) (id name delta : String)
        → Keeps Q (on_tool_delta env reply_id c id name delta)
    unfolding on_tool_delta
    on_tool_delta-Keeps c id name delta = search (keeps_rules, start_call-Keeps) depth 12

    on_tool_end-Keeps : (c : Collector) (b : Fields) → Keeps Q (on_tool_end env reply_id c b)
    unfolding on_tool_end
    on_tool_end-Keeps c b = search (keeps_rules, start_call-Keeps) depth 12

    on_block_end-Keeps : (c : Collector) (b : Fields) → Keeps Q (on_block_end env reply_id c b)
    unfolding on_block_end
    on_block_end-Keeps c b =
        search (keeps_rules, on_tool_end-Keeps, close_text-Keeps, close_thinking-Keeps) depth 12

    count_usage-Keeps : (u : Option TokenUsage) → Keeps Q (count_usage env reply_id u)
    unfolding count_usage
    count_usage-Keeps none = search keeps_rules
    count_usage-Keeps (some u) = Keeps-set_run Q (add_usage u) (counted u)

    report_usage-Keeps :
        (reason : FinishReason) (u : Option TokenUsage)
        → Keeps Q (report_usage env reply_id reason u)
    unfolding report_usage
    report_usage-Keeps reason none = search keeps_rules
    report_usage-Keeps reason (some u) = search keeps_rules

    on_finish-Keeps :
        (c : Collector) (reason : FinishReason) → Keeps Q (on_finish env reply_id c reason)
    unfolding on_finish
    on_finish-Keeps c reason =
        search
          (
            keeps_rules, count_usage-Keeps, report_usage-Keeps, close_text-Keeps,
            close_thinking-Keeps,
          )
          depth 14

    on_chunk-Keeps : (c : Collector) (chunk : Chunk) → Keeps Q (on_chunk env reply_id c chunk)
    unfolding on_chunk
    on_chunk-Keeps c (block_start index type) = search keeps_rules
    on_chunk-Keeps c (text_delta index s) = on_text-Keeps c s
    on_chunk-Keeps c (reasoning_delta index s) = on_reasoning-Keeps c s
    on_chunk-Keeps c (tool_call_delta index id name delta) = on_tool_delta-Keeps c id name delta
    on_chunk-Keeps c (block_end index block) = on_block_end-Keeps c block
    on_chunk-Keeps c (usage_chunk u) = search keeps_rules
    on_chunk-Keeps c (finish_chunk reason) = on_finish-Keeps c reason
    on_chunk-Keeps c (unknown name) = search keeps_rules

    take-Keeps :
        (rest : Collector → Exec (Collector × Ending)) (c : Collector) (chunk : Chunk)
        (fed : Fed Assembler)
        → ((c' : Collector) → Keeps Q (rest c'))
        → Keeps Q (take env reply_id rest c chunk fed)
    unfolding take
    take-Keeps rest c chunk (Fed.err e) k = search keeps_rules
    take-Keeps rest c chunk (Fed.ok assembler) k = search (keeps_rules, on_chunk-Keeps) depth 12

    consume-Keeps :
        (c : Collector) (ending : StreamEnd) (chunks : List Chunk)
        → Keeps Q (consume env reply_id c ending chunks)
    unfolding consume
    consume-Keeps c ending [] = search keeps_rules
    consume-Keeps c ending (chunk ∷ chunks) =
        take-Keeps _ c chunk (feed c.assembler chunk) λ c'. consume-Keeps c' ending chunks

    write_partial-Keeps :
        (message_id : String) (c : Collector) → Keeps Q (write_partial env reply_id message_id c)
    unfolding write_partial
    write_partial-Keeps message_id c = search keeps_rules depth 12

    succeed-Keeps :
        (message_id : String) (c : Collector) → Keeps Q (succeed env reply_id message_id c)
    unfolding succeed
    succeed-Keeps message_id c = search keeps_rules depth 12

    answer_decision-Keeps : (d : ErrorDecision) → Keeps Q (answer_decision env reply_id d)
    unfolding answer_decision
    answer_decision-Keeps decision_cancelled = search keeps_rules
    answer_decision-Keeps no_decision = search keeps_rules
    answer_decision-Keeps retry = search keeps_rules
    answer_decision-Keeps stop = search keeps_rules

    dispatch_llm_error-Keeps : (u : Unit {0}) → Keeps Q (dispatch_llm_error env reply_id)
    unfolding dispatch_llm_error
    dispatch_llm_error-Keeps u = search (keeps_rules, answer_decision-Keeps) depth 12

    on_cancel-Keeps :
        (message_id : String) (c : Collector) → Keeps Q (on_cancel env reply_id message_id c)
    unfolding on_cancel
    on_cancel-Keeps message_id c =
        search (keeps_rules, close_text-Keeps, close_thinking-Keeps, write_partial-Keeps) depth 12

    on_error-Keeps :
        (message_id : String) (left attempt : ℕ) (again : Exec (Option TurnResult)) (c : Collector)
        (e : LlmError)
        → ((u : Unit {0}) → Keeps Q again)
        → Keeps Q (on_error env reply_id message_id left attempt again c e)
    unfolding on_error
    on_error-Keeps message_id left attempt again c e k =
        search
          (
            keeps_rules, k, close_text-Keeps, close_thinking-Keeps, write_partial-Keeps,
            dispatch_llm_error-Keeps,
          )
          depth 16

    ended-Keeps :
        (message_id : String) (left attempt : ℕ) (again : Exec (Option TurnResult))
        (result : Collector × Ending)
        → Keeps Q again
        → Keeps Q (ended env reply_id message_id left attempt again result)
    unfolding ended
    ended-Keeps message_id left attempt again (c, completed) k = succeed-Keeps message_id c
    ended-Keeps message_id left attempt again (c, cancelled) k = on_cancel-Keeps message_id c
    ended-Keeps message_id left attempt again (c, raised e) k =
        on_error-Keeps message_id left attempt again c e λ _. k

    attempts-Keeps :
        (message_id : String) (left attempt : ℕ)
        → Keeps Q (attempts env reply_id message_id left attempt)
    unfolding attempts
    attempts-Keeps message_id zero attempt = search keeps_rules
    attempts-Keeps message_id (suc left) attempt =
        let rest : (result : Collector × Ending) → Keeps Q _ = λ result.
          ended-Keeps message_id left attempt (attempts env reply_id message_id left (suc attempt))
            result (attempts-Keeps message_id left (suc attempt)) in
        search (keeps_rules, consume-Keeps, rest) depth 12

  add_hint-Keeps :
      (reply_id message_id : String) (prompt : Option String)
      → Keeps Q (add_hint env reply_id message_id prompt)
  unfolding add_hint
  add_hint-Keeps reply_id message_id none = search keeps_rules
  add_hint-Keeps reply_id message_id (some prompt) = search keeps_rules depth 12

  -- A turn of the model, all its attempts included, keeps what the token counts do not touch.
  pub reason-Keeps : (r : Reasoning) → Keeps Q (reason env r)
  unfolding reason
  reason-Keeps r = search (keeps_rules, add_hint-Keeps, attempts-Keeps) depth 12
