-- ===== src/Runner/Acting/Batch.antt =====
-- The acting executor never changes the run's state
-- (src/ftre_agent_core/agent/runner/_execute_acting.py).
use ftre_agent_core.Prelude.{String, Option, none, some, Bool, List, [], ◌∷◌, ◌++◌}
use ftre_agent_core.Runner.{RunState, ToolCall}
use ftre_agent_core.Handler.{ToolResult, ToolEvent, lookup}
use ftre_agent_core.World.Keeps.{
  Keeps, Keeps-bind, Keeps-then, Keeps-ask_env, Keeps-emit, Keeps-set_context, keeps_rules,
}
use ftre_agent_core.Env.{Env}
use ftre_agent_core.Runner.Acting.{
  Verdict, ask_for, pause_calls, write_result, write_results, write_hints, write_gathered,
  run_tools, execute_calls, act, deny_call, deny_calls, execute_some, resume_execute,
}

module _ (Q : RunState → List ToolCall → Type 0) (env : Env) where
  ask_for-Keeps :
      (reply_id : String) (call : ToolCall) (v : Option Verdict)
      → Keeps Q (ask_for env reply_id call v)
  unfolding ask_for
  ask_for-Keeps reply_id call none = search keeps_rules
  ask_for-Keeps reply_id call (some v) = search keeps_rules depth 12

  write_result-Keeps :
      (reply_id message_id : String) (call : ToolCall) (r : ToolResult)
      → Keeps Q (write_result env reply_id message_id call r)
  unfolding write_result
  write_result-Keeps reply_id message_id call r = search keeps_rules depth 12

  write_results-Keeps :
      (reply_id message_id : String) (calls : List ToolCall) (rs : List ToolResult)
      → Keeps Q (write_results env reply_id message_id calls rs)
  unfolding write_results
  write_results-Keeps reply_id message_id [] rs = search keeps_rules
  write_results-Keeps reply_id message_id (call ∷ calls) [] = search keeps_rules
  write_results-Keeps reply_id message_id (call ∷ calls) (r ∷ rs) =
      Keeps-then Q _ _ (write_result-Keeps reply_id message_id call r)
        (write_results-Keeps reply_id message_id calls rs)

  write_hints-Keeps :
      (reply_id message_id : String) (es : List ToolEvent)
      → Keeps Q (write_hints env reply_id message_id es)
  unfolding write_hints
  write_hints-Keeps reply_id message_id [] = search keeps_rules
  write_hints-Keeps reply_id message_id (e ∷ es) = Keeps-bind Q _ _ (Keeps-ask_env Q _) λ id.
      Keeps-bind Q _ _ (Keeps-set_context Q _)
        λ _. Keeps-bind Q _ _ (Keeps-emit Q _ _ _) λ _. write_hints-Keeps reply_id message_id es

  pub pause_calls-Keeps :
      (reply_id : String) (verdicts : List (String × Verdict)) (calls : List ToolCall)
      → Keeps Q (pause_calls env reply_id verdicts calls)
  unfolding pause_calls
  pause_calls-Keeps reply_id verdicts [] = search keeps_rules
  pause_calls-Keeps reply_id verdicts (call ∷ calls) =
      Keeps-then Q _ _ (ask_for-Keeps reply_id call (lookup call.id verdicts))
        (pause_calls-Keeps reply_id verdicts calls)

  deny_call-Keeps :
      (reply_id message_id : String) (call : ToolCall)
      → Keeps Q (deny_call env reply_id message_id call)
  unfolding deny_call
  deny_call-Keeps reply_id message_id call = search keeps_rules depth 12

  deny_calls-Keeps :
      (reply_id message_id : String) (calls : List ToolCall)
      → Keeps Q (deny_calls env reply_id message_id calls)
  unfolding deny_calls
  deny_calls-Keeps reply_id message_id [] = search keeps_rules
  deny_calls-Keeps reply_id message_id (call ∷ calls) =
      Keeps-then Q _ _ (deny_call-Keeps reply_id message_id call)
        (deny_calls-Keeps reply_id message_id calls)

  pub written-Keeps :
      (reply_id message_id : String) (calls : List ToolCall) (gathered : List ToolResult × Bool)
      → Keeps Q (write_gathered env reply_id message_id calls gathered)
  unfolding write_gathered
  written-Keeps reply_id message_id calls gathered =
      search (keeps_rules, write_results-Keeps, write_hints-Keeps) depth 12

-- What growing the list of spawned calls keeps too.
module _ (Q : RunState → List ToolCall → Type 0)
    (grown : (s : RunState) (l calls : List ToolCall) → Q s l → Q s (l ++ calls)) (env : Env) where
  run_tools-Keeps : (calls : List ToolCall) → Keeps Q (run_tools env calls)
  unfolding run_tools
  run_tools-Keeps calls = record { at = λ w h. grown w.run w.spawned calls h }

  execute_calls-Keeps : (calls : List ToolCall) → Keeps Q (execute_calls env calls)
  unfolding execute_calls
  execute_calls-Keeps calls = search (keeps_rules, run_tools-Keeps, written-Keeps Q env) depth 12

  -- A batch of calls, run or held back, leaves the run's state as it was.
  pub act-Keeps : (calls : List ToolCall) → Keeps Q (act env calls)
  unfolding act
  act-Keeps calls = search (keeps_rules, execute_calls-Keeps, pause_calls-Keeps Q env) depth 12

  execute_some-Keeps : (calls : List ToolCall) → Keeps Q (execute_some env calls)
  unfolding execute_some
  execute_some-Keeps [] = search keeps_rules
  execute_some-Keeps (call ∷ calls) = execute_calls-Keeps (call ∷ calls)

  -- Nor does a resumption.
  pub resume_execute-Keeps : Keeps Q (resume_execute env)
  unfolding resume_execute
  resume_execute-Keeps = search (keeps_rules, execute_some-Keeps, deny_calls-Keeps Q env) depth 12
