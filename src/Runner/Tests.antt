-- ===== src/Runner/Tests.antt =====
-- The runner (src/ftre_agent_core/agent/runner) in a concrete environment: a model that answers
-- with one tool call and then with nothing, a tool that echoes, and a host that always wants more.
use ftre_agent_core.Prelude.{
  ℕ, Option, ◌+◌, ◌≤◌, ◌≡◌, ◌↔◌, refl, some, none, true, false, ◌||◌, [], ◌∷◌, arith, ◌==◌,
}
use ftre_agent_core.Message.{asking, tool_call, assistant}
use ftre_agent_core.Context.{Context, new_msg}
use ftre_agent_core.Runner.Run.{Confirmation, text_input, confirmation, accept_confirmation, run}
use ftre_agent_core.Runner.Run.Laws.{Accepts, accept_confirmation-Accepts}
use ftre_agent_core.Runner.Run.Termination.{run-HasEnded}
use ftre_agent_core.Runner.Run.Settled.{IsOver, run-IsOver}
use ftre_agent_core.Json.{str, end, field}
use ftre_agent_core.Message.{ReplyFinishedReason}
use ftre_agent_core.Permission.{PermissionBehavior, allow, PyText}
use ftre_agent_core.Runner.{RunState, ToolCall, TurnResult, Exit, acting, running, no_tokens}
use ftre_agent_core.Handler.{ToolWorld, returned_text, other, allow, spawn_all, gather_results}
use ftre_agent_core.Handler.Laws.{run_each, gather_results-each}
use ftre_agent_core.Llm.{block_start, block_end, finish_chunk}
use ftre_agent_core.World.{World, Exec, ok, err, failed}
use ftre_agent_core.Llm.Errors.{Failure, classify}
use ftre_agent_core.Llm.Errors.Laws.{on_error-classify}
use ftre_agent_core.Runner.ReasoningExecutor.{on_error, new_collector}
use ftre_agent_core.Env.{Env, exhausted, messages, continue_turn, no_decision, StreamRun}
use ftre_agent_core.Runner.Decide.{decide}
use ftre_agent_core.Runner.Decide.Laws.{Asks, IsAnswer, is_finish, decide-Means}
use ftre_agent_core.Runner.Acting.{act}
use ftre_agent_core.Runner.Acting.Pause.{IsGated, act-IsGated}
use ftre_agent_core.Runner.ExitExecutor.{exit_stream}
use ftre_agent_core.Runner.ExitExecutor.Outcome.{Outcome, exit_stream-Outcome}
use ftre_agent_core.Runner.Loop.{run_loop}
use ftre_agent_core.Runner.Loop.Counters.{counters, IsFresh}
use ftre_agent_core.Runner.Loop.Bound.{run_loop-bound}
use ftre_agent_core.Runner.Loop.Termination.{HasEnded}

abbrev echo : ToolWorld
echo = record {
  before = λ moment call. allow;
  invoke = λ moment name args. returned_text name end;
  after = λ moment result. other;
}

abbrev asks_once : ℕ → StreamRun
asks_once moment = record {
  chunks =
      block_start 0 "tool-call"
      ∷ block_end 0 (field "id" (str "c1") (field "name" (str "read") end))
      ∷ finish_chunk (record { kind = "tool-calls"; failure = none; response_metadata = end })
      ∷ [];
  ending = exhausted;
}

abbrev literal_text : PyText
literal_text = record {
  text_of = λ v. elim v [ str s ↦ s | _ ↦ "" ];
  fullmatch = λ pattern text. some (pattern == text);
}

abbrev test_env : Env
test_env = record {
  now = λ moment. "now";
  fresh = λ moment. "id";
  raw_ids = λ moment i j. "raw";
  cancellation = λ moment. false;
  tools = echo;
  gather_cancelled = λ moment. false;
  before_reasoning = λ moment. messages [];
  stop_decision = λ moment. continue_turn "more";
  llm_stream = asks_once;
  llm_error = λ moment. no_decision;
  sleep_cancelled = λ moment. false;
  model = "test";
  max_retries = 1;
  py = literal_text;
  codec = record { loads = λ s. none; dumps = λ v. ""; text_of = λ v. ""; read_base64 = λ s. none };
  loads = λ s. some end;
  text_of_parts = λ parts. "";
}

abbrev fresh_state : RunState
fresh_state = record {
  status = running;
  iteration = 0;
  done_reason = none;
  error = none;
  error_code = none;
  runtime_context = record {
    max_iterations = some 2;
    session_id = "s";
    turn_id = "t";
    continuation_count = 0;
    max_continuations = 1;
  };
  reply_id = "r";
  message_id = "m";
  turn_id = "t";
  empty_retries = 0;
  in_finalization = false;
  token_usage = no_tokens;
}

abbrev start_world : World
start_world = record {
  context = [];
  permission = record { permission_rules = []; default_behavior = PermissionBehavior.allow };
  run = fresh_state;
  events = [];
  spawned = [];
  moment = 0;
  busy = true;
}

abbrev read_call : ToolCall
read_call = record { id = "c1"; name = "read"; input = some end }

abbrev write_call : ToolCall
write_call = record { id = "c2"; name = "write"; input = none }

abbrev fresh_counters : IsFresh 2 (counters fresh_state)
fresh_counters = record { limit = refl; no_turns = refl; no_retries = refl; not_final = refl }

abbrev calling : TurnResult
calling = record {
  text = "";
  reasoning = "";
  tool_calls = read_call ∷ [];
  finish_reason = "tool-calls";
  error = none;
}

abbrev completed_exit : Exit
completed_exit = record {
  finished_reason = ReplyFinishedReason.completed;
  error = none;
  error_code = none;
}

run_loop-bound_example : (run_loop test_env 20 start_world).1.run.iteration ≤ 2 + 3
run_loop-bound_example = run_loop-bound 2 test_env 20 start_world fresh_counters

act-IsGated_example :
    IsGated test_env
      (read_call ∷ write_call ∷ [])
      start_world
      (act test_env (read_call ∷ write_call ∷ []) start_world).1
act-IsGated_example =
    act-IsGated test_env (read_call ∷ write_call ∷ []) start_world ((refl, tt), (tt, tt))

exit_stream-Outcome_example :
    Outcome test_env completed_exit start_world (exit_stream test_env completed_exit start_world)
exit_stream-Outcome_example = exit_stream-Outcome test_env completed_exit start_world

decide-Means_example :
    (((decide fresh_state (some calling)).0 ≡ acting calling.tool_calls)
      ↔ Asks (some calling) calling.tool_calls)
    × ((is_finish (decide fresh_state (some calling)).0 ≡ true) ↔ IsAnswer (some calling))
decide-Means_example = decide-Means fresh_state (some calling) calling.tool_calls

gather_results-each_example :
    (gather_results
      (read_call ∷ write_call ∷ [])
      (spawn_all echo 0 [] (read_call ∷ write_call ∷ []))
      false
      true).0
    ≡ run_each echo (false || true) 0 (read_call ∷ write_call ∷ [])
gather_results-each_example =
    gather_results-each echo 0 (read_call ∷ write_call ∷ []) false true ((refl, tt), (tt, tt))

-- A conversation whose one tool call awaits its confirmation.
abbrev waiting_context : Context
waiting_context =
    new_msg "m" assistant (
      tool_call
        (record { id = "c1"; name = "read"; arguments = end; state = asking; finished_at = none })
      ∷ [])
    ∷ []

abbrev waiting_world : World
waiting_world = record start_world { context = waiting_context; busy = false }

abbrev approval : Confirmation
approval = record { reply_id = "r"; tool_call_id = "c1"; approved = true }

accept_confirmation-Accepts_example :
    Accepts approval waiting_world (accept_confirmation approval waiting_world)
accept_confirmation-Accepts_example = accept_confirmation-Accepts approval waiting_world

run-IsOver_example :
    IsOver test_env
      (run test_env 40 fresh_state.runtime_context (confirmation approval) waiting_world)
run-IsOver_example =
    run-IsOver test_env 40 fresh_state.runtime_context (confirmation approval) waiting_world

abbrev idle_world : World
idle_world = record start_world { busy = false }

run-HasEnded_example :
    HasEnded (run test_env 13 fresh_state.runtime_context (text_input "hello") idle_world)
run-HasEnded_example =
    run-HasEnded 2 1 test_env 13 fresh_state.runtime_context (text_input "hello") idle_world tt refl
      refl (omega arith)

-- A model call that was refused for a payment.
abbrev unpaid : Failure
unpaid = record {
  is_a = λ s. s == "APIError";
  code = none;
  status_code = none;
  response_status = some 402;
  message = "Payment required";
  message_lower = "payment required";
}

-- Another attempt, which raises, or gives nothing.
abbrev raises : Exec (Option TurnResult)
raises w = (err (failed "tried again"), w)

abbrev gives_none : Exec (Option TurnResult)
gives_none w = (ok none, w)

on_error-classify_example :
    on_error test_env "r" "m" 2 0 raises new_collector (classify unpaid) start_world
    ≡ on_error test_env "r" "m" 2 0 gives_none new_collector (classify unpaid) start_world
on_error-classify_example =
    on_error-classify test_env "r" "m" 2 0 raises gives_none new_collector unpaid start_world refl
      refl (λ moment h. absurd (ground (arith, h)))
