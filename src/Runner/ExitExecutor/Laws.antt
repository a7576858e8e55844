-- ===== src/Runner/ExitExecutor/Laws.antt =====
-- What an exit does to the run (src/ftre_agent_core/agent/runner/_execute_acting.py).
use ftre_agent_core.Prelude.{String, List}
use ftre_agent_core.Runner.{RunState, ToolCall, Exit}
use ftre_agent_core.World.{◌>>=◌, set_run, set_context, emit}
use ftre_agent_core.World.Keeps.{Keeps, Keeps-set_run, keeps_rules}
use ftre_agent_core.Env.{Env, StopDecision, stop_turn, continue_turn, stop_raised}
use ftre_agent_core.Runner.ExitExecutor.{finalize, leave, count_up, go_on, after_stop, exit_stream}

-- What neither the ending of a run nor the count of its continuations touches.
module _ (Q : RunState → List ToolCall → Type 0)
    (finalized : (x : Exit) (s : RunState) (l : List ToolCall) → Q s l → Q (finalize x s) l)
    (env : Env) (counted : (s : RunState) (l : List ToolCall) → Q s l → Q (count_up env s) l) where
  finalize-Keeps : (x : Exit) → Keeps Q (set_run (finalize x))
  finalize-Keeps x = Keeps-set_run Q (finalize x) (finalized x)

  leave-Keeps : (x : Exit) → Keeps Q (leave env x)
  unfolding leave
  leave-Keeps x = search (keeps_rules, finalize-Keeps) depth 12

  go_on-Keeps : (prompt : String) → Keeps Q (go_on env prompt)
  unfolding go_on ◌>>=◌ set_run set_context emit
  go_on-Keeps prompt = record { at = λ w h. counted w.run w.spawned h }

  after_stop-Keeps : (x : Exit) (d : StopDecision) → Keeps Q (after_stop env x d)
  unfolding after_stop
  after_stop-Keeps x stop_turn = leave-Keeps x
  after_stop-Keeps x (stop_raised e) = search keeps_rules
  after_stop-Keeps x (continue_turn prompt) =
      search (keeps_rules, leave-Keeps, go_on-Keeps) depth 12

  pub exit_stream-Keeps : (x : Exit) → Keeps Q (exit_stream env x)
  unfolding exit_stream
  exit_stream-Keeps x = search (keeps_rules, leave-Keeps, after_stop-Keeps) depth 12
