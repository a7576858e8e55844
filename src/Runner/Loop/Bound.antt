-- ===== src/Runner/Loop/Bound.antt =====
-- The number of turns of a run (src/ftre_agent_core/agent/runner/react_runner.py, `_loop`).
use ftre_agent_core.Prelude.{ℕ, zero, suc, ◌+◌, ◌≤◌, Option, none, Bool, List, [], arith}
use ftre_agent_core.Runner.{
  RunStatus, RunState, ToolCall, TurnResult, Action, reasoning, acting, exit,
}
use ftre_agent_core.World.{Exc, Result, ok, err, World, Exec, ◌>>=◌, set_run, emit_plain}
use ftre_agent_core.World.Keeps.{Keeps, Keeps-bind, Keeps-set_run, keeps_rules}
use ftre_agent_core.Env.{Env}
use ftre_agent_core.Runner.Decide.{decide}
use ftre_agent_core.Runner.ExitExecutor.{count_up}
use ftre_agent_core.Runner.Loop.{
  LoopEnd, count_iteration, do_reasoning, choose, after_acting, after_exit, perform, loop,
  catch_internal, run_loop,
}
use ftre_agent_core.Runner.Loop.Counters.{
  counters, IsFresh, IsFresh-IsWithin, IsWithin, Fits, iteration-bound, decide-IsFit,
  reason_turn-Keeps, do_acting-Keeps, exit-Keeps,
}

module _ (n : ℕ) (env : Env) where
  abbrev Bounded : RunState → List ToolCall → Type 0
  Bounded s calls = IsWithin n 0 (counters s)

  count_up-Bounded : (s : RunState) → Bounded s [] → Bounded (count_up env s) []
  count_up-Bounded s h = record { limit = h.limit; turns = h.turns; retries = h.retries }

  paused-Keeps :
      (u : Unit {0}) → Keeps Bounded (set_run λ s. record s { status = RunStatus.paused })
  paused-Keeps u = Keeps-set_run Bounded _ λ s l h. h

  module _ (rest : Option TurnResult → Exec LoopEnd)
      (k : (prev : Option TurnResult) → Keeps Bounded (rest prev)) where
    after_acting-Keeps : (asked : Bool) → Keeps Bounded (after_acting env rest asked)
    unfolding after_acting
    after_acting-Keeps asked = search (keeps_rules, k, paused-Keeps) depth 12

    after_exit-Keeps : (more : Bool) → Keeps Bounded (after_exit env rest more)
    unfolding after_exit
    after_exit-Keeps more = search (keeps_rules, k) depth 12

    perform-at : (a : Action) (w : World) → Fits n a w.run → Bounded (perform env rest a w).1.run []
    unfolding perform do_reasoning ◌>>=◌ set_run
    perform-at (acting calls) w h =
        (Keeps-bind Bounded _ _ (do_acting-Keeps (IsWithin n 0) env calls) after_acting-Keeps).at w
          h
    perform-at (exit x) w h =
        (Keeps-bind Bounded _ _ (exit-Keeps (IsWithin n 0) env count_up-Bounded x)
            after_exit-Keeps).at
          w h
    perform-at (reasoning r) w h =
        let counted : Bounded (count_iteration w.run) [] = record {
          limit = h.limit;
          turns = omega (arith, h.turns);
          retries = h.retries;
        } in
        (Keeps-bind Bounded _ _ (reason_turn-Keeps (IsWithin n 0) env r) k).at
          (record w { run = count_iteration w.run }) counted

  loop-Keeps : (fuel : ℕ) (prev : Option TurnResult) → Keeps Bounded (loop env fuel prev)
  unfolding loop choose ◌>>=◌
  loop-Keeps zero prev = search keeps_rules
  loop-Keeps (suc fuel) prev = record {
    at = λ w h.
        perform-at (loop env fuel) (loop-Keeps fuel) (decide w.run prev).0
          (record w { run = (decide w.run prev).1 }) (decide-IsFit n w.run prev h);
  }

  catch_internal-Keeps :
      (r : Result LoopEnd × World) → Bounded r.1.run [] → Bounded (catch_internal env r).1.run []
  unfolding catch_internal set_run emit_plain ◌>>=◌
  catch_internal-Keeps (ok e, w) h = h
  catch_internal-Keeps (err Exc.internal_cancelled, w) h = h
  catch_internal-Keeps (err Exc.cancelled, w) h = h
  catch_internal-Keeps (err (Exc.failed s), w) h = h

  -- A run with max_iterations n that starts with its counters at 0 never counts more than n + 3
  -- turns of the model, however it ends and whatever its environment answers: the empty responses
  -- may add two, and the finalization one.
  pub run_loop-bound :
      (fuel : ℕ) (w : World)
      → IsFresh n (counters w.run)
      → (run_loop env fuel w).1.run.iteration ≤ n + 3
  unfolding run_loop
  run_loop-bound fuel w fresh =
      let start = IsFresh-IsWithin n (counters w.run) fresh in
      let end = catch_internal-Keeps (loop env fuel none w) ((loop-Keeps fuel none).at w start) in
      iteration-bound n _ end
