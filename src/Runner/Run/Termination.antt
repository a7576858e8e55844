-- ===== src/Runner/Run/Termination.antt =====
-- A new message is answered in finitely many rounds
-- (src/ftre_agent_core/agent/runner/react_runner.py, ReActRunner.run).
use ftre_agent_core.Prelude.{
  ℕ, suc, ◌+◌, ◌*◌, ◌<◌, String, ◌≡◌, refl, some, Bool, true, false, List, arith, if◌then◌else◌,
}
use ftre_agent_core.Runner.{RunState, RuntimeContext, ToolCall, start}
use ftre_agent_core.World.{
  Exc, Result, ok, err, World, Exec, pure, throw, ask_env, gets, ◌>>=◌, set_run, emit_plain,
  continue,
}
use ftre_agent_core.World.Keeps.{Keeps, Keeps-set_run, keeps_rules}
use ftre_agent_core.Env.{Env}
use ftre_agent_core.Runner.Loop.{LoopEnd, out_of_fuel, paused, ended, run_loop}
use ftre_agent_core.Runner.Loop.Counters.{Counters, counters, IsFresh, add_messages-Keeps}
use ftre_agent_core.Runner.Loop.Termination.{HasEnded, run_loop-HasEnded}
use ftre_agent_core.Runner.Run.{
  Input, text_input, messages_input, confirmation, is_awaiting, set_busy, add_input, write_input,
  begin_reply, prepare_new_reply, end_reply, handle, guarded, reply, run,
}

-- A new message, not a confirmation.
abbrev pub IsMessage : Input → Type 0
IsMessage (text_input content) = Unit {0}
IsMessage (messages_input l) = Unit {0}
IsMessage (confirmation c) = ⊥

-- The counters of a new run with at most n turns and m continuations.
record IsNew (n m : ℕ) (c : Counters) : Type 0 where
  pub fresh : IsFresh n c
  pub most : c.most_continuations ≡ m

module _ (n m : ℕ) (env : Env) where
  New : RunState → List ToolCall → Type 0
  New s calls = IsNew n m (counters s)

  add_input-Keeps : (input : Input) → Keeps New (add_input env input)
  unfolding add_input New
  add_input-Keeps (text_input content) = search keeps_rules depth 12
  add_input-Keeps (messages_input l) = add_messages-Keeps (IsNew n m) env l
  add_input-Keeps (confirmation c) = search keeps_rules

  set_ids-Keeps :
      (reply_id message_id : String)
      → Keeps New (set_run λ s. record s { reply_id = reply_id; message_id = message_id })
  unfolding New
  set_ids-Keeps reply_id message_id =
      Keeps-set_run New _ λ s l h. record { fresh = h.fresh; most = h.most }

  write_input-Keeps : (input : Input) → Keeps New (write_input env input)
  unfolding write_input
  write_input-Keeps input = search (keeps_rules, add_input-Keeps, set_ids-Keeps) depth 12

  -- A reply that was not refused starts with its counters at 0.
  IsPrepared : Result (Unit {0}) × World → Type 0
  IsPrepared (ok u, v) = IsNew n m (counters v.run)
  IsPrepared (err e, v) = Unit {0}

  IsPrepared-of_New : (p : Result (Unit {0}) × World) → IsNew n m (counters p.1.run) → IsPrepared p
  unfolding IsPrepared
  IsPrepared-of_New (ok u, v) h = h
  IsPrepared-of_New (err e, v) h = tt

  started-IsNew :
      (context : RuntimeContext) (w : World)
      → context.max_iterations ≡ some n
      → context.max_continuations ≡ m
      → New (start (env.fresh w.moment) (record w.run { runtime_context = context })) w.spawned
  unfolding start New
  started-IsNew context w limit most = record {
    fresh = record { limit = limit; no_turns = refl; no_retries = refl; not_final = refl };
    most = most;
  }

  begin_reply-IsPrepared :
      (context : RuntimeContext) (input : Input) (w : World)
      → context.max_iterations ≡ some n
      → context.max_continuations ≡ m
      → IsPrepared (begin_reply env context input w)
  unfolding begin_reply ◌>>=◌ set_busy ask_env set_run New
  begin_reply-IsPrepared context input w limit most =
      let s = start (env.fresh w.moment) (record w.run { runtime_context = context }) in
      let v : World = record w { run = s; moment = suc w.moment; busy = true } in
      IsPrepared-of_New (write_input env input v)
        ((write_input-Keeps input).at v (started-IsNew context w limit most))

  IsPrepared-if :
      (b : Bool) (x y : Exec (Unit {0})) (w : World)
      → IsPrepared (x w)
      → IsPrepared (y w)
      → IsPrepared ((if b then x else y) w)
  IsPrepared-if true x y w px py = px
  IsPrepared-if false x y w px py = py

  prepare-IsPrepared :
      (context : RuntimeContext) (input : Input) (w : World)
      → context.max_iterations ≡ some n
      → context.max_continuations ≡ m
      → IsPrepared (prepare_new_reply env context input w)
  unfolding prepare_new_reply ◌>>=◌ gets throw IsPrepared
  prepare-IsPrepared context input w limit most =
      IsPrepared-if (is_awaiting w.context) _ _ w tt
        (IsPrepared-if w.busy _ _ w tt (begin_reply-IsPrepared context input w limit most))

  continue-HasEnded :
      (r : Result (Unit {0})) (w : World) (f : Unit {0} → Exec LoopEnd)
      → IsPrepared (r, w)
      → ((v : World) → IsNew n m (counters v.run) → HasEnded (f tt v))
      → HasEnded (continue r f w)
  unfolding IsPrepared
  continue-HasEnded (ok u) w f h k = k w h
  continue-HasEnded (err e) w f h k = tt

  handle-HasEnded : (r : Result LoopEnd) (w : World) → HasEnded (r, w) → HasEnded (handle env r w)
  unfolding handle end_reply set_run emit_plain ◌>>=◌ gets pure throw
  handle-HasEnded (ok e) w h = h
  handle-HasEnded (err Exc.internal_cancelled) w h = tt
  handle-HasEnded (err Exc.cancelled) w h = tt
  handle-HasEnded (err (Exc.failed s)) w h = tt

  moved : (r : Result LoopEnd) (v u : World) → HasEnded (r, v) → HasEnded (r, u)
  moved (ok paused) v u h = h
  moved (ok ended) v u h = h
  moved (ok out_of_fuel) v u h = h
  moved (err e) v u h = h

  guarded-HasEnded :
      (body : Exec LoopEnd) (w : World) → HasEnded (body w) → HasEnded (guarded env body w)
  unfolding guarded
  guarded-HasEnded body w h =
      moved (handle env (body w).0 (body w).1).0 (handle env (body w).0 (body w).1).1 _
        (handle-HasEnded (body w).0 (body w).1 h)

  reply-HasEnded :
      (fuel : ℕ) (context : RuntimeContext) (input : Input) (w : World)
      → context.max_iterations ≡ some n
      → context.max_continuations ≡ m
      → 2 * (n + 3) + 2 * m < fuel
      → HasEnded (reply env fuel context input w)
  unfolding reply ◌>>=◌ gets emit_plain
  reply-HasEnded fuel context input w limit most room =
      continue-HasEnded (prepare_new_reply env context input w).0
        (prepare_new_reply env context input w).1 _ (prepare-IsPrepared context input w limit most)
        λ v h.
          guarded-HasEnded (run_loop env fuel) _
            (run_loop-HasEnded n env fuel _ h.fresh (omega (arith, room, h.most)))

  -- With max_iterations n and m allowed continuations, any fuel above 2 (n + 3) + 2 m is enough for
  -- `run` on a new message to return or raise, from whatever state and environment.
  pub run-HasEnded :
      (fuel : ℕ) (context : RuntimeContext) (input : Input) (w : World)
      → IsMessage input
      → context.max_iterations ≡ some n
      → context.max_continuations ≡ m
      → 2 * (n + 3) + 2 * m < fuel
      → HasEnded (run env fuel context input w)
  unfolding run
  run-HasEnded fuel context (text_input content) w message limit most room =
      reply-HasEnded fuel context (text_input content) w limit most room
  run-HasEnded fuel context (messages_input l) w message limit most room =
      reply-HasEnded fuel context (messages_input l) w limit most room
  run-HasEnded fuel context (confirmation c) w message limit most room = absurd message
