-- ===== src/Runner/Run/Settled.antt =====
-- The status that a run leaves (src/ftre_agent_core/agent/runner/react_runner.py).
use ftre_agent_core.Prelude.{ℕ, zero, suc, ◌≡◌, refl, ap, ◌∙◌, Option, none, Bool, true, false}
use ftre_agent_core.Message.{ReplyFinishedReason}
use ftre_agent_core.Runner.{
  RunStatus, RuntimeContext, TurnResult, Action, reasoning, acting, exit, is_done,
}
use ftre_agent_core.World.{
  Exc, Result, ok, err, World, Exec, pure, throw, gets, ◌>>=◌, set_run, emit_plain, continue,
}
use ftre_agent_core.Env.{Env}
use ftre_agent_core.Runner.Decide.{decide, reason_to_status}
use ftre_agent_core.Runner.ExitExecutor.{exit_stream}
use ftre_agent_core.Runner.ExitExecutor.Outcome.{Outcome, exit_stream-Outcome}
use ftre_agent_core.Runner.Acting.{resume_execute}
use ftre_agent_core.Runner.Loop.{
  LoopEnd, paused, ended, out_of_fuel, do_reasoning, do_acting, after_acting, after_exit, perform,
  choose, loop, catch_internal, run_loop,
}
use ftre_agent_core.Runner.Run.{
  Input, text_input, messages_input, confirmation, Confirmation, prepare_new_reply,
  accept_confirmation, set_busy, end_reply, handle, guarded, resume, finish_resume, resume_body,
  reply, run,
}

-- A run that has ended has a final status, and one that has paused is PAUSED.
abbrev pub IsSettled : Result LoopEnd × World → Type 0
IsSettled (ok ended, v) = is_done v.run.status ≡ true
IsSettled (ok paused, v) = v.run.status ≡ RunStatus.paused
IsSettled (ok out_of_fuel, v) = Unit {0}
IsSettled (err e, v) = Unit {0}

is_done-reason : (r : ReplyFinishedReason) → is_done (reason_to_status r) ≡ true
is_done-reason ReplyFinishedReason.completed = refl
is_done-reason ReplyFinishedReason.interrupted = refl
is_done-reason ReplyFinishedReason.error = refl
is_done-reason ReplyFinishedReason.exceed_max_iters = refl

module _ {A : Type 0} where
  continue-IsSettled :
      (r : Result A) (w : World) (f : A → Exec LoopEnd)
      → ((a : A) (v : World) → IsSettled (f a v))
      → IsSettled (continue r f w)
  continue-IsSettled (ok a) w f k = k a w
  continue-IsSettled (err e) w f k = tt

module _ (env : Env) where
  module _ (rest : Option TurnResult → Exec LoopEnd)
      (k : (prev : Option TurnResult) (w : World) → IsSettled (rest prev w)) where
    after_acting-IsSettled : (asked : Bool) (w : World) → IsSettled (after_acting env rest asked w)
    unfolding after_acting ◌>>=◌ set_run pure
    after_acting-IsSettled true w = refl
    after_acting-IsSettled false w = k none w

    exit-IsSettled :
        (x : _) (w : World) (p : Result Bool × World)
        → Outcome env x w p
        → IsSettled (continue p.0 (after_exit env rest) p.1)
    unfolding after_exit pure
    exit-IsSettled x w (ok true, v) h = k none v
    exit-IsSettled x w (ok false, v) h = ap is_done h.status ∙ is_done-reason x.finished_reason
    exit-IsSettled x w (err e, v) h = tt

    perform-IsSettled : (a : Action) (w : World) → IsSettled (perform env rest a w)
    unfolding perform ◌>>=◌
    perform-IsSettled (reasoning r) w =
        continue-IsSettled (do_reasoning env r w).0 (do_reasoning env r w).1 _ k
    perform-IsSettled (acting calls) w =
        continue-IsSettled (do_acting env calls w).0 (do_acting env calls w).1 _
          after_acting-IsSettled
    perform-IsSettled (exit x) w =
        exit-IsSettled x w (exit_stream env x w) (exit_stream-Outcome env x w)

  loop-IsSettled :
      (fuel : ℕ) (prev : Option TurnResult) (w : World) → IsSettled (loop env fuel prev w)
  unfolding loop choose ◌>>=◌ pure
  loop-IsSettled zero prev w = tt
  loop-IsSettled (suc fuel) prev w =
      perform-IsSettled (loop env fuel) (loop-IsSettled fuel) (decide w.run prev).0
        (record w { run = (decide w.run prev).1 })

  catch_internal-IsSettled :
      (r : Result LoopEnd × World) → IsSettled r → IsSettled (catch_internal env r)
  unfolding catch_internal set_run emit_plain ◌>>=◌ gets pure
  catch_internal-IsSettled (ok e, w) h = h
  catch_internal-IsSettled (err Exc.internal_cancelled, w) h = refl
  catch_internal-IsSettled (err Exc.cancelled, w) h = tt
  catch_internal-IsSettled (err (Exc.failed s), w) h = tt

  run_loop-IsSettled : (fuel : ℕ) (w : World) → IsSettled (run_loop env fuel w)
  unfolding run_loop
  run_loop-IsSettled fuel w =
      catch_internal-IsSettled (loop env fuel none w) (loop-IsSettled fuel none w)

  handle-IsSettled :
      (r : Result LoopEnd) (w : World) → IsSettled (r, w) → IsSettled (handle env r w)
  unfolding handle end_reply set_run emit_plain ◌>>=◌ gets pure throw
  handle-IsSettled (ok e) w h = h
  handle-IsSettled (err Exc.internal_cancelled) w h = tt
  handle-IsSettled (err Exc.cancelled) w h = refl
  handle-IsSettled (err (Exc.failed s)) w h = tt

  -- What a caller of `run` can rely on when it returns; the lock is released at the end of a reply.
  abbrev pub IsOver : Result LoopEnd × World → Type 0
  IsOver (ok ended, v) = (is_done v.run.status ≡ true) × (v.busy ≡ false)
  IsOver (ok paused, v) = v.run.status ≡ RunStatus.paused
  IsOver (ok out_of_fuel, v) = Unit {0}
  IsOver (err e, v) = Unit {0}

  released :
      (r : Result LoopEnd) (v : World) → IsSettled (r, v) → IsOver (r, record v { busy = false })
  released (ok ended) v h = (h, refl)
  released (ok paused) v h = h
  released (ok out_of_fuel) v h = tt
  released (err e) v h = tt

  guarded-IsOver :
      (body : Exec LoopEnd) (w : World) → IsSettled (body w) → IsOver (guarded env body w)
  unfolding guarded
  guarded-IsOver body w h =
      released (handle env (body w).0 (body w).1).0 (handle env (body w).0 (body w).1).1
        (handle-IsSettled (body w).0 (body w).1 h)

  module _ {A : Type 0} where
    continue-IsOver :
        (r : Result A) (w : World) (f : A → Exec LoopEnd)
        → ((a : A) (v : World) → IsOver (f a v))
        → IsOver (continue r f w)
    continue-IsOver (ok a) w f k = k a w
    continue-IsOver (err e) w f k = tt

  resume_body-IsSettled : (fuel : ℕ) (w : World) → IsSettled (resume_body env fuel w)
  unfolding resume_body ◌>>=◌
  resume_body-IsSettled fuel w =
      continue-IsSettled (resume_execute env w).0 (resume_execute env w).1 _
        λ _. run_loop-IsSettled fuel

  finish_resume-IsOver :
      (fuel : ℕ) (complete : Bool) (w : World) → IsOver (finish_resume env fuel complete w)
  unfolding finish_resume ◌>>=◌ set_busy set_run pure
  finish_resume-IsOver fuel true w =
      guarded-IsOver (resume_body env fuel) _ (resume_body-IsSettled fuel _)
  finish_resume-IsOver fuel false w = refl

  resume-IsOver :
      (fuel : ℕ) (context : RuntimeContext) (c : Confirmation) (w : World)
      → IsOver (resume env fuel context c w)
  unfolding resume ◌>>=◌ set_run
  resume-IsOver fuel context c w =
      let v : World = record w { run = record w.run { runtime_context = context } } in
      continue-IsOver (accept_confirmation c v).0 (accept_confirmation c v).1 _
        (finish_resume-IsOver fuel)

  reply-IsOver :
      (fuel : ℕ) (context : RuntimeContext) (input : Input) (w : World)
      → IsOver (reply env fuel context input w)
  unfolding reply ◌>>=◌ gets emit_plain
  reply-IsOver fuel context input w =
      continue-IsOver (prepare_new_reply env context input w).0
        (prepare_new_reply env context input w).1 _
        λ u v. guarded-IsOver (run_loop env fuel) _ (run_loop-IsSettled fuel _)

  -- When `run` returns, for a new message or a confirmation: at the end of a reply the status is
  -- final, one of COMPLETED, ERROR and CANCELLED, and the lock is released; at a pause the status is
  -- PAUSED.
  pub run-IsOver :
      (fuel : ℕ) (context : RuntimeContext) (input : Input) (w : World)
      → IsOver (run env fuel context input w)
  unfolding run
  run-IsOver fuel context (confirmation c) w = resume-IsOver fuel context c w
  run-IsOver fuel context (text_input content) w = reply-IsOver fuel context (text_input content) w
  run-IsOver fuel context (messages_input l) w = reply-IsOver fuel context (messages_input l) w
