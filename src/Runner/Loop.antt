-- ===== src/Runner/Loop.antt =====
-- ReActRunner._loop, _dispatch_before_reasoning and _finalize of agent/runner/react_runner.py
-- (src/ftre_agent_core).
pub mod Counters
pub mod Bound
pub mod Termination
use ftre_agent_core.Prelude.{
  ℕ, zero, suc, ◌+◌, String, Option, none, some, Bool, true, false, not, ◌&&◌, ◌||◌, List, [], ◌∷◌,
  ◌++◌, any, ◌==◌, if◌then◌else◌,
}
use ftre_agent_core.Json.{Json, str, Fields, get}
use ftre_agent_core.Message.{ReplyFinishedReason, is_assistant, Msg}
use ftre_agent_core.Context.{Context, is_reply}
use ftre_agent_core.Context.Raw.{add_all}
use ftre_agent_core.Convert.{text_or}
use ftre_agent_core.Event.{Event, EventBody, require_user_confirm, reply_end}
use ftre_agent_core.Runner.{
  RunStatus, RunState, ToolCall, TurnResult, Reasoning, Action, reasoning, acting, exit,
  is_cancelled,
}
use ftre_agent_core.World.{
  Exc, Result, ok, err, World, Exec, pure, throw, ask_env, gets, ◌>>=◌, ◌>>◌, emit_plain,
  set_context, set_run,
}
use ftre_agent_core.Env.{Env, BeforeReasoning, messages, before_raised}
use ftre_agent_core.Runner.Decide.{decide, reason_to_status}
use ftre_agent_core.Runner.Acting.{act}
use ftre_agent_core.Runner.ReasoningExecutor.{reason}
use ftre_agent_core.Runner.ExitExecutor.{exit_stream}

-- `_finalize`
abbrev pub finalize_run : ReplyFinishedReason → RunState → RunState
finalize_run reason s = record s { done_reason = some reason; status = reason_to_status reason }

abbrev pub count_iteration : RunState → RunState
count_iteration s = record s { iteration = s.iteration + 1 }

abbrev pub is_confirm : EventBody → Bool
is_confirm (require_user_confirm _ _ _ _ _) = true
is_confirm _ = false

-- `any(message.role == "assistant" and message.id == self.state.message_id …)`
unfoldable pub has_current : String → Context → Bool
has_current id [] = false
has_current id (m ∷ rest) = is_reply id m || has_current id rest

-- `any(str(message.get("role", "")) == "user" …)`
unfoldable pub has_user : List Fields → Bool
unfolding text_or
has_user [] = false
has_user (m ∷ rest) = text_or "" "role" m == "user" || has_user rest

-- The loop ended: after a ReplyEnd, at a permission that is asked for, or out of fuel.
pub data LoopEnd : Type 0 where
  ended paused out_of_fuel : LoopEnd

-- The events yielded since there were those of the first list.
unfoldable pub since : List Event → List Event → List Event
since [] now = now
since (e ∷ es) [] = []
since (e ∷ es) (f ∷ fs) = since es fs

module _ (env : Env) where
  unfoldable pub check_cancelled : Exec (Unit {0})
  check_cancelled = do
    set ← ask_env env.cancellation
    done ← gets (λ w. is_cancelled w.run.status)
    if done || set then throw Exc.cancelled else pure tt

  unfoldable pub answer : BeforeReasoning → Exec (List Fields)
  answer (messages l) = pure l
  answer (before_raised e) = throw e

  -- `_dispatch_before_reasoning`
  unfoldable pub dispatch_before_reasoning : Exec (List Fields)
  dispatch_before_reasoning = do
    check_cancelled
    result ← ask_env env.before_reasoning
    l ← answer result
    check_cancelled
    pure l

  -- The messages of the hook are added; a dict that is no valid message raises.
  unfoldable pub add_messages : List Fields → Exec (Unit {0})
  add_messages l = do
    ids ← ask_env env.raw_ids
    added ← gets (λ w. add_all env.codec ids 0 w.context l)
    set_context (λ c. added.1)
    if added.0 then pure tt else throw (Exc.failed "validation error")

  -- The message id turns to a new one when a user message follows the current assistant message.
  unfoldable pub rotate_message_id : List Fields → Exec (Unit {0})
  rotate_message_id l = do
    id ← ask_env env.fresh
    had ← gets (λ w. has_current w.run.message_id w.context)
    if had && has_user l then set_run (λ s. record s { message_id = id }) else pure tt

  -- The branch of a Reasoning once the turn is counted.
  unfoldable pub reason_turn : Reasoning → Exec (Option TurnResult)
  reason_turn r = do
    l ← dispatch_before_reasoning
    add_messages l
    rotate_message_id l
    reason env r

  unfoldable pub do_reasoning : Reasoning → Exec (Option TurnResult)
  do_reasoning r = do set_run count_iteration; reason_turn r

  -- The calls are run or held back; whether a confirmation was asked for.
  unfoldable pub do_acting : List ToolCall → Exec Bool
  do_acting calls = do
    before ← gets (λ w. w.events)
    act env calls
    gets (λ w. any (λ (e : Event). is_confirm e.body) (since before w.events))

  unfoldable pub choose : Option TurnResult → Exec Action
  choose prev w = let (action, s) = decide w.run prev in (ok action, record w { run = s })

  -- What follows a batch of calls: the loop pauses when a confirmation was asked for.
  unfoldable pub after_acting : (Option TurnResult → Exec LoopEnd) → Bool → Exec LoopEnd
  after_acting rest asked =
      if asked
      then (do set_run (λ s. record s { status = RunStatus.paused }); pure paused)
      else rest none

  unfoldable pub after_exit : (Option TurnResult → Exec LoopEnd) → Bool → Exec LoopEnd
  after_exit rest more = if more then rest none else pure ended

  -- The body of the loop after `decide`; `rest` is the next round.
  unfoldable pub perform : (Option TurnResult → Exec LoopEnd) → Action → Exec LoopEnd
  perform rest (reasoning r) = do result ← do_reasoning r; rest result
  perform rest (acting calls) = do asked ← do_acting calls; after_acting rest asked
  perform rest (exit x) = do more ← exit_stream env x; after_exit rest more

  -- The `while True`, on fuel.
  unfoldable pub loop : ℕ → Option TurnResult → Exec LoopEnd
  loop zero prev = pure out_of_fuel
  loop (suc fuel) prev =
      let rest : Option TurnResult → Exec LoopEnd = loop fuel in
      do action ← choose prev; perform rest action

  -- The `except CancelledError` around the loop.
  unfoldable pub catch_internal : Result LoopEnd × World → Result LoopEnd × World
  catch_internal (ok e, w) = (ok e, w)
  catch_internal (err Exc.internal_cancelled, w) =
      (do
        set_run (finalize_run ReplyFinishedReason.interrupted)
        session_id ← gets (λ v. v.run.runtime_context.session_id)
        emit_plain env.now (reply_end session_id ReplyFinishedReason.interrupted none)
        pure ended)
        w
  catch_internal (err e, w) = (err e, w)

  unfoldable pub run_loop : ℕ → Exec LoopEnd
  run_loop fuel w = catch_internal (loop fuel none w)
