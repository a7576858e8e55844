-- ===== src/Runner/Run.antt =====
-- ReActRunner.run, _prepare_new_reply and _accept_confirmation of agent/runner/react_runner.py
-- (src/ftre_agent_core). The tracing span is left out. A runtime context is given as it is after
-- `setdefault` of the agent's max_iterations.
pub mod Laws
pub mod Settled
pub mod Termination
use ftre_agent_core.Prelude.{
  ℕ, String, Option, none, some, Bool, true, false, not, List, [], ◌∷◌, is_empty, is_some, ◌==◌,
  if◌then◌else◌,
}
use ftre_agent_core.Json.{Fields}
use ftre_agent_core.Message.{
  ToolCallState, asking, allowed, finished, same_state, ToolCallBlock, ReplyFinishedReason, Msg,
}
use ftre_agent_core.Context.{
  Context, add_user, set_tool_call_state, tool_calls_in_state, find_in_blocks, find_call,
}
use ftre_agent_core.Event.{reply_start, reply_end}
use ftre_agent_core.Runner.{RunStatus, RuntimeContext, RunState, start}
use ftre_agent_core.World.{
  Exc, Result, ok, err, World, Exec, pure, throw, ask_env, gets, ◌>>=◌, ◌>>◌, emit_plain,
  set_context, set_run, when,
}
use ftre_agent_core.Env.{Env}
use ftre_agent_core.Runner.Acting.{resume_execute}
use ftre_agent_core.Runner.Loop.{LoopEnd, paused, ended, add_messages, finalize_run, run_loop}

abbrev pub awaiting_message : String
awaiting_message =
    "Agent is awaiting permission confirmation; send a UserConfirmResultEvent, not a new message."

-- The fields of UserConfirmResultEvent that `run` reads.
pub record Confirmation : Type 0 where
  pub reply_id : String
  pub tool_call_id : String
  pub approved : Bool

pub data Input : Type 0 where
  text_input : String → Input
  messages_input : List Fields → Input
  confirmation : Confirmation → Input

unfoldable pub set_busy : Bool → Exec (Unit {0})
set_busy b w = (ok tt, record w { busy = b })

-- `bool(MessageContext.tool_calls_in_state(context, ASKING))`
abbrev pub is_awaiting : Context → Bool
is_awaiting context = not (is_empty (tool_calls_in_state context asking))

abbrev pub expected_state : Bool → ToolCallState
expected_state approved = if approved then allowed else finished

-- `owner.id`: the first message that holds the call
unfoldable pub owner_of : String → Context → Option String
owner_of call_id [] = none
owner_of call_id (m ∷ rest) =
    if is_some (find_in_blocks call_id m.content) then some m.id else owner_of call_id rest

-- Where the reply and the message of a confirmation go into the run's state.
abbrev pub adopt : Confirmation → Option String → RunState → RunState
adopt c owner s = record s {
  reply_id = if c.reply_id == "" then s.reply_id else c.reply_id;
  message_id = elim owner [ none ↦ s.message_id | some id ↦ id ];
}

-- What the state of the call makes of a confirmation.
unfoldable pub apply_decision : Confirmation → ToolCallBlock → Exec (Unit {0})
apply_decision c target =
    if same_state target.state asking
    then set_context
        (λ context. (set_tool_call_state context c.tool_call_id (expected_state c.approved)).0)
    else if same_state target.state (expected_state c.approved)
    then pure tt
    else throw (Exc.failed "conflicts with the persisted confirmation state")

-- `_accept_confirmation`; the texts of its two exceptions are shortened
unfoldable pub accept_confirmation : Confirmation → Exec Bool
accept_confirmation c = do
  target ← gets (λ w. find_call w.context c.tool_call_id)
  when target (throw (Exc.failed "is not awaiting confirmation")) λ block. (do
    owner ← gets (λ w. owner_of c.tool_call_id w.context)
    set_run (adopt c owner)
    apply_decision c block
    gets (λ w. not (is_awaiting w.context)))

module _ (env : Env) where
  unfoldable pub add_input : Input → Exec (Unit {0})
  add_input (text_input content) = do
    block_id ← ask_env env.fresh
    message_id ← ask_env env.fresh
    set_context λ context. add_user block_id message_id context content
  add_input (messages_input l) = add_messages env l
  add_input (confirmation c) = pure tt

  -- The message is written and the reply gets its ids.
  unfoldable pub write_input : Input → Exec (Unit {0})
  write_input input = do
    add_input input
    reply_id ← ask_env env.fresh
    message_id ← ask_env env.fresh
    set_run λ s. record s { reply_id = reply_id; message_id = message_id }

  -- `_prepare_new_reply` once its two checks are passed
  unfoldable pub begin_reply : RuntimeContext → Input → Exec (Unit {0})
  begin_reply context input = do
    set_busy true
    turn_id ← ask_env env.fresh
    set_run λ s. start turn_id (record s { runtime_context = context })
    write_input input

  -- `_prepare_new_reply`
  unfoldable pub prepare_new_reply : RuntimeContext → Input → Exec (Unit {0})
  prepare_new_reply context input = do
    awaiting ← gets (λ w. is_awaiting w.context)
    is_busy ← gets (λ w. w.busy)
    if awaiting
        then throw (Exc.failed awaiting_message)
        else if is_busy
        then throw (Exc.failed "Agent is already running")
        else begin_reply context input

  -- A ReplyEnd after an exception; nothing changes the reply id on the way.
  unfoldable pub end_reply : ReplyFinishedReason → Exec (Unit {0})
  end_reply reason = do
    set_run (finalize_run reason)
    session_id ← gets (λ w. w.run.runtime_context.session_id)
    error ← gets (λ w. w.run.error)
    emit_plain env.now (
        reply_end session_id reason (elim reason [
          | ReplyFinishedReason.error ↦ some (record {
            message = elim error [
              | none ↦ "Unknown error"
              | some e ↦ if e == "" then "Unknown error" else e
            ];
            code = none;
          })
          | _ ↦ none
        ]))

  -- The `except` clauses of `run`.
  unfoldable pub handle : Result LoopEnd → Exec LoopEnd
  handle (ok e) = pure e
  handle (err Exc.cancelled) = do end_reply ReplyFinishedReason.interrupted; pure ended
  handle (err e) = do end_reply ReplyFinishedReason.error; throw e

  -- The `try` of `run`, with its `finally`.
  unfoldable pub guarded : Exec LoopEnd → Exec LoopEnd
  guarded body w =
      let (r, v) = body w in let (r', v') = handle r v in (r', record v' { busy = false })

  -- The prologue of a resumed run, and its loop.
  unfoldable pub resume_body : ℕ → Exec LoopEnd
  resume_body fuel = do resume_execute env; run_loop env fuel

  unfoldable pub finish_resume : ℕ → Bool → Exec LoopEnd
  finish_resume fuel complete =
      if complete
      then (do
        set_busy true
        set_run λ s. record s { status = RunStatus.running }
        guarded (resume_body fuel))
      else (do set_run λ s. record s { status = RunStatus.paused }; pure paused)

  unfoldable pub resume : ℕ → RuntimeContext → Confirmation → Exec LoopEnd
  resume fuel context c = do
    set_run λ s. record s { runtime_context = context }
    complete ← accept_confirmation c
    finish_resume fuel complete

  unfoldable pub reply : ℕ → RuntimeContext → Input → Exec LoopEnd
  reply fuel context input = do
    prepare_new_reply context input
    session_id ← gets (λ w. w.run.runtime_context.session_id)
    emit_plain env.now (reply_start session_id env.model)
    guarded (run_loop env fuel)

  -- ReActRunner.run
  unfoldable pub run : ℕ → RuntimeContext → Input → Exec LoopEnd
  run fuel context (confirmation c) = resume fuel context c
  run fuel context (text_input content) = reply fuel context (text_input content)
  run fuel context (messages_input l) = reply fuel context (messages_input l)
