-- ===== src/Runner/ExitExecutor.antt =====
-- class ExitExecutor of agent/runner/_execute_acting.py (src/ftre_agent_core).
pub mod Laws
pub mod Outcome
use ftre_agent_core.Prelude.{
  ℕ, suc, ◌+◌, String, Option, none, some, Bool, true, false, not, ◌&&◌, List, [], ◌∷◌, ◌==◌, ltb,
  if◌then◌else◌,
}
use ftre_agent_core.Message.{ReplyFinishedReason, ErrorInfo, plain, hint}
use ftre_agent_core.Context.{append_reply_blocks}
use ftre_agent_core.Event.{hint_block, reply_end, or_text}
use ftre_agent_core.Runner.{RunStatus, RuntimeContext, RunState, Exit}
use ftre_agent_core.World.{
  World, Exec, pure, throw, ask_env, gets, ◌>>=◌, ◌>>◌, emit, set_context, set_run,
}
use ftre_agent_core.Env.{Env, StopDecision, stop_turn, continue_turn, stop_raised}
use ftre_agent_core.Runner.Decide.{reason_to_status}
use ftre_agent_core.Runner.Acting.{new_hint}

abbrev pub if_set : Option String → Option String → Option String
if_set none old = old
if_set (some new) old = if new == "" then old else some new

-- ExitExecutor._finalize
unfoldable pub finalize : Exit → RunState → RunState
finalize x s = record s {
  done_reason = some x.finished_reason;
  status = reason_to_status x.finished_reason;
  error = if_set x.error s.error;
  error_code = if_set x.error_code s.error_code;
}

abbrev pub error_info : Exit → Option ErrorInfo
error_info x = elim x.error [
  | none ↦ none
  | some e ↦ if e == "" then none else some (record { message = e; code = x.error_code })
]

module _ (env : Env) where
  -- The normal way out.
  unfoldable pub leave : Exit → Exec Bool
  leave x = do
    session_id ← gets (λ w. w.run.runtime_context.session_id)
    reply_id ← gets (λ w. w.run.reply_id)
    set_run (finalize x)
    emit env.now reply_id (reply_end session_id x.finished_reason (error_info x))
    pure false

  abbrev pub count_up : RunState → RunState
  count_up s = record s {
    runtime_context = record s.runtime_context {
      continuation_count = s.runtime_context.continuation_count + 1;
    };
  }

  -- ContinueTurn within its bounds: the prompt is written, and the loop goes on.
  unfoldable pub go_on : String → Exec Bool
  go_on prompt = do
    reply_id ← gets (λ w. w.run.reply_id)
    message_id ← gets (λ w. or_text w.run.message_id w.run.reply_id)
    set_run count_up
    id ← ask_env env.fresh
    set_context (λ c. append_reply_blocks c message_id (hint (new_hint id "system" prompt) ∷ []))
    emit env.now reply_id (hint_block id (some "system") (plain prompt))
    pure true

  unfoldable pub after_stop : Exit → StopDecision → Exec Bool
  after_stop x stop_turn = leave x
  after_stop x (stop_raised e) = throw e
  after_stop x (continue_turn prompt) = do
    set ← ask_env env.cancellation
    room ←
        gets (λ w.
          ltb w.run.runtime_context.continuation_count w.run.runtime_context.max_continuations)
    if not set && room then go_on prompt else leave x

  abbrev pub is_completed : ReplyFinishedReason → Bool
  is_completed ReplyFinishedReason.completed = true
  is_completed _ = false

  -- ExitExecutor.stream; the result is `outcome.should_continue`
  unfoldable pub exit_stream : Exit → Exec Bool
  exit_stream x =
      if is_completed x.finished_reason
      then (do decision ← ask_env env.stop_decision; after_stop x decision)
      else leave x
