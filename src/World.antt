-- ===== src/World.antt =====
-- What the executors of agent/runner (src/ftre_agent_core) share: the agent's state, the run's
-- state, the events yielded so far, and the exceptions. A coroutine is an action on this world. What
-- it asks of hosts, models, tools, the clock and `uuid4` is answered by an `Env`, at a moment that
-- grows with each question: the answers may differ every time, and nothing is assumed of them.
pub mod Keeps
use ftre_agent_core.Prelude.{
  ℕ, suc, ◌+◌, String, Option, none, some, Bool, true, false, List, [], ◌∷◌, ◌++◌, ◌==◌,
  if◌then◌else◌,
}
use ftre_agent_core.Json.{Fields}
use ftre_agent_core.Message.{Part, ReplyFinishedReason}
use ftre_agent_core.Permission.{PermissionContext, PyText}
use ftre_agent_core.Context.{Context}
use ftre_agent_core.Event.{EventBody, Event, annotate_event}
use ftre_agent_core.Runner.{RunState, ToolCall}
use ftre_agent_core.Handler.{ToolWorld}

-- asyncio.CancelledError, CancelledError of _state.py, and every other exception with its text
pub data Exc : Type 0 where
  cancelled internal_cancelled : Exc
  failed : String → Exc

pub data Result (A : Type 0) : Type 0 where
  ok : A → Result A
  err : Exc → Result A

-- `spawned` holds the calls handed to ToolHandler.spawn so far, in order, and `busy` is that the
-- runner's `_run_task` is a task that is not done.
pub record World : Type 0 where
  pub context : Context
  pub permission : PermissionContext
  pub run : RunState
  pub events : List Event
  pub spawned : List ToolCall
  pub moment : ℕ
  pub busy : Bool

abbrev pub Exec : Type 0 → Type 0
Exec A = World → Result A × World

module _ {A : Type 0} where
  unfoldable pub pure : A → Exec A
  pure a w = (ok a, w)

  unfoldable pub throw : Exc → Exec A
  throw e w = (err e, w)

  -- A question to the environment.
  unfoldable pub ask_env : (ℕ → A) → Exec A
  ask_env answer w = (ok (answer w.moment), record w { moment = suc w.moment })

  unfoldable pub gets : (World → A) → Exec A
  gets f w = (ok (f w), w)

module _ {A B : Type 0} where
  abbrev pub continue : Result A → (A → Exec B) → Exec B
  continue (ok a) f w = f a w
  continue (err e) f w = (err e, w)

  infixl 5 ◌>>=◌ ◌>>◌
  -- Opening this opens the other ways to build an action too.
  unfoldable pub ◌>>=◌ : Exec A → (A → Exec B) → Exec B
  unfolding pure throw ask_env gets
  ◌>>=◌ m f w = continue (m w).0 f (m w).1

  abbrev pub ◌>>◌ : Exec A → Exec B → Exec B
  m >> n = m >>= λ _. n

-- `if x is not None` of a value that the branch uses.
unfoldable pub when : {A B : Type 0} → Option A → Exec B → (A → Exec B) → Exec B
when none m f = m
when (some a) m f = f a

-- An event of this reply, yielded through `_annotate_event` of the runner's loop.
unfoldable pub emit : (ℕ → String) → String → EventBody → Exec (Unit {0})
unfolding annotate_event
emit now reply_id body w = (
  ok tt,
  record w {
    moment = suc w.moment;
    events =
        w.events
        ++ annotate_event w.run.message_id (record {
          reply_id = some reply_id;
          message_id = none;
          created_at = now w.moment;
          body = body;
        })
          ∷ [];
  },
)

unfoldable pub set_context : (Context → Context) → Exec (Unit {0})
set_context f w = (ok tt, record w { context = f w.context })

unfoldable pub set_run : (RunState → RunState) → Exec (Unit {0})
set_run f w = (ok tt, record w { run = f w.run })

-- An event that `run` itself yields, with its message id given.
unfoldable pub emit_plain : (ℕ → String) → EventBody → Exec (Unit {0})
emit_plain now body w = (
  ok tt,
  record w {
    moment = suc w.moment;
    events =
        w.events
        ++ record {
          reply_id = some w.run.reply_id;
          message_id = some w.run.message_id;
          created_at = now w.moment;
          body = body;
        }
          ∷ [];
  },
)
