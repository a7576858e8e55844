-- ===== src/Handler.antt =====
-- agent/runner/tool_handler.py (src/ftre_agent_core): one tool call between its hooks, and the
-- collection of the results of a batch. The hooks, the tools and the event loop are the
-- environment's: `ToolWorld` says what each of them answers at a moment. The registry's part of the
-- private execution (the choice of a thread for a tool that is not async, the injected
-- arguments) lies behind `invoke`. The tracing spans of the calls are left out.
pub mod Laws
use ftre_agent_core.Prelude.{
  ℕ, suc, String, Option, none, some, Bool, true, false, ◌||◌, List, [], ◌∷◌, map, any, ◌==◌,
  if◌then◌else◌,
}
use ftre_agent_core.Json.{Fields, end}
use ftre_agent_core.Message.{Output}
use ftre_agent_core.Runner.{ToolCall}

pub data ToolStatus : Type 0 where
  completed failed cancelled : ToolStatus

abbrev pub status_is_cancelled : ToolStatus → Bool
status_is_cancelled cancelled = true
status_is_cancelled _ = false

-- An event that a tool returned in place of a text: a HintBlockEvent with its hint, or another one
-- with its `str`.
pub data ToolEvent : Type 0 where
  hint_event : Output → ToolEvent
  other_event : String → ToolEvent

pub record ToolResult : Type 0 where
  pub call_id : String
  pub name : String
  pub result : String
  pub error : Option String
  pub status : ToolStatus
  pub metadata : Fields
  pub event : Option ToolEvent

-- What `invoke` gave or raised.
pub data Invoked : Type 0 where
  returned_event : ToolEvent → Invoked
  returned_text : String → Fields → Invoked
  was_cancelled : Invoked
  raised : String → Invoked

-- The answers of `tool/before`, and of `tool/after` (another output, status, error and metadata).
-- `hook_raised true` is a cancellation.
pub data Before : Type 0 where
  allow : Before
  deny : String → Before
  arguments : Fields → Before
  hook_raised : Bool → Before

pub data After : Type 0 where
  other : After
  execution_result : String → ToolStatus → Option String → Fields → After
  hook_raised : Bool → After

-- How a task ended: with a result, or with an exception (`true` for a cancellation).
pub data TaskEnd : Type 0 where
  returned : ToolResult → TaskEnd
  threw : Bool → TaskEnd

pub record ToolWorld : Type 0 where
  pub before : ℕ → ToolCall → Before
  pub invoke : ℕ → String → Fields → Invoked
  pub after : ℕ → ToolResult → After

abbrev pub or_default : String → String → String
or_default s d = if s == "" then d else s

abbrev pub plain_result : String → String → String → Option String → ToolStatus → ToolResult
plain_result call_id name text error status = record {
  call_id = call_id;
  name = name;
  result = text;
  error = error;
  status = status;
  metadata = end;
  event = none;
}

-- The `try` around `invoke`.
unfoldable pub normalize : String → String → Invoked → ToolResult
normalize call_id name (returned_event e) = record (plain_result call_id name "" none completed) {
  event = some e;
}
normalize call_id name (returned_text text metadata) =
    record (plain_result call_id name text none completed) { metadata = metadata }
normalize call_id name was_cancelled =
    plain_result call_id name "[CANCELLED] Tool execution was cancelled." none cancelled
normalize call_id name (raised text) = plain_result call_id name text (some text) failed

-- The answer of the `tool/after` hook applied to the result; the event is never replaced.
unfoldable pub replace : ToolResult → After → TaskEnd
replace r other = returned r
replace r (execution_result output status error metadata) =
    returned (record r { result = output; error = error; status = status; metadata = metadata })
replace r (After.hook_raised is_cancel) = threw is_cancel

module _ (world : ToolWorld) (moment : ℕ) where
  -- `invoke`, and then `tool/after`
  unfoldable pub invoke_and_after : String → String → Fields → TaskEnd
  unfolding normalize replace
  invoke_and_after call_id name args =
      let result = normalize call_id name (world.invoke moment name args) in
      replace result (world.after moment result)

  after_before : String → String → Fields → Before → TaskEnd
  after_before call_id name args allow = invoke_and_after call_id name args
  after_before call_id name args (deny reason) =
      let text = or_default reason "Tool denied" in
      returned (plain_result call_id name text (some text) failed)
  after_before call_id name args (arguments args') = invoke_and_after call_id name args'
  after_before call_id name args (Before.hook_raised is_cancel) = threw is_cancel

  -- ToolHandler.run_one, called as `spawn` calls it: no input is `parse_failed`
  unfoldable pub run_one : ToolCall → TaskEnd
  unfolding after_before invoke_and_after
  run_one call = elim call.input [
    | none ↦ returned (
        plain_result call.id call.name "[PARSE_ERROR] Tool call arguments were malformed JSON."
          (some "malformed JSON arguments") failed)
    | some args ↦ after_before call.id call.name args (world.before moment call)
  ]

module _ {ℓ} {V : Type ℓ} where
  -- `d[key] = value` and `d.get(key)` of a dict in insertion order
  unfoldable pub insert : String → V → List (String × V) → List (String × V)
  insert key value [] = (key, value) ∷ []
  insert key value ((k, v) ∷ rest) =
      if k == key then (k, value) ∷ rest else (k, v) ∷ insert key value rest

  unfoldable pub lookup : String → List (String × V) → Option V
  lookup key [] = none
  lookup key ((k, v) ∷ rest) = if k == key then some v else lookup key rest

-- The loop of phase 1: a later call of the same id takes the place of an earlier one.
unfoldable pub spawn_all :
    ToolWorld → ℕ → List (String × TaskEnd) → List ToolCall → List (String × TaskEnd)
unfolding run_one insert
spawn_all world moment tasks [] = tasks
spawn_all world moment tasks (call ∷ calls) =
    spawn_all world (suc moment) (insert call.id (run_one world moment call) tasks) calls

-- `next((call.name for call in tool_calls if call.id == call_id), call_id)`
unfoldable pub name_of : List ToolCall → String → String
name_of [] call_id = call_id
name_of (call ∷ calls) call_id = if call.id == call_id then call.name else name_of calls call_id

unfoldable pub finish : List ToolCall → Bool → String × TaskEnd → String × ToolResult
unfolding name_of
finish calls interrupted (call_id, returned r) = (call_id, r)
finish calls interrupted (call_id, threw _) = (
  call_id,
  plain_result call_id (name_of calls call_id) "[INTERRUPTED] Tool execution was interrupted." none
      (if interrupted then cancelled else failed),
)

abbrev pub or_lost : ToolCall → Option ToolResult → ToolResult
or_lost call none = plain_result call.id call.name "[INTERRUPTED] Tool result was lost." none failed
or_lost call (some r) = r

-- ToolHandler.gather_results; `is_cancelled` is the run's, `external` that the wait was cancelled
unfoldable pub gather_results :
    List ToolCall → List (String × TaskEnd) → Bool → Bool → List ToolResult × Bool
unfolding finish lookup any
gather_results calls tasks is_cancelled external =
    let finished = map (finish calls (is_cancelled || external)) tasks in
    let results = map (λ (call : ToolCall). or_lost call (lookup call.id finished)) calls in
    (
      results,
      external || any (λ (r : ToolResult). status_is_cancelled r.status) results || is_cancelled,
    )
