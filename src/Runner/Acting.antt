-- ===== src/Runner/Acting.antt =====
-- class ActingExecutor of agent/runner/_execute_acting.py (src/ftre_agent_core).
pub mod Batch
pub mod Pause
use ftre_agent_core.Prelude.{
  ℕ, suc, ◌+◌, String, Option, none, some, Bool, true, false, not, ◌&&◌, ◌||◌, List, [], ◌∷◌, ◌++◌,
  map, any, keep, length, is_some, ◌==◌, ◌<>◌, if◌then◌else◌,
}
use ftre_agent_core.Json.{Fields, end}
use ftre_agent_core.Message.{
  ToolCallState, asking, allowed, finished, same_state, ToolResultState, success, error, denied,
  Output, plain, parts, HintBlock, hint, ContentBlock, tool_call, tool_result, ToolCallBlock,
  ReplyFinishedReason,
}
use ftre_agent_core.Permission.{
  PermissionBehavior, allow, deny, ask, PermissionRequest, PermissionDecision, evaluate,
}
use ftre_agent_core.Context.{
  Context, append_reply_blocks, add_tool_result, set_tool_call_state, find_call, find_in_blocks,
}
use ftre_agent_core.Event.{
  EventBody, hint_block, require_user_confirm, tool_result_start, tool_result_text_delta,
  tool_result_end, or_text,
}
use ftre_agent_core.Runner.{RunState, ToolCall, is_cancelled}
use ftre_agent_core.Handler.{
  ToolResult, ToolEvent, hint_event, other_event, spawn_all, gather_results, insert, lookup,
}
use ftre_agent_core.World.{
  Exc, internal_cancelled, Result, World, Exec, pure, throw, ask_env, gets, ◌>>=◌, ◌>>◌, emit,
  set_context,
}
use ftre_agent_core.Env.{Env}

-- `_call_state`
unfoldable pub call_state : Context → String → Option ToolCallState
unfolding find_call
call_state context id = elim (find_call context id) [ none ↦ none | some b ↦ some b.state ]

abbrev pub or_empty : Option Fields → Fields
or_empty none = end
or_empty (some args) = args

-- The ids that have a ToolResultBlock (`resulted_ids`).
unfoldable pub results_in : List ContentBlock → List String
results_in [] = []
results_in (tool_result r ∷ rest) = r.id ∷ results_in rest
results_in (b ∷ rest) = results_in rest

unfoldable pub resulted_ids : Context → List String
unfolding results_in
resulted_ids [] = []
resulted_ids (m ∷ rest) = results_in m.content ++ resulted_ids rest

unfoldable pub is_member : String → List String → Bool
is_member id [] = false
is_member id (x ∷ xs) = x == id || is_member id xs

unfoldable pub unanswered : List String → List ContentBlock → List ToolCallBlock
unfolding is_member
unanswered ids [] = []
unanswered ids (tool_call b ∷ rest) =
    let found = unanswered ids rest in if is_member b.id ids then found else b ∷ found
unanswered ids (b ∷ rest) = unanswered ids rest

unanswered_all : List String → Context → List ToolCallBlock
unanswered_all ids [] = []
unanswered_all ids (m ∷ rest) = unanswered ids m.content ++ unanswered_all ids rest

-- `_pending_tool_calls_from_context`
unfoldable pub pending_tool_calls : Context → List ToolCallBlock
unfolding resulted_ids unanswered_all unanswered
pending_tool_calls context = unanswered_all (resulted_ids context) context

-- What `_classify` stores for a call: its behaviour, and the decision unless the check was skipped.
pub record Verdict : Type 0 where
  pub behavior : PermissionBehavior
  pub detail : Option PermissionDecision

abbrev pub is_ask : PermissionBehavior → Bool
is_ask ask = true
is_ask _ = false

abbrev pub is_pause : PermissionBehavior → Bool
is_pause allow = false
is_pause _ = true

-- `isinstance(ev, HintBlockEvent)` and `str` as in phase 4
abbrev pub hint_text : Env → ToolEvent → String
hint_text env (hint_event (plain s)) = s
hint_text env (hint_event (parts l)) = env.text_of_parts l
hint_text env (other_event s) = s

abbrev pub is_success : Option String → Bool
is_success none = true
is_success (some e) = e == ""

abbrev pub result_state : Option String → ToolResultState
result_state e = if is_success e then success else error

abbrev pub events_of : List ToolResult → List ToolEvent
events_of [] = []
events_of (r ∷ rs) = elim r.event [ none ↦ events_of rs | some e ↦ e ∷ events_of rs ]

abbrev pub new_hint : String → String → String → HintBlock
new_hint id source text = record {
  hint = plain text;
  source = some source;
  id = id;
  finished_at = none;
}

module _ (env : Env) where
  unfoldable pub verdict_of : World → ToolCall → Verdict
  unfolding call_state evaluate
  verdict_of w call = elim (call_state w.context call.id) [
    | some allowed ↦ record { behavior = allow; detail = none }
    | _ ↦
        let decision =
          evaluate env.py (record { tool_name = call.name; arguments = or_empty call.input })
            w.permission.permission_rules w.permission.default_behavior in
        record { behavior = decision.behavior; detail = some decision }
  ]

  -- `_classify`: a dict from ids to verdicts
  unfoldable pub classify :
      World → List (String × Verdict) → List ToolCall → List (String × Verdict)
  unfolding verdict_of insert
  classify w verdicts [] = verdicts
  classify w verdicts (call ∷ calls) =
      classify w (insert call.id (verdict_of w call) verdicts) calls

  abbrev pub say : String → EventBody → Exec (Unit {0})
  say reply_id body = emit env.now reply_id body

  unfoldable pub ask_for : String → ToolCall → Option Verdict → Exec (Unit {0})
  ask_for reply_id call none = throw (Exc.failed call.id)
  ask_for reply_id call (some v) =
      if is_ask v.behavior
      then (do
        set_context (λ c. (set_tool_call_state c call.id asking).0)
        say reply_id (
            require_user_confirm call.id call.name (or_empty call.input)
              (elim v.detail [ none ↦ "" | some d ↦ d.reason ])
              (elim v.detail [ none ↦ none | some d ↦ d.rule_id ])))
      else pure tt

  -- The loop of `stream` over a batch that is held back; a missing key is a KeyError.
  unfoldable pub pause_calls : String → List (String × Verdict) → List ToolCall → Exec (Unit {0})
  pause_calls reply_id verdicts [] = pure tt
  pause_calls reply_id verdicts (call ∷ calls) = do
    ask_for reply_id call (lookup call.id verdicts)
    pause_calls reply_id verdicts calls

  -- Phase 3 of `_execute_calls`, for one call and its result.
  unfoldable pub write_result : String → String → ToolCall → ToolResult → Exec (Unit {0})
  write_result reply_id message_id call r = do
    set_context (λ c. (set_tool_call_state c call.id finished).0)
    set_context (λ c.
        add_tool_result c message_id call.id call.name
          (or_text r.result ("[" <> call.name <> "] 已完成")) (result_state r.error))
    say reply_id (tool_result_start call.id call.name)
    (if r.result == "" then pure tt else say reply_id (tool_result_text_delta call.id r.result))
    say reply_id (tool_result_end call.id (result_state r.error) r.metadata)

  -- `zip(tool_calls, results)`
  unfoldable pub write_results : String → String → List ToolCall → List ToolResult → Exec (Unit {0})
  write_results reply_id message_id [] rs = pure tt
  write_results reply_id message_id (call ∷ calls) [] = pure tt
  write_results reply_id message_id (call ∷ calls) (r ∷ rs) = do
    write_result reply_id message_id call r
    write_results reply_id message_id calls rs

  -- Phase 4.
  unfoldable pub write_hints : String → String → List ToolEvent → Exec (Unit {0})
  write_hints reply_id message_id [] = pure tt
  write_hints reply_id message_id (e ∷ es) = do
    id ← ask_env env.fresh
    set_context
        (λ c. append_reply_blocks c message_id (hint (new_hint id "tool" (hint_text env e)) ∷ []))
    say reply_id (hint_block id (some "tool") (plain (hint_text env e)))
    write_hints reply_id message_id es

  -- Phases 1 and 2: every call is spawned, and the results of all are awaited.
  unfoldable pub run_tools : List ToolCall → Exec (List ToolResult × Bool)
  run_tools calls w =
      let tasks = spawn_all env.tools w.moment [] calls in
      let after = w.moment + length calls in
      (
        Result.ok
            (gather_results calls tasks (is_cancelled w.run.status) (env.gather_cancelled after)),
        record w { moment = suc after; spawned = w.spawned ++ calls },
      )

  -- Phases 3 to 5: the results, the events that tools returned, and an interruption.
  unfoldable pub write_gathered :
      String → String → List ToolCall → List ToolResult × Bool → Exec (Unit {0})
  write_gathered reply_id message_id calls gathered = do
    write_results reply_id message_id calls gathered.0
    write_hints reply_id message_id (events_of gathered.0)
    if gathered.1 then throw internal_cancelled else pure tt

  -- `_execute_calls`
  unfoldable pub execute_calls : List ToolCall → Exec (Unit {0})
  execute_calls calls = do
    reply_id ← gets (λ w. w.run.reply_id)
    message_id ← gets (λ w. or_text w.run.message_id w.run.reply_id)
    gathered ← run_tools calls
    write_gathered reply_id message_id calls gathered

  -- ActingExecutor.stream
  unfoldable pub act : List ToolCall → Exec (Unit {0})
  act calls = do
    verdicts ← gets (λ w. classify w [] calls)
    reply_id ← gets (λ w. w.run.reply_id)
    if any (λ (v : String × Verdict). is_pause v.1.behavior) verdicts
        then pause_calls reply_id verdicts calls
        else execute_calls calls

  abbrev pub denied_text : String → String
  denied_text name = "[USER_DENIED] 用户拒绝了工具 [" <> name <> "] 的执行"

  unfoldable pub deny_call : String → String → ToolCall → Exec (Unit {0})
  deny_call reply_id message_id call = do
    set_context (λ c. add_tool_result c message_id call.id call.name (denied_text call.name) denied)
    set_context (λ c. (set_tool_call_state c call.id finished).0)
    say reply_id (tool_result_start call.id call.name)
    say reply_id (tool_result_text_delta call.id (denied_text call.name))
    say reply_id (tool_result_end call.id denied end)

  -- The loop of `resume_execute` over the denied calls.
  unfoldable pub deny_calls : String → String → List ToolCall → Exec (Unit {0})
  deny_calls reply_id message_id [] = pure tt
  deny_calls reply_id message_id (call ∷ calls) = do
    deny_call reply_id message_id call
    deny_calls reply_id message_id calls

  abbrev pub call_of : ToolCallBlock → ToolCall
  call_of b = record { id = b.id; name = b.name; input = some b.arguments }

  -- `allowed_ids`
  abbrev pub allowed_ids : List ToolCallBlock → List String
  allowed_ids blocks =
      map (λ (b : ToolCallBlock). b.id)
        (keep (λ (b : ToolCallBlock). same_state b.state allowed) blocks)

  -- `if allowed_calls:`
  unfoldable pub execute_some : List ToolCall → Exec (Unit {0})
  execute_some [] = pure tt
  execute_some (call ∷ calls) = execute_calls (call ∷ calls)

  -- ActingExecutor.resume_execute
  unfoldable pub resume_execute : Exec (Unit {0})
  resume_execute = do
    blocks ← gets (λ w. pending_tool_calls w.context)
    let go = keep (λ (c : ToolCall). is_member c.id (allowed_ids blocks)) (map call_of blocks)
    let refused =
        keep (λ (c : ToolCall). not (is_member c.id (allowed_ids blocks))) (map call_of blocks)
    execute_some go
    reply_id ← gets (λ w. w.run.reply_id)
    message_id ← gets (λ w. or_text w.run.message_id w.run.reply_id)
    deny_calls reply_id message_id refused
