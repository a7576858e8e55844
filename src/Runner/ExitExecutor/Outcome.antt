-- ===== src/Runner/ExitExecutor/Outcome.antt =====
-- How an Exit ends a run or lets it go on
-- (src/ftre_agent_core/agent/runner/_execute_acting.py, ExitExecutor.stream).
use ftre_agent_core.Prelude.{
  ℕ, suc, ◌+◌, ◌<◌, ◌≤◌, String, ◌≡◌, ◌≢◌, ◌⊎◌, refl, Option, none, some, Bool, true, false, not,
  ◌&&◌, [], ◌∷◌, ◌++◌, ltb, arith, ◌==◌, if◌then◌else◌,
}
use ftre_agent_core.Message.{ReplyFinishedReason, plain, hint}
use ftre_agent_core.Event.{EventBody, Event, hint_block, reply_end, annotate_event, or_text}
use ftre_agent_core.Context.{append_reply_blocks}
use ftre_agent_core.Runner.Acting.{new_hint}
use ftre_agent_core.Runner.{Exit}
use ftre_agent_core.World.{
  Exc, Result, ok, err, World, Exec, pure, throw, ask_env, gets, ◌>>=◌, set_run, set_context, emit,
}
use ftre_agent_core.Env.{Env, StopDecision, stop_turn, continue_turn, stop_raised}
use ftre_agent_core.Runner.Decide.{reason_to_status}
use ftre_agent_core.Runner.ExitExecutor.{
  finalize, error_info, count_up, leave, go_on, after_stop, is_completed, exit_stream,
}

body-if :
    (b : Bool) (x y : Event) (body : EventBody)
    → x.body ≡ body
    → y.body ≡ body
    → (if b then x else y).body ≡ body
body-if true x y body h k = h
body-if false x y body h k = k

body_of-id :
    (id : String) (o : Option String) (m : Option String) (at : String) (body : EventBody)
    → (annotate_event id
        (record { reply_id = o; message_id = m; created_at = at; body = body })).body
      ≡ body
unfolding annotate_event
body_of-id id none m at body = refl
body_of-id id (some r) m at body = body-if (r == "") _ _ body refl refl

-- One event with a body was yielded between two worlds.
pub record Yielded (body : EventBody) (w v : World) : Type 0 where
  pub event : Event
  pub appended : v.events ≡ w.events ++ event ∷ []
  pub says : event.body ≡ body

emit-Yielded :
    (now : ℕ → String) (id : String) (body : EventBody) (w : World)
    → Yielded body w (emit now id body w).1
unfolding emit
emit-Yielded now id body w = record {
  event =
      annotate_event w.run.message_id
        (record { reply_id = some id; message_id = none; created_at = now w.moment; body = body });
  appended = refl;
  says = body_of-id w.run.message_id (some id) none (now w.moment) body;
}

module _ (env : Env) (x : Exit) (w : World) where
  -- The run was not completed, or the hook let it stop, or it asked for more after a cancellation or
  -- with no continuation left.
  pub data MayLeave : Type 0 where
    not_completed : x.finished_reason ≢ ReplyFinishedReason.completed → MayLeave
    stops : env.stop_decision w.moment ≡ stop_turn → MayLeave
    is_bound :
        (prompt : String)
        → env.stop_decision w.moment ≡ continue_turn prompt
        → (env.cancellation (suc w.moment) ≡ true)
          ⊎ (w.run.runtime_context.max_continuations ≤ w.run.runtime_context.continuation_count)
        → MayLeave

  -- The run is over, with one ReplyEnd that gives the reason.
  pub record HasLeft (v : World) : Type 0 where
    pub why : MayLeave
    pub status : v.run.status ≡ reason_to_status x.finished_reason
    pub reason : v.run.done_reason ≡ some x.finished_reason
    pub ended :
        Yielded (reply_end w.run.runtime_context.session_id x.finished_reason (error_info x)) w v
    pub same_context : v.context ≡ w.context

  -- The run goes on: it had completed, the hook asked for it, nothing was cancelled, a continuation
  -- was left and has been counted, and the prompt was written and shown as a hint.
  pub record HasContinued (v : World) : Type 0 where
    pub completed : x.finished_reason ≡ ReplyFinishedReason.completed
    pub prompt : String
    pub asked : env.stop_decision w.moment ≡ continue_turn prompt
    pub is_free : env.cancellation (suc w.moment) ≡ false
    pub room : w.run.runtime_context.continuation_count < w.run.runtime_context.max_continuations
    pub counted :
        v.run.runtime_context.continuation_count ≡ w.run.runtime_context.continuation_count + 1
    pub status : v.run.status ≡ w.run.status
    pub id : String
    pub hinted : Yielded (hint_block id (some "system") (plain prompt)) w v
    pub written :
        v.context
        ≡ append_reply_blocks w.context
            (or_text w.run.message_id w.run.reply_id)
            (hint (new_hint id "system" prompt) ∷ [])

  -- The hook of a completed run raised: the error is its own, and nothing has changed but the moment.
  pub record HasFailed (e : Exc) (v : World) : Type 0 where
    pub completed : x.finished_reason ≡ ReplyFinishedReason.completed
    pub raised : env.stop_decision w.moment ≡ stop_raised e
    pub same : v ≡ record w { moment = suc w.moment }

  abbrev pub Outcome : Result Bool × World → Type 0
  Outcome (ok true, v) = HasContinued v
  Outcome (ok false, v) = HasLeft v
  Outcome (err e, v) = HasFailed e v

  Outcome-if :
      (b : Bool) (m k : Exec Bool) (v : World)
      → (b ≡ true → Outcome (m v))
      → (b ≡ false → Outcome (k v))
      → Outcome ((if b then m else k) v)
  Outcome-if true m k v fm fk = fm refl
  Outcome-if false m k v fm fk = fk refl

  leave-Outcome : (n : ℕ) → MayLeave → Outcome (leave env x (record w { moment = n }))
  unfolding leave ◌>>=◌ set_run emit gets pure finalize
  leave-Outcome n why =
      let session_id = w.run.runtime_context.session_id in
      let y =
        emit-Yielded env.now w.run.reply_id (reply_end session_id x.finished_reason (error_info x))
          (record w { run = finalize x w.run; moment = n }) in
      record {
        why = why;
        status = refl;
        reason = refl;
        ended = record { event = y.event; appended = y.appended; says = y.says };
        same_context = refl;
      }

  go_on-Outcome :
      (n : ℕ) (prompt : String)
      → x.finished_reason ≡ ReplyFinishedReason.completed
      → env.stop_decision w.moment ≡ continue_turn prompt
      → env.cancellation (suc w.moment) ≡ false
      → w.run.runtime_context.continuation_count < w.run.runtime_context.max_continuations
      → Outcome (go_on env prompt (record w { moment = n }))
  unfolding go_on ◌>>=◌ set_run set_context emit gets ask_env pure
  go_on-Outcome n prompt completed asked is_free room =
      let y =
        emit-Yielded env.now w.run.reply_id
          (hint_block (env.fresh n) (some "system") (plain prompt))
          (record w {
            run = count_up env w.run;
            moment = suc n;
            context =
                append_reply_blocks w.context (or_text w.run.message_id w.run.reply_id)
                  (hint (new_hint (env.fresh n) "system" prompt) ∷ []);
          }) in
      record {
        completed = completed;
        prompt = prompt;
        asked = asked;
        is_free = is_free;
        room = room;
        counted = refl;
        status = refl;
        id = env.fresh n;
        hinted = record { event = y.event; appended = y.appended; says = y.says };
        written = refl;
      }

  after_stop-Outcome :
      (d : StopDecision)
      → env.stop_decision w.moment ≡ d
      → x.finished_reason ≡ ReplyFinishedReason.completed
      → Outcome (after_stop env x d (record w { moment = suc w.moment }))
  unfolding after_stop ◌>>=◌ ask_env gets throw
  after_stop-Outcome stop_turn asked completed = leave-Outcome (suc w.moment) (stops asked)
  after_stop-Outcome (stop_raised e) asked completed = record {
    completed = completed;
    raised = asked;
    same = refl;
  }
  after_stop-Outcome (continue_turn prompt) asked completed =
      let count = w.run.runtime_context.continuation_count in
      let most = w.run.runtime_context.max_continuations in
      let is_set = env.cancellation (suc w.moment) in
      Outcome-if (not is_set && ltb count most) (go_on env prompt) (leave env x)
        (record w { moment = suc (suc w.moment) })
        (λ t.
          go_on-Outcome (suc (suc w.moment)) prompt completed asked
            (is_free_of is_set (ltb count most) t) (below count most is_set t))
        λ f.
          leave-Outcome (suc (suc w.moment)) (is_bound prompt asked (bounded count most is_set f))
    where
      is_free_of : (c r : Bool) → (not c && r) ≡ true → c ≡ false
      is_free_of c r h = ground (arith, h)

      below : (a b : ℕ) (c : Bool) → (not c && ltb a b) ≡ true → a < b
      below a b c h = ground (arith, h)

      bounded : (a b : ℕ) (c : Bool) → (not c && ltb a b) ≡ false → (c ≡ true) ⊎ (b ≤ a)
      bounded a b c h = ground (arith, h)

  is_completed_eq :
      (r : ReplyFinishedReason) → is_completed env r ≡ true → r ≡ ReplyFinishedReason.completed
  is_completed_eq ReplyFinishedReason.completed h = refl
  is_completed_eq ReplyFinishedReason.interrupted h = ground (arith, h)
  is_completed_eq ReplyFinishedReason.error h = ground (arith, h)
  is_completed_eq ReplyFinishedReason.exceed_max_iters h = ground (arith, h)

  is_completed_ne :
      (r : ReplyFinishedReason) → is_completed env r ≡ false → r ≢ ReplyFinishedReason.completed
  is_completed_ne r h e = absurd (ground (arith, h, e))

  -- Every way out of an Exit. A run that had not completed is left. For a completed one the hook
  -- decides. If it raises, so does the Exit, and nothing but the moment has changed. If it asks for
  -- more, and nothing is cancelled and the count of continuations is below its maximum, that one is
  -- counted, the prompt is appended to the reply and yielded as one hint, and the run goes on.
  -- Otherwise the run is left. Leaving sets the status and the reason, yields one ReplyEnd with that
  -- reason, and keeps the conversation.
  pub exit_stream-Outcome : Outcome (exit_stream env x w)
  unfolding exit_stream ◌>>=◌ ask_env
  exit_stream-Outcome =
      Outcome-if (is_completed env x.finished_reason)
        (do decision ← ask_env env.stop_decision; after_stop env x decision) (leave env x) w
        (λ t.
          after_stop-Outcome (env.stop_decision w.moment) refl
            (is_completed_eq x.finished_reason t))
        λ f. leave-Outcome w.moment (not_completed (is_completed_ne x.finished_reason f))
