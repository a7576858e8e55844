-- ===== src/Runner/Loop/Termination.antt =====
-- The loop ends (src/ftre_agent_core/agent/runner/react_runner.py, `_loop`): each turn of the model
-- uses up one of a bounded number, each batch of calls follows a turn, and the continuations are
-- bounded.
use ftre_agent_core.Prelude.{
  ℕ, zero, suc, ◌+◌, ◌*◌, ◌≤◌, ◌≡◌, refl, String, Option, none, some, Bool, true, false, List, [],
  ◌∷◌, ltb, is_some, ◌&&◌, not, ◌<◌, if◌then◌else◌, subst, ap, sym, arith,
}
use mathlib.Core.Bool.{true≢false}
use ftre_agent_core.Runner.{
  RunState, RuntimeContext, ToolCall, TurnResult, Reasoning, Action, Exit, reasoning, acting, exit,
}
use ftre_agent_core.World.{
  Exc, Result, ok, err, continue, World, Exec, pure, ask_env, gets, ◌>>=◌, set_run, set_context,
  emit, emit_plain,
}
use ftre_agent_core.Env.{Env, StopDecision, stop_turn, continue_turn, stop_raised}
use ftre_agent_core.Runner.Decide.{
  is_blank, decide_empty, decide_turn, decide, exhausted, exit_of_error,
}
use ftre_agent_core.Runner.ExitExecutor.{
  count_up, leave, go_on, after_stop, is_completed, exit_stream,
}
use ftre_agent_core.Runner.Loop.{
  LoopEnd, paused, ended, out_of_fuel, count_iteration, reason_turn, do_reasoning, do_acting,
  choose, after_acting, after_exit, perform, loop, catch_internal, run_loop,
}
use ftre_agent_core.Runner.Loop.Counters.{
  Counters, counters, IsFresh, IsFresh-IsWithin, one_if, one_if-most, Fits-IsWithin, IsWithin, Fits,
  decide-IsFit, is_acting, reason_turn-Keeps, do_acting-Keeps,
}

-- `turns` more turns and `more` more continuations can be started at most.
record IsLeft (n turns more : ℕ) (c : Counters) : Type 0 where
  pub within : IsWithin n 0 c
  pub last_turn : n + 3 ≤ c.iteration + turns
  pub last_more : c.most_continuations ≤ c.continuations + more

Pair-if :
    (P : Action × RunState → Type 0) (b : Bool) (x y : Action × RunState)
    → P x
    → P y
    → P (if b then x else y)
Pair-if P true x y px py = px
Pair-if P false x y px py = py

-- `decide` starts nothing: it leaves the number of turns and the runtime context alone, and it runs
-- tools only right after a turn.
record IsSteady (before : RunState) (prev : Option TurnResult) (p : Action × RunState)
    : Type 0 where
  pub same_turns : p.1.iteration ≡ before.iteration
  pub same_context : p.1.runtime_context ≡ before.runtime_context
  pub after_turn : is_acting p.0 ≡ true → is_some prev ≡ true

module _ (s : RunState) where
  decide_empty-IsSteady : (prev : TurnResult) → IsSteady s (some prev) (decide_empty s)
  unfolding decide_empty
  decide_empty-IsSteady prev =
      Pair-if (IsSteady s (some prev)) s.in_finalization _ _
        (record { same_turns = refl; same_context = refl; after_turn = λ _. refl })
        (Pair-if (IsSteady s (some prev)) (ltb s.empty_retries 2) _ _
          (record { same_turns = refl; same_context = refl; after_turn = λ _. refl })
          (record { same_turns = refl; same_context = refl; after_turn = λ _. refl }))

  decide_turn-IsSteady :
      (prev : TurnResult) (text : String) (calls : List ToolCall)
      → IsSteady s (some prev) (decide_turn s text calls)
  unfolding decide_turn
  decide_turn-IsSteady prev text (call ∷ calls) = record {
    same_turns = refl;
    same_context = refl;
    after_turn = λ _. refl;
  }
  decide_turn-IsSteady prev text [] =
      Pair-if (IsSteady s (some prev)) (is_blank text) _ _ (decide_empty-IsSteady prev)
        (record { same_turns = refl; same_context = refl; after_turn = λ _. refl })

  decide-IsSteady : (prev : Option TurnResult) → IsSteady s prev (decide s prev)
  unfolding decide
  decide-IsSteady none =
      Pair-if (IsSteady s none) (exhausted s.runtime_context.max_iterations s.iteration) _ _
        (record {
          same_turns = refl;
          same_context = refl;
          after_turn = λ h. absurd (true≢false (sym h));
        })
        (record {
          same_turns = refl;
          same_context = refl;
          after_turn = λ h. absurd (true≢false (sym h));
        })
  decide-IsSteady (some prev) =
      elim prev.error
        as (λ o. IsSteady s (some prev) (elim o [
          | some e ↦ (exit_of_error e, s)
          | none ↦ decide_turn s prev.text prev.tool_calls
        ])) [
          | some e ↦ record { same_turns = refl; same_context = refl; after_turn = λ _. refl }
          | none ↦ decide_turn-IsSteady prev prev.text prev.tool_calls
        ]

-- An outcome of the loop other than running out of fuel.
abbrev pub HasEnded : Result LoopEnd × World → Type 0
HasEnded (ok out_of_fuel, w) = ⊥
HasEnded (ok paused, w) = Unit {0}
HasEnded (ok ended, w) = Unit {0}
HasEnded (err e, w) = Unit {0}

module _ {A : Type 0} where
  continue-HasEnded :
      (Q : RunState → Type 0) (r : Result A) (w : World) (f : A → Exec LoopEnd)
      → Q w.run
      → ((a : A) (v : World) → Q v.run → HasEnded (f a v))
      → HasEnded (continue r f w)
  continue-HasEnded Q (ok a) w f h k = k a w h
  continue-HasEnded Q (err e) w f h k = tt

one_less :
    (c most more : ℕ)
    → c < most
    → most ≤ c + more
    → (less : ℕ) × (more ≡ suc less) × (most ≤ c + 1 + less)
one_less c most zero a b = absurd (omega (arith, a, b))
one_less c most (suc less) a b = (less, refl, omega (arith, b))

module _ (n : ℕ) (env : Env) where
  -- After an exit that lets the loop go on, one continuation less is left.
  Continued : ℕ → ℕ → Result Bool × World → Type 0
  Continued turns more (ok true, w) =
      (less : ℕ) × (more ≡ suc less) × IsLeft n turns less (counters w.run)
  Continued turns more (ok false, w) = Unit {0}
  Continued turns more (err e, w) = Unit {0}

  module _ (turns more : ℕ) where
    Continued-if :
        (b : Bool) (m k : Exec Bool) (w : World)
        → (b ≡ true → Continued turns more (m w))
        → (b ≡ false → Continued turns more (k w))
        → Continued turns more ((if b then m else k) w)
    Continued-if true m k w fm fk = fm refl
    Continued-if false m k w fm fk = fk refl

    leave-Continued : (x : Exit) (w : World) → Continued turns more (leave env x w)
    unfolding leave ◌>>=◌ set_run emit Continued
    leave-Continued x w = tt

    and-right : (a b : Bool) → (a && b) ≡ true → b ≡ true
    and-right true b h = h
    and-right false b h = absurd (true≢false (sym h))

    go_on-Continued :
        (prompt : String) (w : World)
        → IsLeft n turns more (counters w.run)
        → w.run.runtime_context.continuation_count < w.run.runtime_context.max_continuations
        → Continued turns more (go_on env prompt w)
    unfolding go_on ◌>>=◌ set_run set_context emit Continued
    go_on-Continued prompt w h room =
        let context = w.run.runtime_context in
        let (less, e, last) =
          one_less context.continuation_count context.max_continuations more room h.last_more in
        let within : IsWithin n 0 (counters (count_up env w.run)) = record {
          limit = h.within.limit;
          turns = h.within.turns;
          retries = h.within.retries;
        } in
        (less, e, record { within = within; last_turn = h.last_turn; last_more = last })

    after_stop-Continued :
        (x : Exit) (d : StopDecision) (w : World)
        → IsLeft n turns more (counters w.run)
        → Continued turns more (after_stop env x d w)
    unfolding after_stop ◌>>=◌ ask_env gets Continued
    after_stop-Continued x stop_turn w h = leave-Continued x w
    after_stop-Continued x (stop_raised e) w h = tt
    after_stop-Continued x (continue_turn prompt) w h =
        let room =
          ltb w.run.runtime_context.continuation_count w.run.runtime_context.max_continuations in
        let v : World = record w { moment = suc w.moment } in
        Continued-if (not (env.cancellation w.moment) && room) (go_on env prompt) (leave env x) v
          (λ t.
            let less : room ≡ true = and-right (not (env.cancellation w.moment)) room t in
            go_on-Continued prompt v h (ground (arith, less)))
          λ _. leave-Continued x v

    exit-Continued :
        (x : Exit) (w : World)
        → IsLeft n turns more (counters w.run)
        → Continued turns more (exit_stream env x w)
    unfolding exit_stream ◌>>=◌ ask_env
    exit-Continued x w h =
        Continued-if (is_completed env x.finished_reason)
          (do decision ← ask_env env.stop_decision; after_stop env x decision) (leave env x) w
          (λ _.
            after_stop-Continued x (env.stop_decision w.moment) (record w { moment = suc w.moment })
              h)
          λ _. leave-Continued x w

  -- The most rounds that the loop can still make.
  abbrev rounds : ℕ → ℕ → Option TurnResult → ℕ
  rounds turns more prev = 2 * turns + 2 * more + one_if (is_some prev)

  abbrev Left : ℕ → ℕ → RunState → Type 0
  Left turns more s = IsLeft n turns more (counters s)

  module _ (rest : Option TurnResult → Exec LoopEnd) (fuel : ℕ)
      (k : (turns more : ℕ) (prev : Option TurnResult) (w : World)
        → Left turns more w.run
        → rounds turns more prev < fuel
        → HasEnded (rest prev w)) where
    after_acting-HasEnded :
        (turns more : ℕ) (asked : Bool) (w : World)
        → Left turns more w.run
        → rounds turns more none < fuel
        → HasEnded (after_acting env rest asked w)
    unfolding after_acting ◌>>=◌ set_run pure
    after_acting-HasEnded turns more true w h room = tt
    after_acting-HasEnded turns more false w h room = k turns more none w h room

    after_exit-HasEnded :
        (turns more : ℕ) (p : Result Bool × World)
        → Continued turns more p
        → rounds turns more none < suc fuel
        → HasEnded (continue p.0 (after_exit env rest) p.1)
    unfolding after_exit Continued pure
    after_exit-HasEnded turns more (ok true, w) (less, e, h) room =
        k turns less none w h (omega (arith, e, room))
    after_exit-HasEnded turns more (ok false, w) h room = tt
    after_exit-HasEnded turns more (err e, w) h room = tt

    -- A turn is one fewer left.
    reasoning-HasEnded :
        (turns more : ℕ) (prev : Option TurnResult) (r : Reasoning) (w : World)
        → Left (suc turns) more w.run
        → Fits n (reasoning r) w.run
        → rounds (suc turns) more prev < suc fuel
        → HasEnded (perform env rest (reasoning r) w)
    unfolding perform do_reasoning ◌>>=◌ set_run
    reasoning-HasEnded turns more prev r w h fits room =
        let v : World = record w { run = count_iteration w.run } in
        let within : IsWithin n 0 (counters v.run) = record {
          limit = fits.limit;
          turns = omega (arith, fits.turns);
          retries = fits.retries;
        } in
        let left : Left turns more v.run = record {
          within = within;
          last_turn = omega (arith, h.last_turn);
          last_more = h.last_more;
        } in
        continue-HasEnded (Left turns more) (reason_turn env r v).0 (reason_turn env r v).1 _
          ((reason_turn-Keeps (IsLeft n turns more) env r).at v left)
          λ result u h'.
            let most = one_if-most (is_some result) in
            k turns more result u h' (omega (arith, room, most))

    perform-HasEnded :
        (turns more : ℕ) (prev : Option TurnResult) (a : Action) (w : World)
        → Left turns more w.run
        → Fits n a w.run
        → (is_acting a ≡ true → is_some prev ≡ true)
        → rounds turns more prev < suc fuel
        → HasEnded (perform env rest a w)
    unfolding perform ◌>>=◌
    perform-HasEnded turns more prev (acting calls) w h fits after room =
        continue-HasEnded (Left turns more) (do_acting env calls w).0 (do_acting env calls w).1 _
          ((do_acting-Keeps (IsLeft n turns more) env calls).at w h)
          λ asked v left.
            after_acting-HasEnded turns more asked v left
              (omega (arith, room, ap one_if (after refl)))
    perform-HasEnded turns more prev (exit x) w h fits after room =
        after_exit-HasEnded turns more (exit_stream env x w) (exit-Continued turns more x w h)
          (omega (arith, room))
    perform-HasEnded zero more prev (reasoning r) w h fits after room =
        let last = one_if-most w.run.in_finalization in
        absurd (omega (arith, fits.turns, fits.retries, last, h.last_turn))
    perform-HasEnded (suc turns) more prev (reasoning r) w h fits after room =
        reasoning-HasEnded turns more prev r w h fits room

  loop-HasEnded :
      (fuel turns more : ℕ) (prev : Option TurnResult) (w : World)
      → Left turns more w.run
      → rounds turns more prev < fuel
      → HasEnded (loop env fuel prev w)
  unfolding loop choose ◌>>=◌
  loop-HasEnded zero turns more prev w h room = absurd (omega (arith, room))
  loop-HasEnded (suc fuel) turns more prev w h room =
      let steady = decide-IsSteady w.run prev in
      let fits = decide-IsFit n w.run prev h.within in
      let s = (decide w.run prev).1 in
      perform-HasEnded (loop env fuel) fuel (loop-HasEnded fuel) turns more prev
        (decide w.run prev).0 (record w { run = s })
        (record {
          within = Fits-IsWithin n (decide w.run prev).0 s fits;
          last_turn = omega (arith, h.last_turn, steady.same_turns);
          last_more =
              subst (λ (c : RuntimeContext). c.max_continuations ≤ c.continuation_count + more)
                (sym steady.same_context) h.last_more;
        })
        fits steady.after_turn room

  catch_internal-HasEnded :
      (r : Result LoopEnd × World) → HasEnded r → HasEnded (catch_internal env r)
  unfolding catch_internal set_run emit_plain ◌>>=◌ gets pure
  catch_internal-HasEnded (ok e, w) h = h
  catch_internal-HasEnded (err Exc.internal_cancelled, w) h = tt
  catch_internal-HasEnded (err Exc.cancelled, w) h = tt
  catch_internal-HasEnded (err (Exc.failed s), w) h = tt

  -- With max_iterations n, more than 2 (n + 3) rounds, and two more for each continuation that is
  -- allowed, are enough fuel: the loop of a fresh run returns or raises, whatever its environment
  -- answers.
  pub run_loop-HasEnded :
      (fuel : ℕ) (w : World)
      → IsFresh n (counters w.run)
      → 2 * (n + 3) + 2 * w.run.runtime_context.max_continuations < fuel
      → HasEnded (run_loop env fuel w)
  unfolding run_loop
  run_loop-HasEnded fuel w fresh room = catch_internal-HasEnded (loop env fuel none w) (
      loop-HasEnded fuel (n + 3) w.run.runtime_context.max_continuations none w
        (record {
          within = IsFresh-IsWithin n (counters w.run) fresh;
          last_turn = omega arith;
          last_more = omega arith;
        })
        (omega (arith, room)))
