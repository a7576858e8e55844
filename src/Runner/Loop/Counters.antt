-- ===== src/Runner/Loop/Counters.antt =====
-- The counters of a run that bound its turns, and how `decide` changes them
-- (src/ftre_agent_core/agent/runner/react_runner.py).
use ftre_agent_core.Prelude.{
  ℕ, suc, ◌+◌, ◌≤◌, ◌≡◌, refl, String, Option, none, some, Bool, true, false, List, [], ◌∷◌, ltb,
  if◌then◌else◌, subst, arith,
}
use ftre_agent_core.Json.{Fields}
use ftre_agent_core.Runner.{
  RunState, ToolCall, TurnResult, Reasoning, Action, Exit, reasoning, acting, exit,
}
use ftre_agent_core.World.{set_run}
use ftre_agent_core.World.Keeps.{Keeps, Keeps-set_run, keeps_rules}
use ftre_agent_core.Env.{Env, BeforeReasoning, messages, before_raised}
use ftre_agent_core.Runner.Decide.{
  is_blank, decide_empty, decide_turn, decide, exhausted, exit_of_error,
}
use ftre_agent_core.Runner.Acting.Batch.{act-Keeps}
use ftre_agent_core.Runner.ReasoningExecutor.Attempts.{reason-Keeps}
use ftre_agent_core.Runner.ExitExecutor.{finalize, count_up, exit_stream}
use ftre_agent_core.Runner.ExitExecutor.Laws.{exit_stream-Keeps}
use ftre_agent_core.Runner.Loop.{
  check_cancelled, answer, dispatch_before_reasoning, add_messages, rotate_message_id, reason_turn,
  do_acting,
}

-- What of a run's state its bounds are about.
pub record Counters : Type 0 where
  pub most : Option ℕ
  pub iteration : ℕ
  pub empty_retries : ℕ
  pub in_finalization : Bool
  pub continuations : ℕ
  pub most_continuations : ℕ

abbrev pub counters : RunState → Counters
counters s = record {
  most = s.runtime_context.max_iterations;
  iteration = s.iteration;
  empty_retries = s.empty_retries;
  in_finalization = s.in_finalization;
  continuations = s.runtime_context.continuation_count;
  most_continuations = s.runtime_context.max_continuations;
}

abbrev pub one_if : Bool → ℕ
one_if true = 1
one_if false = 0

pub one_if-most : (b : Bool) → one_if b ≤ 1
one_if-most true = omega arith
one_if-most false = omega arith

-- `spare` more turns may be started than have been.
pub record IsWithin (n spare : ℕ) (c : Counters) : Type 0 where
  pub limit : c.most ≡ some n
  pub turns : c.iteration + spare ≤ n + c.empty_retries + one_if c.in_finalization
  pub retries : c.empty_retries ≤ 2

-- The counters at the start of a run whose `max_iterations` is n.
pub record IsFresh (n : ℕ) (c : Counters) : Type 0 where
  pub limit : c.most ≡ some n
  pub no_turns : c.iteration ≡ 0
  pub no_retries : c.empty_retries ≡ 0
  pub not_final : c.in_finalization ≡ false

pub IsFresh-IsWithin : (n : ℕ) (c : Counters) → IsFresh n c → IsWithin n 0 c
IsFresh-IsWithin n c h = record {
  limit = h.limit;
  turns = omega (arith, h.no_turns);
  retries = omega (arith, h.no_retries);
}

pub iteration-bound : (n : ℕ) (c : Counters) → IsWithin n 0 c → c.iteration ≤ n + 3
iteration-bound n c h =
    let last = one_if-most c.in_finalization in omega (arith, h.turns, h.retries, last)

-- What must hold of the state for an action: a turn needs room.
abbrev pub Fits : ℕ → Action → RunState → Type 0
Fits n (reasoning r) s = IsWithin n 1 (counters s)
Fits n (acting calls) s = IsWithin n 0 (counters s)
Fits n (exit x) s = IsWithin n 0 (counters s)

pub Fits-IsWithin : (n : ℕ) (a : Action) (s : RunState) → Fits n a s → IsWithin n 0 (counters s)
Fits-IsWithin n (reasoning r) s h = record {
  limit = h.limit;
  turns = omega (arith, h.turns);
  retries = h.retries;
}
Fits-IsWithin n (acting calls) s h = h
Fits-IsWithin n (exit x) s h = h

abbrev pub is_acting : Action → Bool
is_acting (acting calls) = true
is_acting (reasoning r) = false
is_acting (exit x) = false

module _ (n : ℕ) where
  abbrev pub IsFit : Action × RunState → Type 0
  IsFit p = Fits n p.0 p.1

  IsFit-if :
      (b : Bool) (x y : Action × RunState)
      → (b ≡ true → IsFit x)
      → (b ≡ false → IsFit y)
      → IsFit (if b then x else y)
  IsFit-if true x y fx fy = fx refl
  IsFit-if false x y fx fy = fy refl

  decide_empty-IsFit : (s : RunState) → IsWithin n 0 (counters s) → IsFit (decide_empty s)
  unfolding decide_empty
  decide_empty-IsFit s h =
      IsFit-if s.in_finalization _ _ (λ _. h)
        λ off.
          IsFit-if (ltb s.empty_retries 2) _ _
            (λ low. record {
              limit = h.limit;
              turns = omega (arith, h.turns);
              retries = ground (arith, low);
            })
            λ high.
              let turns : s.iteration + 0 ≤ n + s.empty_retries + 0 =
                subst (λ b. s.iteration + 0 ≤ n + s.empty_retries + one_if b) off h.turns in
              record { limit = h.limit; turns = omega (arith, turns); retries = h.retries }

  decide_turn-IsFit :
      (s : RunState) (text : String) (calls : List ToolCall)
      → IsWithin n 0 (counters s)
      → IsFit (decide_turn s text calls)
  unfolding decide_turn
  decide_turn-IsFit s text (call ∷ calls) h = h
  decide_turn-IsFit s text [] h = IsFit-if (is_blank text) _ _ (λ _. decide_empty-IsFit s h) λ _. h

  exhausted-most : (o : Option ℕ) (i : ℕ) → o ≡ some n → exhausted o i ≡ false → suc i ≤ n
  exhausted-most none i h t = ground (arith, h)
  exhausted-most (some m) i h t = ground (arith, h, t)

  failed_or-IsFit :
      (s : RunState) (prev : TurnResult) → IsWithin n 0 (counters s) → IsFit (decide s (some prev))
  unfolding decide
  failed_or-IsFit s prev h =
      elim prev.error
        as (λ o. IsFit (elim o [
          | some e ↦ (exit_of_error e, s)
          | none ↦ decide_turn s prev.text prev.tool_calls
        ])) [ some e ↦ h | none ↦ decide_turn-IsFit s prev.text prev.tool_calls h ]

  pub decide-IsFit :
      (s : RunState) (prev : Option TurnResult) → IsWithin n 0 (counters s) → IsFit (decide s prev)
  unfolding decide
  decide-IsFit s (some prev) h = failed_or-IsFit s prev h
  decide-IsFit s none h =
      IsFit-if (exhausted s.runtime_context.max_iterations s.iteration) _ _ (λ _. h)
        λ t.
          let room = exhausted-most s.runtime_context.max_iterations s.iteration h.limit t in
          record { limit = h.limit; turns = omega (arith, room); retries = h.retries }

-- What the loop does apart from counting a turn keeps whatever is about the counters alone.
module _ (P : Counters → Type 0) (env : Env) where
  abbrev pub OnCounters : RunState → List ToolCall → Type 0
  OnCounters s calls = P (counters s)

  check_cancelled-Keeps : (u : Unit {0}) → Keeps OnCounters (check_cancelled env)
  unfolding check_cancelled
  check_cancelled-Keeps u = search keeps_rules depth 12

  answer-Keeps : (r : BeforeReasoning) → Keeps OnCounters (answer env r)
  unfolding answer
  answer-Keeps (messages l) = search keeps_rules
  answer-Keeps (before_raised e) = search keeps_rules

  dispatch-Keeps : (u : Unit {0}) → Keeps OnCounters (dispatch_before_reasoning env)
  unfolding dispatch_before_reasoning
  dispatch-Keeps u = search (keeps_rules, check_cancelled-Keeps, answer-Keeps) depth 12

  pub add_messages-Keeps : (l : List Fields) → Keeps OnCounters (add_messages env l)
  unfolding add_messages
  add_messages-Keeps l = search keeps_rules depth 12

  set_message_id-Keeps :
      (id : String) → Keeps OnCounters (set_run λ s. record s { message_id = id })
  set_message_id-Keeps id = Keeps-set_run OnCounters _ λ s l h. h

  rotate-Keeps : (l : List Fields) → Keeps OnCounters (rotate_message_id env l)
  unfolding rotate_message_id
  rotate-Keeps l = search (keeps_rules, set_message_id-Keeps) depth 12

  pub reason_turn-Keeps : (r : Reasoning) → Keeps OnCounters (reason_turn env r)
  unfolding reason_turn
  reason_turn-Keeps r =
      search
        (
          keeps_rules,
          dispatch-Keeps,
          add_messages-Keeps,
          rotate-Keeps,
          reason-Keeps OnCounters (λ u s l h. h) env,
        )
        depth 12

  pub do_acting-Keeps : (calls : List ToolCall) → Keeps OnCounters (do_acting env calls)
  unfolding do_acting
  do_acting-Keeps calls = search (keeps_rules, act-Keeps OnCounters (λ s l calls h. h) env) depth 12

  pub exit-Keeps :
      ((s : RunState) → P (counters s) → P (counters (count_up env s)))
      → (x : Exit) → Keeps OnCounters (exit_stream env x)
  unfolding finalize
  exit-Keeps counted x = exit_stream-Keeps OnCounters (λ y s l h. h) env (λ s l h. counted s h) x
