-- ===== src/Runner/Decide/Laws.antt =====
-- What the decisions of `decide` mean (src/ftre_agent_core/agent/runner/react_runner.py).
use ftre_agent_core.Prelude.{
  ◌≡◌, ◌≢◌, ◌↔◌, subst, arith, refl, sym, ap, ◌∙◌, Option, none, some, Bool, true, false, List, [],
  ◌∷◌, cons-ne-nil, ltb, if◌then◌else◌,
}
use mathlib.Core.Bool.{true≢false}
use ftre_agent_core.Message.{ReplyFinishedReason}
use ftre_agent_core.Runner.{
  RunState, ToolCall, LlmError, TurnResult, Action, reasoning, acting, exit,
}
use ftre_agent_core.Runner.Decide.{
  is_blank, decide_empty, decide_turn, decide, exhausted, exit_of_error, plain_exit,
}

-- A turn that is the final answer: visible text, no tool calls and no error.
pub record IsAnswer (prev : Option TurnResult) : Type 0 where
  pub turn : TurnResult
  pub is_it : prev ≡ some turn
  pub no_error : turn.error ≡ none
  pub no_calls : turn.tool_calls ≡ []
  pub visible : is_blank turn.text ≡ false

-- Calls of a turn that did not fail.
pub record Asks (prev : Option TurnResult) (calls : List ToolCall) : Type 0 where
  pub turn : TurnResult
  pub is_it : prev ≡ some turn
  pub no_error : turn.error ≡ none
  pub same : turn.tool_calls ≡ calls
  pub some_call : calls ≢ []

-- What each kind of action says of the turn before it.
abbrev pub Means : Option TurnResult → Action → Type 0
Means prev (reasoning r) = Unit {0}
Means prev (acting calls) = Asks prev calls
Means prev (exit x) = x.finished_reason ≡ ReplyFinishedReason.completed → IsAnswer prev

abbrev is_completed : ReplyFinishedReason → Bool
is_completed ReplyFinishedReason.completed = true
is_completed _ = false

Means-if :
    (prev : Option TurnResult) (b : Bool) (x y : Action × RunState)
    → (b ≡ true → Means prev x.0)
    → (b ≡ false → Means prev y.0)
    → Means prev (if b then x else y).0
Means-if prev true x y fx fy = fx refl
Means-if prev false x y fx fy = fy refl

never :
    {P : Type 0} (r : ReplyFinishedReason)
    → is_completed r ≡ false
    → r ≡ ReplyFinishedReason.completed
    → P
never r h e = absurd (true≢false (sym (ap is_completed e) ∙ h))

decide_empty-Means : (s : RunState) (prev : Option TurnResult) → Means prev (decide_empty s).0
unfolding decide_empty
decide_empty-Means s prev =
    Means-if prev s.in_finalization _ _ (λ _. never ReplyFinishedReason.error refl)
      λ _. Means-if prev (ltb s.empty_retries 2) _ _ (λ _. tt) λ _. tt

module _ (s : RunState) (turn : TurnResult) where
  decide_turn-Means :
      (calls : List ToolCall)
      → turn.error ≡ none
      → turn.tool_calls ≡ calls
      → Means (some turn) (decide_turn s turn.text calls).0
  unfolding decide_turn
  decide_turn-Means (c ∷ cs) fine same = record {
    turn = turn;
    is_it = refl;
    no_error = fine;
    same = same;
    some_call = cons-ne-nil;
  }
  decide_turn-Means [] fine same =
      Means-if (some turn) (is_blank turn.text) _ _ (λ _. decide_empty-Means s (some turn))
        λ seen _. record {
          turn = turn;
          is_it = refl;
          no_error = fine;
          no_calls = same;
          visible = seen;
        }

  by_error :
      (o : Option LlmError)
      → turn.error ≡ o
      → Means
          (some turn)
          (elim o as (λ _. Action × RunState) [
            | some e ↦ (exit_of_error e, s)
            | none ↦ decide_turn s turn.text turn.tool_calls
          ]).0
  by_error none fine = decide_turn-Means turn.tool_calls fine refl
  by_error (some e) failed = never ReplyFinishedReason.error refl

-- A final answer ends the run as COMPLETED.
IsAnswer-exit :
    (s : RunState) (prev : Option TurnResult)
    → IsAnswer prev
    → (decide s prev).0 ≡ plain_exit ReplyFinishedReason.completed
unfolding decide decide_turn
IsAnswer-exit s prev a = rw (a.is_it, decide, a.no_error, a.no_calls, decide_turn, a.visible) refl

Asks-acting :
    (s : RunState) (prev : Option TurnResult) (calls : List ToolCall)
    → Asks prev calls
    → (decide s prev).0 ≡ acting calls
unfolding decide decide_turn
Asks-acting s prev [] a = absurd (a.some_call refl)
Asks-acting s prev (c ∷ cs) a = rw (a.is_it, decide, a.no_error, a.same) refl

decide_action-Means : (s : RunState) (prev : Option TurnResult) → Means prev (decide s prev).0
unfolding decide
decide_action-Means s none =
    Means-if none (exhausted s.runtime_context.max_iterations s.iteration) _ _
      (λ _. never ReplyFinishedReason.exceed_max_iters refl) λ _. tt
decide_action-Means s (some turn) = by_error s turn turn.error refl

-- An Exit with the reason COMPLETED.
abbrev pub is_finish : Action → Bool
is_finish (exit x) = is_completed x.finished_reason
is_finish _ = false

is_finish-IsAnswer :
    (prev : Option TurnResult) (a : Action) → Means prev a → is_finish a ≡ true → IsAnswer prev
is_finish-IsAnswer prev (reasoning r) m h = absurd (true≢false (sym h))
is_finish-IsAnswer prev (acting calls) m h = absurd (true≢false (sym h))
is_finish-IsAnswer prev (exit x) m h = m (ground (arith, h))

-- `decide` chooses an Acting exactly for the tool calls, if there are some, of a turn that did not
-- fail, and an Exit with the reason COMPLETED exactly after a final answer, which is a turn with
-- visible text, no tool calls and no error. The other ways into a tool and to the end of a run are
-- not its choice.
pub decide-Means :
    (s : RunState) (prev : Option TurnResult) (calls : List ToolCall)
    → (((decide s prev).0 ≡ acting calls) ↔ Asks prev calls)
      × ((is_finish (decide s prev).0 ≡ true) ↔ IsAnswer prev)
decide-Means s prev calls = (
  (λ h. subst (Means prev) h (decide_action-Means s prev), Asks-acting s prev calls),
  (
    is_finish-IsAnswer prev (decide s prev).0 (decide_action-Means s prev),
    λ a. ap is_finish (IsAnswer-exit s prev a),
  ),
)
