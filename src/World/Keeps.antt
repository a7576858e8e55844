-- ===== src/World/Keeps.antt =====
-- Invariants of actions, with a rule for each way to build one. The rules for what leaves the run's
-- state alone serve every invariant of that state.
use ftre_agent_core.Prelude.{ℕ, String, Bool, true, false, List, Option, none, some, if◌then◌else◌}
use ftre_agent_core.Context.{Context}
use ftre_agent_core.Event.{EventBody}
use ftre_agent_core.Runner.{RunState, ToolCall}
use ftre_agent_core.World.{
  Exc, Result, ok, err, World, Exec, pure, throw, ask_env, gets, continue, ◌>>=◌, ◌>>◌, emit,
  emit_plain, set_context, set_run, when,
}

-- `m` keeps what `Q` says of the run's state and of the calls handed to tools, whether it returns or raises.
pub record Keeps {A : Type 0} (Q : RunState → List ToolCall → Type 0) (m : Exec A) : Type 0 where
  pub at : (w : World) → Q w.run w.spawned → Q (m w).1.run (m w).1.spawned

module _ (Q : RunState → List ToolCall → Type 0) where
  module _ {A B : Type 0} where
    continue-Keeps :
        (r : Result A) (f : A → Exec B) (w : World)
        → ((a : A) → Keeps Q (f a))
        → Q w.run w.spawned
        → Q (continue r f w).1.run (continue r f w).1.spawned
    continue-Keeps (ok a) f w k h = (k a).at w h
    continue-Keeps (err e) f w k h = h

    pub Keeps-bind :
        (m : Exec A) (f : A → Exec B) → Keeps Q m → ((a : A) → Keeps Q (f a)) → Keeps Q (m >>= f)
    unfolding ◌>>=◌
    Keeps-bind m f km kf = record { at = λ w h. continue-Keeps (m w).0 f (m w).1 kf (km.at w h) }

    pub Keeps-then : (m : Exec A) (n : Exec B) → Keeps Q m → Keeps Q n → Keeps Q (m >> n)
    Keeps-then m n km kn = Keeps-bind m (λ _. n) km λ _. kn

  module _ {A : Type 0} where
    pub Keeps-pure : (a : A) → Keeps Q (pure a)
    unfolding pure
    Keeps-pure a = record { at = λ w h. h }

    pub Keeps-throw : (e : Exc) → Keeps Q (throw {A = A} e)
    unfolding throw
    Keeps-throw e = record { at = λ w h. h }

    pub Keeps-ask_env : (f : ℕ → A) → Keeps Q (ask_env f)
    unfolding ask_env
    Keeps-ask_env f = record { at = λ w h. h }

    pub Keeps-gets : (f : World → A) → Keeps Q (gets f)
    unfolding gets
    Keeps-gets f = record { at = λ w h. h }

    pub Keeps-if : (b : Bool) (m n : Exec A) → Keeps Q m → Keeps Q n → Keeps Q (if b then m else n)
    Keeps-if true m n km kn = km
    Keeps-if false m n km kn = kn

  module _ {A B : Type 0} where
    pub Keeps-when :
        (x : Option A) (m : Exec B) (f : A → Exec B)
        → Keeps Q m
        → ((a : A) → Keeps Q (f a))
        → Keeps Q (when x m f)
    unfolding when
    Keeps-when none m f km kf = km
    Keeps-when (some a) m f km kf = kf a

  pub Keeps-emit : (now : ℕ → String) (id : String) (body : EventBody) → Keeps Q (emit now id body)
  unfolding emit
  Keeps-emit now id body = record { at = λ w h. h }

  pub Keeps-emit_plain : (now : ℕ → String) (body : EventBody) → Keeps Q (emit_plain now body)
  unfolding emit_plain
  Keeps-emit_plain now body = record { at = λ w h. h }

  pub Keeps-set_context : (f : Context → Context) → Keeps Q (set_context f)
  unfolding set_context
  Keeps-set_context f = record { at = λ w h. h }

  pub Keeps-set_run :
      (f : RunState → RunState)
      → ((s : RunState) (l : List ToolCall) → Q s l → Q (f s) l)
      → Keeps Q (set_run f)
  unfolding set_run
  Keeps-set_run f k = record { at = λ w h. k w.run w.spawned h }

pub ruleset keeps_rules = (
  Keeps-bind, Keeps-pure, Keeps-throw, Keeps-ask_env, Keeps-gets, Keeps-if, Keeps-when, Keeps-emit,
  Keeps-emit_plain, Keeps-set_context,
)
