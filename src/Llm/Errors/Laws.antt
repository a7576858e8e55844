-- ===== src/Llm/Errors/Laws.antt =====
-- Which exceptions of a model call are tried again (src/ftre_agent_core/llm/errors.py).
use ftre_agent_core.Prelude.{
  ℕ, String, ◌≡◌, ◌≢◌, refl, Option, none, some, Bool, true, false, ◌||◌, ◌==◌, eqb, inl, inr,
  Option-cases, arith,
}
use ftre_agent_core.Llm.Errors.{Failure, override, status_of, code_of_status, code_of, classify}
use ftre_agent_core.Runner.ReasoningExecutor.{Collector, is_unretryable, on_error}
use ftre_agent_core.Runner.{TurnResult}
use ftre_agent_core.World.{World, Exec}
use ftre_agent_core.Runner.ReasoningExecutor.Retries.{on_error-unretryable}
use ftre_agent_core.Env.{Env, ErrorDecision}

-- The statuses of a request that a provider has refused for what it is.
abbrev pub is_refused : Option ℕ → Bool
is_refused none = false
is_refused (some s) = eqb s 400 || eqb s 401 || eqb s 402 || eqb s 403

abbrev pub unretryable_code : Option String → Bool
unretryable_code none = false
unretryable_code (some code) = is_unretryable code

refused_code : (o : Option ℕ) → is_refused o ≡ unretryable_code (code_of_status o)
refused_code none = refl
refused_code (some s) = ground arith

-- The codes that the runner and the hosts know.
abbrev pub is_known : String → Bool
is_known code =
    is_unretryable code
    || code == "rate_limit"
    || code == "timeout"
    || code == "network"
    || code == "internal_server_error"
    || code == "api_error"
    || code == "unknown"

abbrev IsKnown : Option String → Type 0
IsKnown none = Unit {0}
IsKnown (some code) = is_known code ≡ true

refused_is_final :
    (e : Failure)
    → override e ≡ none
    → is_refused (status_of e) ≡ true
    → is_unretryable (classify e).code ≡ true
unfolding classify code_of
refused_is_final e o r = elim (Option-cases (code_of_status (status_of e))) [
  | inl n ↦ absurd (ground (arith, refused_code (status_of e), r, n))
  | inr (code, f) ↦ rw (classify, code_of, o, f) (ground (arith, refused_code (status_of e), r, f))
]

-- A model call that failed with a status from 400 to 403, whatever the exception's class and its
-- text, and without an override by the exception's own code, is not tried again, unless the error
-- hook decides `retry`: in the handling of the error, what another attempt would do plays no part.
pub on_error-classify :
    (env : Env) (reply_id message_id : String) (left attempt : ℕ)
    (again other : Exec (Option TurnResult)) (c : Collector) (e : Failure) (w : World)
    → override e ≡ none
    → is_refused (status_of e) ≡ true
    → ((moment : ℕ) → env.llm_error moment ≢ ErrorDecision.retry)
    → on_error env reply_id message_id left attempt again c (classify e) w
      ≡ on_error env reply_id message_id left attempt other c (classify e) w
on_error-classify env reply_id message_id left attempt again other c e w o r never =
    on_error-unretryable env reply_id never message_id left attempt again other c (classify e) w
      (refused_is_final e o r)
