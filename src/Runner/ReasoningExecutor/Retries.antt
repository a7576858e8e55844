-- ===== src/Runner/ReasoningExecutor/Retries.antt =====
-- When an attempt that raised is the last one
-- (src/ftre_agent_core/agent/runner/_execute_reasoning.py, ReasoningExecutor.stream).
use ftre_agent_core.Prelude.{
  ℕ, suc, arith, subst, String, ◌≡◌, ◌≢◌, refl, Option, Bool, true, false, ◌&&◌, ◌||◌,
  if◌then◌else◌,
}
use ftre_agent_core.Runner.{LlmError, TurnResult, is_cancelled}
use ftre_agent_core.World.{
  continue, Result, ok, err, World, Exec, pure, throw, ask_env, gets, ◌>>=◌,
}
use ftre_agent_core.Env.{Env, ErrorDecision, no_decision, stop, decision_cancelled}
use ftre_agent_core.Runner.ReasoningExecutor.{
  Collector, is_unretryable, is_zero, answer_decision, dispatch_llm_error, should_retry, on_error,
}

module _ {A B : Type 0} where
  -- Two continuations that agree on what an action gives.
  bind-same :
      (m : Exec A) (f g : A → Exec B) (w : World)
      → ((a : A) (v : World) → m w ≡ (ok a, v) → f a v ≡ g a v)
      → (m >>= f) w ≡ (m >>= g) w
  unfolding ◌>>=◌
  bind-same m f g w h = by_result (m w) h
    where
      by_result :
          (p : Result A × World)
          → ((a : A) (v : World) → p ≡ (ok a, v) → f a v ≡ g a v)
          → continue p.0 f p.1 ≡ continue p.0 g p.1
      by_result (ok a, v) k = k a v refl
      by_result (err e, v) k = refl

-- A decision of the hook that is not `retry`.
abbrev IsNoRetry : Result ErrorDecision → Type 0
IsNoRetry (ok d) = d ≢ ErrorDecision.retry
IsNoRetry (err e) = Unit {0}

module _ (env : Env) (reply_id : String)
    (never : (moment : ℕ) → env.llm_error moment ≢ ErrorDecision.retry) where
  no_decision-IsNoRetry : no_decision ≢ ErrorDecision.retry
  no_decision-IsNoRetry h = ground (arith, h)

  answer_decision-IsNoRetry :
      (d : ErrorDecision) (w : World)
      → d ≢ ErrorDecision.retry
      → IsNoRetry (answer_decision env reply_id d w).0
  unfolding answer_decision pure throw
  answer_decision-IsNoRetry no_decision w n = n
  answer_decision-IsNoRetry ErrorDecision.retry w n = n
  answer_decision-IsNoRetry stop w n = n
  answer_decision-IsNoRetry decision_cancelled w n = tt

  IsNoRetry-if :
      (b : Bool) (m k : Exec ErrorDecision) (w : World)
      → IsNoRetry (m w).0
      → IsNoRetry (k w).0
      → IsNoRetry ((if b then m else k) w).0
  IsNoRetry-if true m k w h g = h
  IsNoRetry-if false m k w h g = g

  dispatch_llm_error-IsNoRetry : (w : World) → IsNoRetry (dispatch_llm_error env reply_id w).0
  unfolding dispatch_llm_error ◌>>=◌ ask_env gets pure
  dispatch_llm_error-IsNoRetry w =
      IsNoRetry-if (is_cancelled w.run.status || env.cancellation w.moment) (pure no_decision)
        (do decision ← ask_env env.llm_error; answer_decision env reply_id decision)
        (record w { moment = suc w.moment }) no_decision-IsNoRetry
        (answer_decision-IsNoRetry (env.llm_error (suc w.moment))
          (record w { moment = suc (suc w.moment) }) (never (suc w.moment)))

  and_false : (b : Bool) → (b && false) ≡ false
  and_false true = refl
  and_false false = refl

  retry-unretryable :
      (e : LlmError) (is_last done : Bool) (d : ErrorDecision)
      → is_unretryable e.code ≡ true
      → d ≢ ErrorDecision.retry
      → should_retry env reply_id e is_last done d ≡ false
  unfolding should_retry
  retry-unretryable e is_last done ErrorDecision.retry u n = absurd (n refl)
  retry-unretryable e is_last done stop u n = and_false _
  retry-unretryable e is_last done no_decision u n = rw u (and_false _)
  retry-unretryable e is_last done decision_cancelled u n = rw u (and_false _)

  if_false :
      (b : Bool) (m k n : Exec (Option TurnResult)) (w : World)
      → b ≡ false
      → (if b then m else n) w ≡ (if b then k else n) w
  if_false true m k n w h = absurd (ground (arith, h))
  if_false false m k n w h = refl

  -- After an error that is not to be tried again, and without a hook that says otherwise, no other
  -- attempt is made: what it would do plays no part in what happens.
  pub on_error-unretryable :
      (message_id : String) (left attempt : ℕ) (again other : Exec (Option TurnResult))
      (c : Collector) (e : LlmError) (w : World)
      → is_unretryable e.code ≡ true
      → on_error env reply_id message_id left attempt again c e w
        ≡ on_error env reply_id message_id left attempt other c e w
  unfolding on_error
  on_error-unretryable message_id left attempt again other c e w u = bind-same _ _ _ w λ c1 w1 _.
      bind-same _ _ _ w1 λ c2 w2 _. bind-same _ _ _ w2 λ _ w3 _.
        bind-same (dispatch_llm_error env reply_id) _ _ w3 λ d w4 h. bind-same _ _ _ w4 λ done w5 _.
          if_false (should_retry env reply_id e (is_zero left) done d) _ _ _ w5 (
            retry-unretryable e (is_zero left) done d u (
              subst (λ (p : Result ErrorDecision × World). IsNoRetry p.0) h
                (dispatch_llm_error-IsNoRetry w3)))
