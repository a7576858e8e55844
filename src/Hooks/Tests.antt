-- ===== src/Hooks/Tests.antt =====
-- Concrete hook specs of hooks.py (src/ftre_agent_core), and values that are refused.
use ftre_agent_core.Prelude.{String, ◌≡◌, ◌↔◌, refl, none, some, true}
use ftre_agent_core.Hooks.{
  HookSpec, value_error, waterfall, emit, observe, propagate, agent, global, post_init,
  attempt_error,
}
use ftre_agent_core.Hooks.Laws.{IsSound, post_init-accepts}

-- LLM_ERROR_SPEC, with texts for values
abbrev llm_error : HookSpec String
llm_error = record {
  name = "llm/error";
  domain = "llm";
  mode = waterfall;
  failure_policy = observe;
  payload_type = some (record { text = "LLMErrorPayload"; holds = λ v. true });
  result_type = none;
  default = some (λ v. v);
  scope = agent;
}

abbrev misplaced : HookSpec String
misplaced = record {
  name = "tool/before";
  domain = "llm";
  mode = emit;
  failure_policy = propagate;
  payload_type = none;
  result_type = none;
  default = none;
  scope = global;
}

accepted : post_init llm_error ≡ none
unfolding post_init
accepted = refl

refused : post_init misplaced ≡ some (value_error "HookSpec.name domain must match HookSpec.domain")
unfolding post_init
refused = refl

third_of_two :
    attempt_error 3 2 ≡ some (value_error "LLMErrorPayload.attempt cannot exceed max_attempts")
unfolding attempt_error
third_of_two = refl

post_init-accepts_example : (post_init llm_error ≡ none) ↔ IsSound llm_error
post_init-accepts_example = post_init-accepts llm_error
