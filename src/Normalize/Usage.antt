-- ===== src/Normalize/Usage.antt =====
-- The token counts of a usage after src/ftre_agent_core/llm/wire/normalize.py.
use ftre_agent_core.Prelude.{
  String, ◌≡◌, ◌∙◌, refl, Option, none, some, false, ◌==◌, arith, is_some, eq_iff, if◌then◌else◌,
}
use ftre_agent_core.Json.{Json, Fields, get, put}
use ftre_agent_core.Json.Laws.{get-put}
use ftre_agent_core.Normalize.{add_alias, normalize_usage}

abbrev pub or_else : Option Json → Option Json → Option Json
or_else (some v) o = some v
or_else none o = o

alias_if :
    (key canonical : String) (old other : Option Json) (d : Fields)
    → get canonical d ≡ old
    → get key (if is_some old then d else elim other [ none ↦ d | some v ↦ put canonical v d ])
      ≡ (if canonical == key then or_else old other else get key d)
alias_if key canonical (some v) other d h = ground (arith, eq_iff canonical key, h)
alias_if key canonical none none d h = ground (arith, eq_iff canonical key, h)
alias_if key canonical none (some v) d h = get-put canonical key v d

alias_get :
    (key canonical name : String) (d : Fields)
    → get key (add_alias canonical name d)
      ≡ (if canonical == key then or_else (get canonical d) (get name d) else get key d)
unfolding add_alias
alias_get key canonical name d = alias_if key canonical _ _ d refl

-- A usage in either spelling gives the canonical counts, a canonical one first, and every other key
-- stays as it was.
pub get-normalize_usage :
    (d : Fields)
    → (get "prompt_tokens" (normalize_usage d)
        ≡ or_else (get "prompt_tokens" d) (get "input_tokens" d))
      × (get "completion_tokens" (normalize_usage d)
          ≡ or_else (get "completion_tokens" d) (get "output_tokens" d))
      × ((key : String)
          → ("prompt_tokens" == key) ≡ false
          → ("completion_tokens" == key) ≡ false
          → get key (normalize_usage d) ≡ get key d)
unfolding normalize_usage
get-normalize_usage d = (
  alias_get "prompt_tokens" "completion_tokens" "output_tokens" _
      ∙ alias_get "prompt_tokens" "prompt_tokens" "input_tokens" d,
  alias_get "completion_tokens" "completion_tokens" "output_tokens" _
      ∙ rw
          (
            alias_get "completion_tokens" "prompt_tokens" "input_tokens" d,
            alias_get "output_tokens" "prompt_tokens" "input_tokens" d,
          )
          refl,
  λ key p c.
      alias_get key "completion_tokens" "output_tokens" _
      ∙ rw c (alias_get key "prompt_tokens" "input_tokens" d ∙ rw p refl),
)
