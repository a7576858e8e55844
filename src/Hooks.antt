-- ===== src/Hooks.antt =====
-- The checks of hooks.py (src/ftre_agent_core): what a HookSpec and the values that go through a hook
-- are refused for. A value is of any type, and the types of a spec are the tests that isinstance makes
-- of them; the checks of the three enumerations cannot fail here.
pub mod Laws
mod Tests
use ftre_agent_core.Prelude.{
  ℕ, String, Option, none, some, Bool, true, false, not, ◌&&◌, ◌||◌, ◌==◌, ◌<>◌, ltb, is_some,
  if◌then◌else◌,
}
use ftre_agent_core.Convert.{before_char, contains}

pub data HookMode : Type 0 where
  emit parallel serial bail waterfall : HookMode

pub data HookFailurePolicy : Type 0 where
  observe propagate : HookFailurePolicy

pub data HookScope : Type 0 where
  global agent : HookScope

pub data HookError : Type 0 where
  type_error value_error : String → HookError

abbrev pub is_waterfall : HookMode → Bool
is_waterfall waterfall = true
is_waterfall _ = false

-- A type or a tuple of types: what it is written as, and `isinstance(value, type)`.
pub record Kind (V : Type 0) : Type 0 where
  pub text : String
  pub holds : V → Bool

pub record HookSpec (V : Type 0) : Type 0 where
  pub name : String
  pub domain : String
  pub mode : HookMode
  pub failure_policy : HookFailurePolicy
  pub payload_type : Option (Kind V)
  pub result_type : Option (Kind V)
  pub default : Option (V → V)
  pub scope : HookScope

-- `"/" in s`
abbrev pub has_slash : String → Bool
has_slash s = contains "/" s

-- __post_init__: the error, if the spec is refused
unfoldable pub post_init : {V : Type 0} → HookSpec V → Option HookError
unfolding before_char contains
post_init s =
    if s.name == "" || not (has_slash s.name)
    then some (value_error "HookSpec.name must be a stable domain/name pair")
    else if s.domain == "" || has_slash s.domain
    then some (value_error "HookSpec.domain must be a simple domain name")
    else if not (before_char b'/' s.name == s.domain)
    then some (value_error "HookSpec.name domain must match HookSpec.domain")
    else if is_waterfall s.mode && not (is_some s.default)
    then some (value_error "waterfall HookSpec requires an explicit default")
    else none

-- The errors of validate_payload and validate_result; `name_of` is the name of the value's class.
unfoldable pub validate_payload : {V : Type 0} → (V → String) → HookSpec V → V → Option HookError
validate_payload name_of s v = elim s.payload_type [
  | none ↦ none
  | some k ↦
      if k.holds v
      then none
      else some (type_error (s.name <> " payload must be " <> k.text <> ", got " <> name_of v))
]

unfoldable pub validate_result : {V : Type 0} → (V → String) → HookSpec V → V → Option HookError
validate_result name_of s v = elim s.result_type [
  | none ↦ none
  | some k ↦
      if k.holds v
      then none
      else some (type_error (s.name <> " result must be " <> k.text <> ", got " <> name_of v))
]

-- __post_init__ of LLMErrorPayload, of its two counters
unfoldable pub attempt_error : ℕ → ℕ → Option HookError
attempt_error attempt max_attempts =
    if ltb attempt 1
    then some (value_error "LLMErrorPayload.attempt must be positive")
    else if ltb max_attempts 1
    then some (value_error "LLMErrorPayload.max_attempts must be positive")
    else if ltb max_attempts attempt
    then some (value_error "LLMErrorPayload.attempt cannot exceed max_attempts")
    else none
