-- ===== src/Llm/Errors.antt =====
-- LLMError.classify of llm/errors.py (src/ftre_agent_core): the error code of an exception of the
-- packages openai and httpx. What the code asks an exception is a record: which of the named classes
-- it is an instance of, its `code` and statuses if there, its text and that text in lower case.
pub mod Laws
use ftre_agent_core.Prelude.{
  ℕ, String, Option, none, some, Bool, true, false, ◌&&◌, ◌||◌, List, [], ◌∷◌, ◌==◌, eqb,
  if◌then◌else◌,
}
use ftre_agent_core.Runner.{LlmError}
use ftre_agent_core.Convert.{contains}

pub record Failure : Type 0 where
  pub is_a : String → Bool
  pub code : Option String
  pub status_code : Option ℕ
  pub response_status : Option ℕ
  pub message : String
  pub message_lower : String

abbrev pub find_code : String → List (String × String) → Option String
find_code key [] = none
find_code key ((k, v) ∷ rest) = if k == key then some v else find_code key rest

-- _CODE_OVERRIDES
abbrev pub code_overrides : List (String × String)
code_overrides =
    ("invalid_request_error", "bad_request")
    ∷ ("bad_request", "bad_request")
    ∷ ("rate_limit_exceeded", "rate_limit")
    ∷ ("context_length_exceeded", "bad_request")
    ∷ ("invalid_api_key", "auth_error")
    ∷ ("authentication_error", "auth_error")
    ∷ ("permission_denied", "content_filter")
    ∷ []

-- _TYPE_MAP and the two classes of httpx that come after it
abbrev pub type_map : List (String × String)
type_map =
    ("RateLimitError", "rate_limit")
    ∷ ("APITimeoutError", "timeout")
    ∷ ("APIConnectionError", "network")
    ∷ ("AuthenticationError", "auth_error")
    ∷ ("PermissionDeniedError", "content_filter")
    ∷ ("BadRequestError", "bad_request")
    ∷ ("InternalServerError", "internal_server_error")
    ∷ ("APIError", "api_error")
    ∷ ("RemoteProtocolError", "network")
    ∷ ("ReadTimeout", "timeout")
    ∷ []

-- The first class that the exception is an instance of.
unfoldable pub code_of_type : (String → Bool) → List (String × String) → String
code_of_type is_a [] = "unknown"
code_of_type is_a ((k, v) ∷ rest) = if is_a k then v else code_of_type is_a rest

abbrev pub override_for : Option String → Option String
override_for none = none
override_for (some code) = if code == "" then none else find_code code code_overrides

-- The code's override, of an APIError only.
abbrev pub override : Failure → Option String
override e = if e.is_a "APIError" then override_for e.code else none

abbrev pub or_status : Option ℕ → Option ℕ → Option ℕ
or_status none response = response
or_status (some s) response = some s

abbrev pub status_of : Failure → Option ℕ
status_of e = or_status e.status_code e.response_status

abbrev pub code_of_status : Option ℕ → Option String
code_of_status none = none
code_of_status (some s) =
    if eqb s 400
    then some "bad_request"
    else if eqb s 401
    then some "auth_error"
    else if eqb s 402
    then some "bad_request"
    else if eqb s 403
    then some "content_filter"
    else none

abbrev pub is_invalid_parameter : String → Bool
is_invalid_parameter s = contains "invalidparameter" s || contains "invalid parameter" s

unfoldable pub code_of : Failure → String
unfolding code_of_type contains
code_of e = elim (override e) [
  | some code ↦ code
  | none ↦ elim (code_of_status (status_of e)) [
    | some code ↦ code
    | none ↦
        if is_invalid_parameter e.message_lower then "bad_request" else code_of_type e.is_a type_map
  ]
]

unfoldable pub classify : Failure → LlmError
unfolding code_of
classify e = record { message = e.message; code = code_of e }
