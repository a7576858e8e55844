-- ===== src/Context/Raw.antt =====
-- MessageContext.add_raw and set_messages of message_context.py (src/ftre_agent_core), and the
-- validation of a new message (Msg._validate_role_content of message/_msg.py).
use ftre_agent_core.Prelude.{
  ℕ, suc, String, Option, none, some, Bool, true, false, not, ◌&&◌, List, [], ◌∷◌, ◌++◌, all, keep,
  ◌==◌, if◌then◌else◌,
}
use ftre_agent_core.Json.{Json, arr, obj, nil, cons, Fields, get, put, list_of, items_of}
use ftre_agent_core.Message.{ContentBlock, text, binary, Role, user, assistant, system}
use ftre_agent_core.Convert.{Codec, from_openai_message, text_or, as_fields}
use ftre_agent_core.Context.{Context, new_msg}

abbrev pub fits_role : Role → ContentBlock → Bool
fits_role assistant b = true
fits_role user (text b) = true
fits_role user (binary b) = true
fits_role user _ = false
fits_role system (text b) = true
fits_role system _ = false

-- `_validate_role_content` of a message without a token
unfoldable pub is_valid : Role → List ContentBlock → Bool
unfolding all
is_valid role content = all (fits_role role) content

-- `role not in ("user", "assistant", "system")` is taken for an assistant
abbrev pub role_of : String → Role
role_of s = if s == "user" then user else if s == "system" then system else assistant

abbrev pub is_object : Json → Bool
is_object (obj d) = true
is_object _ = false

-- `[dict(item) for item in items if isinstance(item, dict)]`, as a group of its own
abbrev pub one_group : List Json → Json
one_group items = arr (cons (arr (items_of (keep is_object items))) nil)

add_groups : Option Json → Option Json → Fields → Fields
add_groups (some (arr items)) response metadata =
    put "responses_output_item_groups" (one_group (list_of items)) metadata
add_groups _ (some (obj d)) metadata = elim (get "output_items" d) [
  | some (arr items) ↦ put "responses_output_item_groups" (one_group (list_of items)) metadata
  | _ ↦ metadata
]
add_groups _ _ metadata = metadata

unfoldable pub has_message : String → Context → Bool
has_message id [] = false
has_message id (m ∷ rest) = if m.id == id then true else has_message id rest

module _ (codec : Codec) where
  -- MessageContext.add_raw of a dict; none is the ValidationError of a block that its role must not
  -- hold. A new message takes the id `ids 0` if the dict has none, and its blocks the next ones.
  unfoldable pub add_raw : (ℕ → String) → Context → Fields → Option Context
  unfolding from_openai_message is_valid add_groups has_message text_or get put keep list_of
      items_of
  add_raw ids context message =
      let id = text_or "" "id" message in
      let role = role_of (text_or "user" "role" message) in
      let blocks = from_openai_message codec ids 1 message in
      let metadata =
        add_groups (get "responses_output_items" message) (get "response_metadata" message)
          (as_fields (get "metadata" message)) in
      if not (id == "") && has_message id context
      then some context
      else if is_valid role blocks
      then some (
          context
          ++ record (new_msg (if id == "" then ids 0 else id) role blocks) { metadata = metadata }
            ∷ [])
      else none

  -- The loop over the messages of a hook, and that of `set_messages`: whether all were added, and
  -- the context, in which what was added before a failure stays. Message `k` draws on `ids k`.
  unfoldable pub add_all : (ℕ → ℕ → String) → ℕ → Context → List Fields → Bool × Context
  unfolding add_raw
  add_all ids k context [] = (true, context)
  add_all ids k context (message ∷ rest) = elim (add_raw (ids k) context message) [
    | none ↦ (false, context)
    | some context' ↦ add_all ids (suc k) context' rest
  ]

  -- MessageContext.set_messages
  unfoldable pub set_messages : (ℕ → ℕ → String) → List Fields → Bool × Context
  unfolding add_all
  set_messages ids messages = add_all ids 0 [] messages
