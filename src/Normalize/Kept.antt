-- ===== src/Normalize/Kept.antt =====
-- What normalisation keeps of the conversation (src/ftre_agent_core/llm/wire/normalize.py).
use ftre_agent_core.Prelude.{
  ℕ, zero, suc, ◌≡◌, ◌≤◌, refl, sym, ap, ◌∙◌, Option, none, some, Bool, true, false, not, ◌||◌,
  List, [], ◌∷◌, ◌++◌, append_assoc, length, ◌==◌, inl, inr, Bool-cases, arith, if◌then◌else◌,
  eq_iff,
}
use ftre_agent_core.Json.{Json, str, Fields, end, field, get, put, remove, truthy, truthy?}
use ftre_agent_core.Json.Laws.{get-put, get-remove}
use ftre_agent_core.Normalize.{
  role_of, is_empty_content, normalize_content, has_payload, call_list, following, is_complete,
  if_payload, normalize_from, normalize_messages,
}
use ftre_agent_core.Normalize.Shape.{IsOf}
use ftre_agent_core.Normalize.Steps.{tool_step, other_step, plain_step, pair_step, strip_step}
use ftre_agent_core.Normalize.Protocol.{role-normalize_content, role-remove}

unfoldable pub shown_content : Option Json → List Fields
shown_content none = []
shown_content (some v) =
    if is_empty_content (some v) || not (truthy v)
    then []
    else field "role" (str "assistant") (field "content" v end) ∷ []

-- What a message says: the result of a tool nothing of its own, a message of the assistant its
-- content unless that is blank, and any other message itself.
unfoldable pub shown : Fields → List Fields
shown m =
    if role_of m == "tool"
    then []
    else if role_of m == "assistant"
    then shown_content (get "content" m)
    else m ∷ []

unfoldable pub all_shown : List Fields → List Fields
all_shown [] = []
all_shown (m ∷ ms) = shown m ++ all_shown ms

all_shown-append : (xs ys : List Fields) → all_shown (xs ++ ys) ≡ all_shown xs ++ all_shown ys
unfolding all_shown
all_shown-append [] ys = refl
all_shown-append (x ∷ xs) ys =
    ap (λ l. shown x ++ l) (all_shown-append xs ys) ∙ sym (append_assoc (shown x) _ _)

shown-tool : (m : Fields) → (role_of m == "tool") ≡ true → shown m ≡ []
unfolding shown
shown-tool m t = rw (shown, t) refl

shown-assistant : (m : Fields) → IsOf "assistant" m → shown m ≡ shown_content (get "content" m)
unfolding shown
shown-assistant m a = rw (shown, a) refl

all_shown-following : (ms : List Fields) → all_shown (following ms) ≡ []
unfolding all_shown following
all_shown-following [] = refl
all_shown-following (m ∷ ms) = elim (Bool-cases (role_of m == "tool")) [
  | inl t ↦ rw (t, shown-tool m t, all_shown-following ms) refl
  | inr t ↦ rw t refl
]

content_same :
    (m : Fields) (o : Option Json)
    → get "content" m ≡ o
    → shown_content (get "content" (if is_empty_content o then put "content" (str "") m else m))
      ≡ shown_content o
unfolding shown_content is_empty_content
content_same m none e = rw (get-put "content" "content" (str "") m) (ground arith)
content_same m (some v) e = elim (Bool-cases (is_empty_content (some v))) [
  | inl t ↦ rw (t, get-put "content" "content" (str "") m) (ground arith)
  | inr t ↦ rw (t, e) (rw t refl)
]

silent_content : (o : Option Json) → truthy? o ≡ false → shown_content o ≡ []
unfolding shown_content
silent_content none h = refl
silent_content (some v) h = ground (arith, h)

module _ (m : Fields) (a : IsOf "assistant" m) where
  shown-normalize_content : shown (normalize_content m) ≡ shown m
  unfolding normalize_content
  shown-normalize_content =
      shown-assistant (normalize_content m) (role-normalize_content m ∙ a)
      ∙ content_same m _ refl
      ∙ sym (shown-assistant m a)

  shown-remove : shown (remove "tool_calls" m) ≡ shown m
  shown-remove =
      shown-assistant (remove "tool_calls" m) (role-remove m ∙ a)
      ∙ ap shown_content (get-remove "tool_calls" "content" m)
      ∙ sym (shown-assistant m a)

  silent : (preserve : Bool) → has_payload preserve m ≡ false → shown m ≡ []
  unfolding has_payload
  silent preserve p = shown-assistant m a ∙ silent_content (get "content" m) (ground (arith, p))

  all_shown-if_payload :
      (preserve : Bool) (ms : List Fields)
      → all_shown (if_payload preserve m ms) ≡ shown m ++ all_shown ms
  unfolding all_shown
  all_shown-if_payload preserve ms = elim (Bool-cases (has_payload preserve m)) [
    | inl p ↦ rw p refl
    | inr p ↦ rw (p, silent preserve p) refl
  ]

module _ (preserve : Bool) where
  module _ (m : Fields) (ms : List Fields) where
    module _ (t : (role_of m == "tool") ≡ false) (a : (role_of m == "assistant") ≡ true)
        (h : (skip : ℕ)
          → skip ≤ length (following ms)
          → all_shown (normalize_from preserve skip ms) ≡ all_shown ms) where
      IsOf-role : IsOf "assistant" m
      IsOf-role = (eq_iff (role_of m) "assistant").0 a

      if_payload-shown :
          (m' : Fields)
          → IsOf "assistant" m'
          → shown m' ≡ shown m
          → all_shown (if_payload preserve m' (normalize_from preserve zero ms))
            ≡ shown m ++ all_shown ms
      if_payload-shown m' b e =
          all_shown-if_payload m' b preserve _ ∙ rw (e, h zero (omega arith)) refl

      same_assistant : IsOf "assistant" (normalize_content m)
      same_assistant = role-normalize_content m ∙ IsOf-role

      pair-shown :
          all_shown (
            normalize_content m
            ∷ (following ms ++ normalize_from preserve (length (following ms)) ms))
          ≡ shown m ++ all_shown ms
      unfolding all_shown
      pair-shown =
          rw
            (
              shown-normalize_content m IsOf-role,
              all_shown-append (following ms) _,
              all_shown-following ms,
              h (length (following ms)) (omega arith),
            )
            refl

      assistant-shown :
          (calls : List Json)
          → call_list (get "tool_calls" (normalize_content m)) ≡ calls
          → all_shown (normalize_from preserve zero (m ∷ ms)) ≡ shown m ++ all_shown ms
      assistant-shown [] c =
          rw (plain_step preserve m ms t a c)
            (if_payload-shown _ same_assistant (shown-normalize_content m IsOf-role))
      assistant-shown (call ∷ calls) c =
          elim (Bool-cases (is_complete (call ∷ calls) (following ms))) [
            | inl e ↦ rw (pair_step preserve m ms t a call calls c e) pair-shown
            | inr e ↦ rw (strip_step preserve m ms t a call calls c e) (
                if_payload-shown _ (role-remove (normalize_content m) ∙ same_assistant)
                  (shown-remove _ same_assistant ∙ shown-normalize_content m IsOf-role))
          ]

    step-shown :
        ((skip : ℕ)
          → skip ≤ length (following ms)
          → all_shown (normalize_from preserve skip ms) ≡ all_shown ms)
        → all_shown (normalize_from preserve zero (m ∷ ms)) ≡ shown m ++ all_shown ms
    unfolding all_shown
    step-shown h = elim (Bool-cases (role_of m == "tool")) [
      | inl t ↦ rw (tool_step preserve m ms t, shown-tool m t) (h zero (omega arith))
      | inr t ↦ elim (Bool-cases (role_of m == "assistant")) [
        | inl a ↦ assistant-shown t a h _ refl
        | inr a ↦ rw (other_step preserve m ms t a, h zero (omega arith)) refl
      ]
    ]

  all_shown-normalize_from :
      (skip : ℕ) (ms : List Fields)
      → skip ≤ length (following ms)
      → all_shown (normalize_from preserve skip ms) ≡ all_shown ms
  unfolding normalize_from all_shown following
  all_shown-normalize_from skip [] le = refl
  all_shown-normalize_from zero (m ∷ ms) le =
      step-shown m ms (λ skip. all_shown-normalize_from skip ms)
  all_shown-normalize_from (suc skip) (m ∷ ms) le = elim (Bool-cases (role_of m == "tool")) [
    | inl t ↦ rw (shown-tool m t) (all_shown-normalize_from skip ms (ground (arith, rw t at le)))
    | inr t ↦ absurd (ground (arith, rw t at le))
  ]

  -- Normalisation loses nothing that was said: the messages of other roles and the contents of the
  -- messages of the assistant that are not blank stay, unchanged and in their order.
  pub all_shown-normalize_messages :
      (ms : List Fields) → all_shown (normalize_messages preserve ms) ≡ all_shown ms
  unfolding normalize_messages
  all_shown-normalize_messages ms = all_shown-normalize_from zero ms (omega arith)
