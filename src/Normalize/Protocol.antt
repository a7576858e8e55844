-- ===== src/Normalize/Protocol.antt =====
-- The messages that normalisation gives keep the providers' tool protocol
-- (src/ftre_agent_core/llm/wire/normalize.py).
use ftre_agent_core.Prelude.{
  ℕ, zero, suc, ◌≡◌, refl, sym, subst, ◌∙◌, Option, none, some, Bool, true, false, List, [], ◌∷◌,
  length, ◌==◌, inl, inr, Bool-cases, All, arith, if◌then◌else◌, eq_iff,
}
use ftre_agent_core.Json.{Json, str, Fields, get, put, remove}
use ftre_agent_core.Convert.{text_or}
use ftre_agent_core.Json.Laws.{get-put, get-remove}
use ftre_agent_core.Normalize.{
  role_of, is_empty_content, normalize_content, has_payload, call_list, following, is_complete,
  if_payload, normalize_from, normalize_messages,
}
use ftre_agent_core.Normalize.Shape.{IsOf, HasContent, IsPlain, IsNormal, nil, other, plain, pair}
use ftre_agent_core.Normalize.Steps.{tool_step, other_step, plain_step, pair_step, strip_step}
use ftre_agent_core.Normalize.Answers.{is_complete-IsAnswered}

blank_content : (m : Fields) → HasContent (put "content" (str "") m)
blank_content m = record {
  content = str "";
  is_there = get-put "content" "content" (str "") m;
  if_empty = λ h. refl;
}

content_if :
    (m : Fields) (o : Option Json)
    → get "content" m ≡ o
    → HasContent (if is_empty_content o then put "content" (str "") m else m)
unfolding is_empty_content
content_if m none e = blank_content m
content_if m (some v) e = elim (Bool-cases (is_empty_content (some v))) [
  | inl t ↦ rw t (blank_content m)
  | inr t ↦ rw t (record { content = v; is_there = e; if_empty = λ h. ground (arith, t, h) })
]

normalize_content-HasContent : (m : Fields) → HasContent (normalize_content m)
unfolding normalize_content
normalize_content-HasContent m = content_if m (get "content" m) refl

pub role-normalize_content : (m : Fields) → role_of (normalize_content m) ≡ role_of m
unfolding normalize_content text_or
role-normalize_content m = elim (Bool-cases (is_empty_content (get "content" m))) [
  | inl e ↦ rw (e, text_or, get-put "content" "role" (str "") m) refl
  | inr e ↦ rw e
]

HasContent-remove : (m : Fields) → HasContent m → HasContent (remove "tool_calls" m)
HasContent-remove m h = record {
  content = h.content;
  is_there = get-remove "tool_calls" "content" m ∙ h.is_there;
  if_empty = h.if_empty;
}

pub role-remove : (m : Fields) → role_of (remove "tool_calls" m) ≡ role_of m
unfolding text_or
role-remove m = rw (text_or, get-remove "tool_calls" "role" m) refl

no_calls-remove : (m : Fields) → call_list (get "tool_calls" (remove "tool_calls" m)) ≡ []
unfolding call_list
no_calls-remove m = rw (get-remove "tool_calls" "tool_calls" m) refl

following-IsOf : (ms : List Fields) → All (IsOf "tool") (following ms)
unfolding following
following-IsOf [] = tt
following-IsOf (m ∷ ms) = elim (Bool-cases (role_of m == "tool")) [
  | inl e ↦ rw e (ground (arith, e, eq_iff (role_of m) "tool"), following-IsOf ms)
  | inr e ↦ rw e tt
]

if_payload-IsNormal :
    (preserve : Bool) (m : Fields) (ms : List Fields)
    → (has_payload preserve m ≡ true → IsPlain preserve m)
    → IsNormal preserve ms
    → IsNormal preserve (if_payload preserve m ms)
if_payload-IsNormal preserve m ms f h = elim (Bool-cases (has_payload preserve m)) [
  | inl e ↦ rw e (plain (f e) h)
  | inr e ↦ rw e h
]

module _ (preserve : Bool) where
  module _ (m : Fields) (ms : List Fields) where
    module _ (t : (role_of m == "tool") ≡ false) (a : (role_of m == "assistant") ≡ true)
        (h : (skip : ℕ) → IsNormal preserve (normalize_from preserve skip ms)) where
      IsOf-assistant : IsOf "assistant" (normalize_content m)
      IsOf-assistant = role-normalize_content m ∙ (eq_iff (role_of m) "assistant").0 a

      plain-IsNormal :
          call_list (get "tool_calls" (normalize_content m)) ≡ []
          → IsNormal preserve (normalize_from preserve zero (m ∷ ms))
      plain-IsNormal c = subst (IsNormal preserve) (sym (plain_step preserve m ms t a c)) (
          if_payload-IsNormal preserve _ _
            (λ p. record {
              of_assistant = IsOf-assistant;
              has_content = normalize_content-HasContent m;
              no_calls = c;
              payload = p;
            })
            (h zero))

      module _ (call : Json) (calls : List Json)
          (c : call_list (get "tool_calls" (normalize_content m)) ≡ call ∷ calls) where
        pair-IsNormal :
            is_complete (call ∷ calls) (following ms) ≡ true
            → IsNormal preserve (normalize_from preserve zero (m ∷ ms))
        pair-IsNormal e =
            subst (IsNormal preserve) (sym (pair_step preserve m ms t a call calls c e)) (
              pair
                (record {
                  of_assistant = IsOf-assistant;
                  has_content = normalize_content-HasContent m;
                  call = call;
                  calls = calls;
                  has_calls = c;
                  of_tool = following-IsOf ms;
                  answered = is_complete-IsAnswered (call ∷ calls) (following ms) e;
                })
                (h (length (following ms))))

        strip-IsNormal :
            is_complete (call ∷ calls) (following ms) ≡ false
            → IsNormal preserve (normalize_from preserve zero (m ∷ ms))
        strip-IsNormal e =
            subst (IsNormal preserve) (sym (strip_step preserve m ms t a call calls c e)) (
              if_payload-IsNormal preserve _ _
                (λ p. record {
                  of_assistant = role-remove (normalize_content m) ∙ IsOf-assistant;
                  has_content = HasContent-remove _ (normalize_content-HasContent m);
                  no_calls = no_calls-remove (normalize_content m);
                  payload = p;
                })
                (h zero))

        paired-IsNormal : IsNormal preserve (normalize_from preserve zero (m ∷ ms))
        paired-IsNormal = elim (Bool-cases (is_complete (call ∷ calls) (following ms))) [
          | inl e ↦ pair-IsNormal e
          | inr e ↦ strip-IsNormal e
        ]

      assistant-IsNormal :
          (calls : List Json)
          → call_list (get "tool_calls" (normalize_content m)) ≡ calls
          → IsNormal preserve (normalize_from preserve zero (m ∷ ms))
      assistant-IsNormal [] c = plain-IsNormal c
      assistant-IsNormal (call ∷ calls) c = paired-IsNormal call calls c

    step-IsNormal :
        ((skip : ℕ) → IsNormal preserve (normalize_from preserve skip ms))
        → IsNormal preserve (normalize_from preserve zero (m ∷ ms))
    step-IsNormal h = elim (Bool-cases (role_of m == "tool")) [
      | inl t ↦ subst (IsNormal preserve) (sym (tool_step preserve m ms t)) (h zero)
      | inr t ↦ elim (Bool-cases (role_of m == "assistant")) [
        | inl a ↦ assistant-IsNormal t a h _ refl
        | inr a ↦
            subst (IsNormal preserve) (sym (other_step preserve m ms t a)) (other t a (h zero))
      ]
    ]

  normalize_from-IsNormal :
      (skip : ℕ) (ms : List Fields) → IsNormal preserve (normalize_from preserve skip ms)
  unfolding normalize_from
  normalize_from-IsNormal skip [] = nil
  normalize_from-IsNormal (suc skip) (m ∷ ms) = normalize_from-IsNormal skip ms
  normalize_from-IsNormal zero (m ∷ ms) =
      step-IsNormal m ms (λ skip. normalize_from-IsNormal skip ms)

  -- Whatever the messages were, those that normalisation gives are a sequence of: messages of other
  -- roles; messages of the assistant with no tool calls and with a payload; and messages of the
  -- assistant with tool calls, each followed at once by one result of role "tool" for each of its
  -- calls and no other. Each message of the assistant has a content that is neither null nor blank
  -- but for "", and no result stands elsewhere.
  pub normalize_messages-IsNormal :
      (ms : List Fields) → IsNormal preserve (normalize_messages preserve ms)
  unfolding normalize_messages
  normalize_messages-IsNormal ms = normalize_from-IsNormal zero ms
