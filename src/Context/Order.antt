-- ===== src/Context/Order.antt =====
-- The order of tool calls and results in the provider messages of a message (_msg_to_dicts of
-- src/ftre_agent_core/message_context.py).
use ftre_agent_core.Prelude.{
  String, ◌≡◌, refl, sym, ap, ◌∙◌, Option, none, some, false, not, ◌&&◌, List, [], ◌∷◌, ◌++◌, ◌==◌,
  append-nil, append_assoc, All, All-append, inl, inr, Bool-cases, if◌then◌else◌,
}
use ftre_agent_core.Json.{
  Json, null, str, arr, obj, bool, number, nil, cons, Fields, end, field, get, put, list_of,
  items_of, truthy, truthy?,
}
use ftre_agent_core.Json.Laws.{get-put, list_of-items_of}
use ftre_agent_core.Message.{
  DataBlock, Output, plain, parts, ContentBlock, text, thinking, binary, hint, tool_call,
  tool_result, Role, user, assistant, system, Msg,
}
use ftre_agent_core.Convert.{Codec, text_or}
use ftre_agent_core.Convert.Export.{
  to_openai_message, role_message, with_calls, with_reasoning, call_dicts, content_of,
  content_parts, reasoning_texts, join,
}
use ftre_agent_core.Context.Export.{
  role_text, Extras, spend, add_reasoning, add_items, flush, hint_message, expand, or_blank,
  msg_to_dicts, list_in,
}

-- What a provider pairs: a call of an id, and an answer to it.
pub data Mark : Type 0 where
  called : String → Mark
  answered : String → Mark

unfoldable pub block_marks : List ContentBlock → List Mark
block_marks [] = []
block_marks (tool_call b ∷ bs) = called b.id ∷ block_marks bs
block_marks (tool_result b ∷ bs) = answered b.id ∷ block_marks bs
block_marks (_ ∷ bs) = block_marks bs

unfoldable pub call_marks : List Json → List Mark
call_marks [] = []
call_marks (obj d ∷ vs) = called (text_or "" "id" d) ∷ call_marks vs
call_marks (_ ∷ vs) = call_marks vs

unfoldable pub message_marks : Fields → List Mark
message_marks m =
    if text_or "" "role" m == "tool"
    then answered (text_or "" "tool_call_id" m) ∷ []
    else call_marks (list_in (get "tool_calls" m))

unfoldable pub all_marks : List Fields → List Mark
all_marks [] = []
all_marks (m ∷ ms) = message_marks m ++ all_marks ms

all_marks-append : (ms ns : List Fields) → all_marks (ms ++ ns) ≡ all_marks ms ++ all_marks ns
unfolding all_marks
all_marks-append [] ns = refl
all_marks-append (m ∷ ms) ns =
    ap (λ l. message_marks m ++ l) (all_marks-append ms ns)
    ∙ sym (append_assoc (message_marks m) _ _)

block_marks-append :
    (bs cs : List ContentBlock) → block_marks (bs ++ cs) ≡ block_marks bs ++ block_marks cs
unfolding block_marks
block_marks-append [] cs = refl
block_marks-append (tool_call b ∷ bs) cs = ap (λ l. called b.id ∷ l) (block_marks-append bs cs)
block_marks-append (tool_result b ∷ bs) cs = ap (λ l. answered b.id ∷ l) (block_marks-append bs cs)
block_marks-append (text b ∷ bs) cs = block_marks-append bs cs
block_marks-append (thinking b ∷ bs) cs = block_marks-append bs cs
block_marks-append (binary b ∷ bs) cs = block_marks-append bs cs
block_marks-append (hint b ∷ bs) cs = block_marks-append bs cs

-- Another key of a message.
message_marks-put :
    (k : String) (v : Json) (m : Fields)
    → (k == "role") ≡ false
    → (k == "tool_call_id") ≡ false
    → (k == "tool_calls") ≡ false
    → message_marks (put k v m) ≡ message_marks m
unfolding message_marks text_or
message_marks-put k v m r i c =
    rw
      (
        message_marks,
        text_or,
        get-put k "role" v m,
        get-put k "tool_call_id" v m,
        get-put k "tool_calls" v m,
        r,
        i,
        c,
      )
      refl

add_reasoning-marks :
    (o : Option Json) (m : Fields) → message_marks (add_reasoning o m) ≡ message_marks m
add_reasoning-marks none m = refl
add_reasoning-marks (some v) m =
    elim (Bool-cases (truthy v && not (truthy? (get "reasoning_content" m)))) [
      | inl e ↦ rw e (message_marks-put "reasoning_content" v m refl refl refl)
      | inr e ↦ rw e refl
    ]

add_items-marks : (gs : List Json) (m : Fields) → message_marks (add_items gs m) ≡ message_marks m
unfolding add_items
add_items-marks [] m = refl
add_items-marks (arr (cons v vs) ∷ gs) m =
    message_marks-put "responses_output_items" _ m refl refl refl
add_items-marks (arr nil ∷ gs) m = refl
add_items-marks (null ∷ gs) m = refl
add_items-marks (bool b ∷ gs) m = refl
add_items-marks (number n ∷ gs) m = refl
add_items-marks (str s ∷ gs) m = refl
add_items-marks (obj d ∷ gs) m = refl

-- A block that is no tool result.
abbrev IsPending : ContentBlock → Type 0
IsPending (tool_result b) = ⊥
IsPending _ = Unit {0}

module _ (codec : Codec) (dump : DataBlock → Json) where
  call_dicts-marks :
      (bs : List ContentBlock)
      → All IsPending bs
      → call_marks (call_dicts codec dump bs) ≡ block_marks bs
  unfolding call_marks call_dicts block_marks text_or get
  call_dicts-marks [] h = refl
  call_dicts-marks (tool_call b ∷ bs) h = ap (λ l. called b.id ∷ l) (call_dicts-marks bs h.1)
  call_dicts-marks (text b ∷ bs) h = call_dicts-marks bs h.1
  call_dicts-marks (thinking b ∷ bs) h = call_dicts-marks bs h.1
  call_dicts-marks (binary b ∷ bs) h = call_dicts-marks bs h.1
  call_dicts-marks (hint b ∷ bs) h = call_dicts-marks bs h.1
  call_dicts-marks (tool_result b ∷ bs) h = absurd h.0

  -- A message of a role that is not "tool", with the calls.
  calls-marks :
      (role : String) (content : Json) (reasoning : List String) (calls : List Json)
      → (role == "tool") ≡ false
      → message_marks (
          with_calls codec dump calls (
            with_reasoning codec dump role reasoning
              (field "role" (str role) (field "content" content end))))
        ≡ call_marks calls
  unfolding message_marks call_marks get put text_or items_of list_of
  calls-marks role content reasoning calls n = elim (Bool-cases (role == "assistant")) [
    | inl e ↦ rw e (by_calls calls)
    | inr e ↦ rw e (by_plain_calls calls)
  ]
    where
      by_calls :
          (cs : List Json)
          → message_marks (
              with_calls codec dump cs (
                put "reasoning_content"
                  (str (join "\n" reasoning))
                  (field "role" (str role) (field "content" content end))))
            ≡ call_marks cs
      by_calls [] = rw (message_marks, n) refl
      by_calls (c ∷ cs) = rw (message_marks, n, list_of-items_of cs) refl

      by_plain_calls :
          (cs : List Json)
          → message_marks
              (with_calls codec dump cs (field "role" (str role) (field "content" content end)))
            ≡ call_marks cs
      by_plain_calls [] = rw (message_marks, n) refl
      by_plain_calls (c ∷ cs) = rw (message_marks, n, list_of-items_of cs) refl

  role_message-marks :
      (role : String) (bs : List ContentBlock)
      → (role == "tool") ≡ false
      → All IsPending bs
      → message_marks (role_message codec dump role bs) ≡ block_marks bs
  unfolding role_message
  role_message-marks role bs n h =
      calls-marks role (content_of codec dump (content_parts codec dump bs))
        (reasoning_texts codec dump bs) (call_dicts codec dump bs) n
      ∙ call_dicts-marks bs h

  to_openai_message-marks :
      (r : Role) (bs : List ContentBlock)
      → All IsPending bs
      → message_marks (to_openai_message codec dump (some (role_text r)) bs) ≡ block_marks bs
  unfolding to_openai_message
  to_openai_message-marks user bs h = role_message-marks "user" bs refl h
  to_openai_message-marks assistant bs h = role_message-marks "assistant" bs refl h
  to_openai_message-marks system bs h = role_message-marks "system" bs refl h

  module _ (r : Role) where
    flush-marks :
        (bs : List ContentBlock) (e : Extras)
        → All IsPending bs
        → all_marks (flush codec dump (role_text r) bs e) ≡ block_marks bs
    unfolding flush all_marks block_marks
    flush-marks [] e h = refl
    flush-marks (b ∷ bs) e h =
        append-nil _
        ∙ add_items-marks e.groups _
        ∙ add_reasoning-marks e.reasoning _
        ∙ to_openai_message-marks r (b ∷ bs) h

    hint-marks :
        (o : Output) (b : ContentBlock)
        → All IsPending (b ∷ [])
        → block_marks (b ∷ []) ≡ []
        → message_marks (hint_message codec dump (role_text r) o b) ≡ []
    unfolding message_marks call_marks text_or get
    hint-marks (plain s) b h e = refl
    hint-marks (parts ps) b h e = to_openai_message-marks user (b ∷ []) h ∙ e

    -- The pending blocks are flushed before a message of a block of its own.
    cut-marks :
        (pending : List ContentBlock) (e : Extras) (m : Fields) (rest : List Fields)
        (b : ContentBlock) (bs : List ContentBlock)
        → All IsPending pending
        → message_marks m ≡ block_marks (b ∷ [])
        → all_marks rest ≡ block_marks bs
        → all_marks (flush codec dump (role_text r) pending e ++ (m ∷ rest))
          ≡ block_marks (pending ++ (b ∷ bs))
    unfolding all_marks
    cut-marks pending e m rest b bs h p q =
        all_marks-append (flush codec dump (role_text r) pending e) (m ∷ rest)
        ∙ rw
            (
              flush-marks pending e h,
              p,
              q,
              block_marks-append pending (b ∷ bs),
              block_marks-append (b ∷ []) bs,
            )
            refl

    expand-marks :
        (bs pending : List ContentBlock) (e : Extras)
        → All IsPending pending
        → all_marks (expand codec dump (role_text r) bs pending e) ≡ block_marks (pending ++ bs)
    unfolding expand message_marks block_marks to_openai_message text_or get
    expand-marks [] pending e h =
        flush-marks pending e h ∙ ap block_marks (sym (append-nil pending))
    expand-marks (hint b ∷ bs) pending e h =
        cut-marks pending e _ _ (hint b) bs h (hint-marks b.hint (hint b) (tt, tt) refl)
          (expand-marks bs [] (spend pending e) tt)
    expand-marks (tool_result b ∷ bs) pending e h =
        cut-marks pending e _ _ (tool_result b) bs h refl (expand-marks bs [] (spend pending e) tt)
    expand-marks (text b ∷ bs) pending e h =
        expand-marks bs (pending ++ (text b ∷ [])) e (All-append IsPending pending _ h (tt, tt))
        ∙ ap block_marks (append_assoc pending (text b ∷ []) bs)
    expand-marks (thinking b ∷ bs) pending e h =
        expand-marks bs (pending ++ (thinking b ∷ [])) e (All-append IsPending pending _ h (tt, tt))
        ∙ ap block_marks (append_assoc pending (thinking b ∷ []) bs)
    expand-marks (binary b ∷ bs) pending e h =
        expand-marks bs (pending ++ (binary b ∷ [])) e (All-append IsPending pending _ h (tt, tt))
        ∙ ap block_marks (append_assoc pending (binary b ∷ []) bs)
    expand-marks (tool_call b ∷ bs) pending e h =
        expand-marks bs (pending ++ (tool_call b ∷ [])) e
          (All-append IsPending pending _ h (tt, tt))
        ∙ ap block_marks (append_assoc pending (tool_call b ∷ []) bs)

    or_blank-marks :
        (o : Option Json) (ms : List Fields)
        → all_marks (or_blank (to_openai_message codec dump (some (role_text r)) []) o ms)
          ≡ all_marks ms
    unfolding all_marks block_marks
    or_blank-marks o (m ∷ ms) = refl
    or_blank-marks none [] = append-nil _ ∙ to_openai_message-marks r [] tt
    or_blank-marks (some v) [] = elim (Bool-cases (truthy v)) [
      | inl e ↦ rw e (
          append-nil _
          ∙ message_marks-put "reasoning_content" v _ refl refl refl
          ∙ to_openai_message-marks r [] tt)
      | inr e ↦ rw e (append-nil _ ∙ to_openai_message-marks r [] tt)
    ]

  -- In the provider messages of a message its tool calls and tool results stand in the order of its
  -- blocks: each call once, in the `tool_calls` of a message, and each result once, as a message of
  -- its own of role "tool" with its id; nothing else calls or answers.
  pub all_marks-msg_to_dicts :
      (m : Msg) → all_marks (msg_to_dicts codec dump m) ≡ block_marks m.content
  unfolding msg_to_dicts
  all_marks-msg_to_dicts m =
      or_blank-marks m.role (get "reasoning_content" m.metadata) _
      ∙ expand-marks m.role m.content [] _ tt
