-- ===== src/Convert/RoundTrip.antt =====
-- A message written by to_openai_message and read by from_openai_message
-- (src/ftre_agent_core/message/_convert.py).
use ftre_agent_core.Prelude.{
  ℕ, suc, String, ◌≡◌, refl, ap, ◌∙◌, none, some, false, List, [], ◌∷◌, ◌++◌, ◌==◌, All,
  if◌then◌else◌,
}
use ftre_agent_core.Json.Laws.{list_of-items_of}
use ftre_agent_core.Json.{Json, str, obj, Fields, end, field, get, put, list_of, items_of}
use ftre_agent_core.Message.{
  DataBlock, ContentBlock, text, thinking, binary, hint, tool_call, tool_result, pending,
}
use ftre_agent_core.Convert.{
  Codec, text_or, new_text, from_items, from_tool_calls, from_openai_message, parse_or_empty,
}
use ftre_agent_core.Convert.Export.{
  join, content_parts, call_dicts, reasoning_texts, content_of, with_calls, with_reasoning,
  role_message, to_openai_message, starts_with_result, to_openai_part,
}

-- What the code relies on in `json`: the dict that was dumped is loaded again, and no dumped text is
-- empty.
pub record IsLoadedBack (codec : Codec) (d : Fields) : Type 0 where
  pub loads-dumps : codec.loads (codec.dumps (obj d)) ≡ some d
  pub is_some_text : (codec.dumps (obj d) == "") ≡ false

-- The blocks that a model answers with, with arguments that `json` gives back.
abbrev pub IsSpoken : Codec → ContentBlock → Type 0
IsSpoken codec (text b) = Unit {0}
IsSpoken codec (thinking b) = Unit {0}
IsSpoken codec (tool_call b) = IsLoadedBack codec b.arguments
IsSpoken codec _ = ⊥

unfoldable pub new_texts : (ℕ → String) → ℕ → List ContentBlock → List ContentBlock
new_texts ids k [] = []
new_texts ids k (text b ∷ bs) = new_text (ids k) b.text ∷ new_texts ids (suc k) bs
new_texts ids k (_ ∷ bs) = new_texts ids k bs

abbrev pub new_thinking : String → String → List ContentBlock
new_thinking id s =
    if s == "" then [] else thinking (record { thinking = s; id = id; finished_at = none }) ∷ []

-- The tool calls, not yet answered.
unfoldable pub new_calls : List ContentBlock → List ContentBlock
new_calls [] = []
new_calls (tool_call b ∷ bs) =
    tool_call (record b { state = pending; finished_at = none }) ∷ new_calls bs
new_calls (_ ∷ bs) = new_calls bs

module _ (codec : Codec) (dump : DataBlock → Json) where
  from_items-content_parts :
      (ids : ℕ → String) (k : ℕ) (bs : List ContentBlock)
      → All (IsSpoken codec) bs
      → from_items codec ids k (content_parts codec dump bs) ≡ new_texts ids k bs
  unfolding from_items content_parts new_texts to_openai_part get text_or
  from_items-content_parts ids k [] h = refl
  from_items-content_parts ids k (text b ∷ bs) h =
      ap (λ l. new_text (ids k) b.text ∷ l) (from_items-content_parts ids (suc k) bs h.1)
  from_items-content_parts ids k (thinking b ∷ bs) h = from_items-content_parts ids k bs h.1
  from_items-content_parts ids k (tool_call b ∷ bs) h = from_items-content_parts ids k bs h.1
  from_items-content_parts ids k (binary b ∷ bs) h = absurd h.0
  from_items-content_parts ids k (hint b ∷ bs) h = absurd h.0
  from_items-content_parts ids k (tool_result b ∷ bs) h = absurd h.0

  arguments-dumps :
      (d : Fields) → IsLoadedBack codec d → parse_or_empty codec (codec.dumps (obj d)) ≡ d
  arguments-dumps d h = rw (h.is_some_text, h.loads-dumps) refl

  from_tool_calls-call_dicts :
      (bs : List ContentBlock)
      → All (IsSpoken codec) bs
      → from_tool_calls codec (call_dicts codec dump bs) ≡ new_calls bs
  unfolding from_tool_calls call_dicts new_calls get text_or
  from_tool_calls-call_dicts [] h = refl
  from_tool_calls-call_dicts (tool_call b ∷ bs) h =
      rw (arguments-dumps b.arguments h.0, from_tool_calls-call_dicts bs h.1) refl
  from_tool_calls-call_dicts (text b ∷ bs) h = from_tool_calls-call_dicts bs h.1
  from_tool_calls-call_dicts (thinking b ∷ bs) h = from_tool_calls-call_dicts bs h.1
  from_tool_calls-call_dicts (binary b ∷ bs) h = absurd h.0
  from_tool_calls-call_dicts (hint b ∷ bs) h = absurd h.0
  from_tool_calls-call_dicts (tool_result b ∷ bs) h = absurd h.0

  abbrev message : List Json → List String → List Json → Fields
  message items reasoning calls = with_calls codec dump calls (
      with_reasoning codec dump "assistant" reasoning
        (field "role" (str "assistant") (field "content" (content_of codec dump items) end)))

  from-message :
      (ids : ℕ → String) (k : ℕ) (items : List Json) (reasoning : List String) (calls : List Json)
      → from_openai_message codec ids k (message items reasoning calls)
        ≡ from_items codec ids (suc k) items
          ++ (new_thinking (ids k) (join "\n" reasoning) ++ from_tool_calls codec calls)
  unfolding from_openai_message get put text_or from_items from_tool_calls items_of list_of
  from-message ids k [] reasoning [] = refl
  from-message ids k [] reasoning (c ∷ cs) = rw (list_of-items_of cs) refl
  from-message ids k (v ∷ vs) reasoning [] = rw (list_of-items_of vs) refl
  from-message ids k (v ∷ vs) reasoning (c ∷ cs) =
      rw (list_of-items_of vs, list_of-items_of cs) refl

  no_result :
      (bs : List ContentBlock) → All (IsSpoken codec) bs → starts_with_result codec dump bs ≡ false
  no_result [] h = refl
  no_result (text b ∷ bs) h = refl
  no_result (thinking b ∷ bs) h = refl
  no_result (tool_call b ∷ bs) h = refl
  no_result (binary b ∷ bs) h = absurd h.0
  no_result (hint b ∷ bs) h = absurd h.0
  no_result (tool_result b ∷ bs) h = absurd h.0

  to_message :
      (bs : List ContentBlock)
      → All (IsSpoken codec) bs
      → to_openai_message codec dump none bs
        ≡ message
            (content_parts codec dump bs)
            (reasoning_texts codec dump bs)
            (call_dicts codec dump bs)
  unfolding to_openai_message role_message
  to_message bs h = rw (to_openai_message, no_result bs h) refl

  -- Blocks of text, reasoning and tool calls, whose arguments `json` gives back, written as a message of the assistant and read again,
  -- are: the texts, in order; the reasoning texts joined by line breaks, if they are not all empty;
  -- and the tool calls, in order, with their ids, names and arguments, and pending. The texts and the
  -- reasoning take new ids.
  pub from_openai_message-to_openai_message :
      (ids : ℕ → String) (k : ℕ) (bs : List ContentBlock)
      → All (IsSpoken codec) bs
      → from_openai_message codec ids k (to_openai_message codec dump none bs)
        ≡ new_texts ids (suc k) bs
          ++ (new_thinking (ids k) (join "\n" (reasoning_texts codec dump bs)) ++ new_calls bs)
  from_openai_message-to_openai_message ids k bs h =
      ap (from_openai_message codec ids k) (to_message bs h)
      ∙ from-message ids k (content_parts codec dump bs) (reasoning_texts codec dump bs)
          (call_dicts codec dump bs)
      ∙ rw (from_items-content_parts ids (suc k) bs h, from_tool_calls-call_dicts bs h) refl
