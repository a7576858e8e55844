-- ===== src/Convert/Tests.antt =====
-- A message written and read again (src/ftre_agent_core/message/_convert.py).
use ftre_agent_core.Prelude.{ℕ, String, ◌≡◌, refl, none, some, List, [], ◌∷◌, ◌++◌}
use ftre_agent_core.Json.{null, obj, str, end, field}
use ftre_agent_core.Message.{
  ContentBlock, hint, parts, text_part, text, thinking, tool_call, finished,
}
use ftre_agent_core.Convert.{Codec, from_openai_message}
use ftre_agent_core.Convert.Export.{join, reasoning_texts, to_openai_part, to_openai_message}
use ftre_agent_core.Convert.RoundTrip.{
  new_texts, new_thinking, new_calls, from_openai_message-to_openai_message,
}

-- A codec of dicts with the one key "path", whose texts are the paths.
abbrev codec : Codec
codec = record {
  loads = λ s. some (field "path" (str s) end);
  dumps = λ v. elim v [ obj (field k (str s) rest) ↦ s | _ ↦ "null" ];
  text_of = λ v. "";
  read_base64 = λ s. none;
}

abbrev answer : List ContentBlock
answer =
    thinking (record { thinking = "Where?"; id = "r"; finished_at = none })
    ∷ text (record { text = "Let me see."; id = "t"; finished_at = none })
    ∷ tool_call (record {
      id = "c";
      name = "read";
      arguments = field "path" (str "a.txt") end;
      state = finished;
      finished_at = none;
    })
    ∷ []

abbrev ids : ℕ → String
ids k = "new"

from_openai_message-to_openai_message_example :
    from_openai_message codec ids 0 (to_openai_message codec (λ b. null) none answer)
    ≡ new_texts ids 1 answer
      ++ (new_thinking "new" (join "\n" (reasoning_texts codec (λ b. null) answer))
          ++ new_calls answer)
from_openai_message-to_openai_message_example =
    from_openai_message-to_openai_message codec (λ b. null) ids 0 answer
      (tt, (tt, (record { loads-dumps = refl; is_some_text = refl }, tt)))

-- A hint whose items are blocks, as Msg.append_event keeps them, loses its text.
hint_lost :
    to_openai_part codec
      (λ b. null)
      (hint (record {
        hint =
            parts (text_part (record { text = "mind the gap"; id = "t"; finished_at = none }) ∷ []);
        source = none;
        id = "h";
        finished_at = none;
      }))
    ≡ field "type" (str "text") (field "text" (str "") end)
unfolding to_openai_part
hint_lost = refl
