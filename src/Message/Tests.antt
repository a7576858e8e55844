-- ===== src/Message/Tests.antt =====
-- A message rebuilt from a stream of two messages (Msg.append_event of
-- src/ftre_agent_core/message/_msg.py).
use ftre_agent_core.Prelude.{ℕ, String, ◌≡◌, refl, none, some, List, [], ◌∷◌, ◌++◌, ◌<>◌}
use ftre_agent_core.Json.{end, get}
use ftre_agent_core.Message.{TokenUsage, Msg, default, assistant, text, tool_call, ToolCallState}
use ftre_agent_core.Event.{
  Event, EventBody, text_block_delta, tool_call_start, tool_call_end, model_call_end,
}
use ftre_agent_core.Message.Blocks.{find_block}
use ftre_agent_core.Message.Rebuild.{Library, rebuild}
use ftre_agent_core.Message.Order.{places, all_starts, places-rebuild}
use ftre_agent_core.Message.Text.{HasText, all_deltas, text-rebuild}
use ftre_agent_core.Message.Tokens.{usages, token_of, token-rebuild}

abbrev library : Library
library = record {
  loads = λ s. some end;
  decode = λ s. some [];
  encode = λ bytes. "";
  new_id = λ e. "new";
  now = λ e. "now";
}

abbrev of : String → EventBody → Event
of message body = record {
  reply_id = some "run";
  message_id = some message;
  created_at = "12:00";
  body = body;
}

abbrev used : ℕ → TokenUsage
used n = record { prompt_tokens = n; completion_tokens = 1; total_tokens = 2 }

abbrev blank : Msg
blank = record {
  name = default;
  content = text (record { text = "Hm, "; id = "t"; finished_at = none }) ∷ [];
  role = assistant;
  id = "m";
  metadata = end;
  token = none;
  finished_at = none;
  finished_reason = none;
  error = none;
  tool_call_input_buf = [];
}

abbrev stream : List Event
stream =
    of "m" (text_block_delta "t" "he")
    ∷ of "other" (text_block_delta "t" "no")
    ∷ of "m" (tool_call_start "c" "read")
    ∷ of "m" (text_block_delta "t" "llo")
    ∷ of "m" (tool_call_end "c" "{}")
    ∷ of "m" (model_call_end (used 3) "completed" end)
    ∷ of "other" (model_call_end (used 9) "completed" end)
    ∷ of "m" (model_call_end (used 4) "completed" end)
    ∷ []

abbrev rebuilt : Msg
rebuilt = record blank {
  content =
      text (record { text = "Hm, hello"; id = "t"; finished_at = none })
      ∷ tool_call (record {
        id = "c";
        name = "read";
        arguments = end;
        state = ToolCallState.pending;
        finished_at = some "12:00";
      })
      ∷ [];
  token = some (record {
    usage = record { prompt_tokens = 7; completion_tokens = 2; total_tokens = 4 };
    last_call_usage = used 4;
  });
}

stream-rebuilt : rebuild library stream blank ≡ some rebuilt
unfolding rebuild get
stream-rebuilt = refl

places-rebuild_example :
    (rebuilt.id ≡ "m") × (places rebuilt.content ≡ places blank.content ++ all_starts "m" stream)
places-rebuild_example = places-rebuild library stream blank rebuilt stream-rebuilt

text-rebuild_example : HasText "t" ("Hm, " <> all_deltas "m" "t" stream) rebuilt.content
unfolding find_block
text-rebuild_example =
    text-rebuild library "t" "Hm, " stream blank rebuilt
      (record {
        block = record { text = "Hm, "; id = "t"; finished_at = none };
        is_there = refl;
        says = refl;
      })
      stream-rebuilt

token-rebuild_example : rebuilt.token ≡ token_of (usages "m" stream)
token-rebuild_example = token-rebuild library stream blank rebuilt refl stream-rebuilt
