-- ===== src/Llm/Completions/Tests.antt =====
-- Streams of llm/adapters/openai_completions.py (src/ftre_agent_core), and the theorems on them.
use ftre_agent_core.Prelude.{
  ℕ, String, ◌≡◌, refl, ap, is_some, if◌then◌else◌, none, some, true, List, [], ◌∷◌, Memᴰ, arith,
}
use ftre_agent_core.Json.{end, field, str}
use ftre_agent_core.Llm.{block_start, block_end, text_delta, tool_call_delta, finish_chunk}
use ftre_agent_core.Llm.Assembler.{ok, Assembler, init, feed_all, validate, find}
use ftre_agent_core.Llm.Completions.Turn.{ToolDelta, Entry, Wire, item, cancelled}
use ftre_agent_core.Llm.Completions.Stream.{
  Library, loop, stream, finish_with, error_finish, tool_dict, block_dict,
}
use ftre_agent_core.Llm.Completions.Whole.{stream-accepted, end_turn}
use ftre_agent_core.Llm.Completions.Validated.{IsComplete, stream-validated}
use ftre_agent_core.Llm.Completions.Fragments.{
  accumulate_all, sent_to, received, has_id, sent_to-accumulate_all,
}

abbrev library : Library
library = record { upper = λ s. s; key_error = λ w. record { message = "0"; code = "unknown" } }

abbrev call_delta : String → String → String → ToolDelta
call_delta id name arguments = record {
  index = some 0;
  id = id;
  name = name;
  arguments = arguments;
}

abbrev sends : String → List ToolDelta → String → Wire
sends content calls finish_reason = item (record {
  metadata = end;
  usage = none;
  choice = some (record {
    reasoning_content = "";
    content = content;
    tool_calls = calls;
    finish_reason = finish_reason;
  });
})

-- The first fragment of the arguments comes before the id.
abbrev late_id : List Wire
late_id =
    sends "On it." (call_delta "" "" "{\"a\"" ∷ []) ""
    ∷ sends "" (call_delta "c" "read" ":1}" ∷ []) ""
    ∷ sends "" [] "tool_calls"
    ∷ []

late_id_chunks :
    stream library late_id
    ≡ block_start 0 "text"
      ∷ text_delta 0 "On it."
      ∷ block_start 1 "tool-call"
      ∷ tool_call_delta 1 "c" "read" "{\"a\":1}"
      ∷ block_end 0 (block_dict "text" (field "text" (str "On it.") end))
      ∷ block_end 1 (
          tool_dict
            (record { id = "c"; name = "read"; arguments = "{\"a\":1}"; emitted_length = 7 }))
      ∷ finish_chunk (finish_with "tool-calls" none end)
      ∷ []
unfolding stream
late_id_chunks = refl

stream-accepted_example :
    (a : Assembler) × (feed_all init (stream library late_id) ≡ ok a) × (a.finished ≡ true)
stream-accepted_example = stream-accepted library late_id

abbrev read_entry : Entry
read_entry = record { id = "c"; name = "read"; arguments = "{\"a\":1}"; emitted_length = 7 }

late_id-IsComplete : IsComplete (end_turn library late_id)
unfolding loop find
late_id-IsComplete = record {
  named = λ w i e. (read_entry, Memᴰ.head (same_wire w i e), refl);
  started = λ w d m n. started_wire w d m;
}
  where
    same_wire :
        (w i : ℕ)
        → find {V = ℕ} w ((0, 1) ∷ []) ≡ some i
        → ◌≡◌ {A = ℕ × Entry} (w, read_entry) (0, read_entry)
    same_wire w i e = ground (arith, e)

    started_wire :
        (w : ℕ) (d : Entry)
        → Memᴰ {A = ℕ × Entry} (w, d) ((0, read_entry) ∷ [])
        → is_some (find {V = ℕ} w ((0, 1) ∷ [])) ≡ true
    started_wire w d (Memᴰ.head p) = ground (arith, ap (λ (q : ℕ × Entry). q.0) p)
    started_wire w d (Memᴰ.tail m) = elim m [ ]

stream-validated_example :
    (a : Assembler) × (feed_all init (stream library late_id) ≡ ok a) × (validate a ≡ ok tt)
unfolding loop
stream-validated_example = stream-validated library late_id refl late_id-IsComplete

-- A call without arguments: its block is never started, and closing it fails on the missing index.
no_arguments :
    stream library (sends "" (call_delta "c" "now" "" ∷ []) "tool_calls" ∷ [])
    ≡ error_finish (library.key_error 0) ∷ []
unfolding stream
no_arguments = refl

-- A call with an id, arguments and no name: its block is started and never closed.
no_name :
    stream library (sends "" (call_delta "c" "" "{}" ∷ []) "tool_calls" ∷ [])
    ≡ block_start 0 "tool-call"
      ∷ tool_call_delta 0 "c" "" "{}"
      ∷ finish_chunk (finish_with "tool-calls" none end)
      ∷ []
unfolding stream
no_name = refl

-- A cancelled stream that has given some text ends as if the model had stopped.
cancelled_stop :
    stream library (sends "Hal" [] "" ∷ cancelled ∷ [])
    ≡ block_start 0 "text"
      ∷ text_delta 0 "Hal"
      ∷ block_end 0 (block_dict "text" (field "text" (str "Hal") end))
      ∷ finish_chunk (finish_with "stop" none end)
      ∷ []
unfolding stream
cancelled_stop = refl

abbrev in_pieces : List ToolDelta
in_pieces = call_delta "" "" "{\"a\"" ∷ call_delta "c" "read" ":1}" ∷ []

sent_to-accumulate_all_example :
    sent_to 0 (accumulate_all [] in_pieces).1
    ≡ (if has_id 0 [] in_pieces then received 0 [] in_pieces else "")
sent_to-accumulate_all_example = sent_to-accumulate_all in_pieces 0

-- The first piece, held back until the id came, is sent with the second.
sent_in_pieces : sent_to 0 (accumulate_all [] in_pieces).1 ≡ "{\"a\":1}"
unfolding accumulate_all sent_to
sent_in_pieces = refl
