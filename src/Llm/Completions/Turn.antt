-- ===== src/Llm/Completions/Turn.antt =====
-- The loop over a provider's stream in llm/adapters/openai_completions.py (src/ftre_agent_core): the
-- accumulator of tool calls and one turn of `async for chunk in response`.
use Prim.Native.String.{len, slice}
use ftre_agent_core.Prelude.{
  ℕ, ◌+◌, String, Option, none, some, Bool, not, ◌&&◌, List, [], ◌∷◌, ◌++◌, length, ◌==◌, ◌<>◌, ltb,
  if◌then◌else◌,
}
use ftre_agent_core.Json.{Fields, end, field, put}
use ftre_agent_core.Runner.{LlmError}
use ftre_agent_core.Llm.{Usage, Chunk, block_start, text_delta, reasoning_delta, tool_call_delta}
use ftre_agent_core.Llm.Assembler.{find, set}

-- An item of `delta.tool_calls`; a missing text is the empty one, as `or ""` makes it.
pub record ToolDelta : Type 0 where
  pub index : Option ℕ
  pub id : String
  pub name : String
  pub arguments : String

-- `choices[0]`; a missing text is the empty one, which every test takes for a missing one.
pub record Choice : Type 0 where
  pub reasoning_content : String
  pub content : String
  pub tool_calls : List ToolDelta
  pub finish_reason : String

-- A chunk of the provider: those of `id`, `model`, `created` and `system_fingerprint` that are there,
-- the usage as normalize_usage gives it if it is not empty, and the first choice.
pub record Item : Type 0 where
  pub metadata : Fields
  pub usage : Option Usage
  pub choice : Option Choice

-- What the loop meets: an item, an item before which cancel() was called, or an exception, as
-- LLMError.classify gives it.
pub data Wire : Type 0 where
  item : Item → Wire
  cancelled : Wire
  failed : LlmError → Wire

pub record Entry : Type 0 where
  pub id : String
  pub name : String
  pub arguments : String
  pub emitted_length : ℕ

abbrev pub new_entry : Entry
new_entry = record { id = ""; name = ""; arguments = ""; emitted_length = 0 }

pub record Fragment : Type 0 where
  pub wire_index : ℕ
  pub call_id : String
  pub name : String
  pub arguments : String

abbrev pub or_old : String → String → String
or_old new old = if new == "" then old else new

abbrev pub entry_of : Option Entry → Entry
entry_of none = new_entry
entry_of (some e) = e

abbrev pub fill : ToolDelta → Entry → Entry
fill d e = record e {
  id = or_old d.id e.id;
  name = or_old d.name e.name;
  arguments = e.arguments <> d.arguments;
}

-- The lengths are those of the UTF-8 texts, there and in the cut.
abbrev pub unsent : Entry → String
unsent e = slice e.arguments e.emitted_length (len e.arguments)

abbrev pub can_send : Entry → Bool
can_send e = not (e.id == "") && ltb e.emitted_length (len e.arguments)

abbrev pub index_in : List (ℕ × Entry) → Option ℕ → ℕ
index_in items none = length items
index_in items (some i) = i

-- _ToolCallAccumulator.feed
unfoldable pub accumulate : List (ℕ × Entry) → ToolDelta → List (ℕ × Entry) × Option Fragment
unfolding find set
accumulate items d =
    let index = index_in items d.index in
    let e = fill d (entry_of (find index items)) in
    if can_send e
    then (
      set index (record e { emitted_length = len e.arguments }) items,
      some (record { wire_index = index; call_id = e.id; name = e.name; arguments = unsent e }),
    )
    else (set index e items, none)

-- The variables of `stream`.
pub record Turn : Type 0 where
  pub items : List (ℕ × Entry)
  pub usage : Option Usage
  pub finish_reason : String
  pub response_metadata : Fields
  pub reasoning_text : String
  pub text : String
  pub reasoning_index : Option ℕ
  pub text_index : Option ℕ
  pub next_index : ℕ
  pub tool_block_index : List (ℕ × ℕ)

abbrev pub new_turn : Turn
new_turn = record {
  items = [];
  usage = none;
  finish_reason = "unknown";
  response_metadata = end;
  reasoning_text = "";
  text = "";
  reasoning_index = none;
  text_index = none;
  next_index = 0;
  tool_block_index = [];
}

-- A step of the loop: the variables after it and the chunks that it yields.
abbrev pub Step : Type 0
Step = Turn × List Chunk

-- One step, then the next.
abbrev pub then_step : Step → (Turn → Step) → Step
then_step s f = let r = f s.0 in (r.0, s.1 ++ r.1)

unfoldable pub reasoning_at : Turn → String → Option ℕ → Step
reasoning_at t s none = (
  record t {
    reasoning_index = some t.next_index;
    next_index = t.next_index + 1;
    reasoning_text = t.reasoning_text <> s;
  },
  block_start t.next_index "reasoning" ∷ reasoning_delta t.next_index s ∷ [],
)
reasoning_at t s (some i) =
    (record t { reasoning_text = t.reasoning_text <> s }, reasoning_delta i s ∷ [])

unfoldable pub on_reasoning : String → Turn → Step
unfolding reasoning_at
on_reasoning s t = if s == "" then (t, []) else reasoning_at t s t.reasoning_index

unfoldable pub text_at : Turn → String → Option ℕ → Step
text_at t s none = (
  record t { text_index = some t.next_index; next_index = t.next_index + 1; text = t.text <> s },
  block_start t.next_index "text" ∷ text_delta t.next_index s ∷ [],
)
text_at t s (some i) = (record t { text = t.text <> s }, text_delta i s ∷ [])

unfoldable pub on_content : String → Turn → Step
unfolding text_at
on_content s t = if s == "" then (t, []) else text_at t s t.text_index

abbrev pub delta_of : ℕ → Fragment → Chunk
delta_of index f = tool_call_delta index f.call_id f.name f.arguments

unfoldable pub fragment_at : Turn → Fragment → Option ℕ → Step
unfolding set
fragment_at t f none = (
  record t {
    tool_block_index = set f.wire_index t.next_index t.tool_block_index;
    next_index = t.next_index + 1;
  },
  block_start t.next_index "tool-call" ∷ delta_of t.next_index f ∷ [],
)
fragment_at t f (some i) = (t, delta_of i f ∷ [])

unfoldable pub on_fragment : Option Fragment → Turn → Step
unfolding find fragment_at
on_fragment none t = (t, [])
on_fragment (some f) t = fragment_at t f (find f.wire_index t.tool_block_index)

unfoldable pub on_tool : ToolDelta → Turn → Step
unfolding accumulate on_fragment
on_tool d t = let r = accumulate t.items d in on_fragment r.1 (record t { items = r.0 })

unfoldable pub on_tools : List ToolDelta → Turn → Step
unfolding on_tool
on_tools [] t = (t, [])
on_tools (d ∷ ds) t = then_step (on_tool d t) (on_tools ds)

abbrev pub with_finish : String → Turn → Step
with_finish s t = (record t { finish_reason = or_old s t.finish_reason }, [])

-- The tool calls of a choice, and its finish reason; then these after its text.
abbrev pub on_calls : Choice → Turn → Step
on_calls c t = then_step (on_tools c.tool_calls t) (with_finish c.finish_reason)

abbrev pub on_visible : Choice → Turn → Step
on_visible c t = then_step (on_content c.content t) (on_calls c)

unfoldable pub on_choice : Option Choice → Turn → Step
unfolding on_reasoning on_content on_tools
on_choice none t = (t, [])
on_choice (some c) t = then_step (on_reasoning c.reasoning_content t) (on_visible c)

abbrev pub or_usage : Option Usage → Option Usage → Option Usage
or_usage none old = old
or_usage (some u) old = some u

-- `response_metadata[key] = value` of each field
unfoldable pub put_all : Fields → Fields → Fields
unfolding put
put_all end d = d
put_all (field k v rest) d = put_all rest (put k v d)

abbrev pub note : Item → Turn → Turn
note i t = record t {
  response_metadata = put_all i.metadata t.response_metadata;
  usage = or_usage i.usage t.usage;
}

-- One turn of `async for chunk in response`.
unfoldable pub on_item : Item → Turn → Step
unfolding on_choice put_all
on_item i t = on_choice i.choice (note i t)
