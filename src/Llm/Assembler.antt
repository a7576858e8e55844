-- ===== src/Llm/Assembler.antt =====
-- class BlockAssembler of llm/block_assembler.py (src/ftre_agent_core). A method that raises
-- LLMError gives the error; the code raises before it changes a field, so the assembler is then as
-- it was. The message of an error that lists what it met is shortened to its first words.
pub mod Order
mod Tests
use ftre_agent_core.Prelude.{
  ℕ, suc, ◌+◌, String, Option, none, some, Bool, true, false, not, ◌&&◌, ◌||◌, List, [], ◌∷◌, map,
  ◌==◌, ◌<>◌, leb, ltb, eqb, keep, is_empty, if◌then◌else◌,
}
use ftre_agent_core.Json.{Json, str, Fields, get}
use ftre_agent_core.Runner.{LlmError}
use ftre_agent_core.Llm.{
  Usage, FinishReason, Chunk, block_start, text_delta, reasoning_delta, tool_call_delta, block_end,
  usage_chunk, finish_chunk, unknown,
}

pub data Fed (A : Type 0) : Type 0 where
  ok : A → Fed A
  err : LlmError → Fed A

abbrev pub protocol : {A : Type 0} → String → Fed A
protocol message = err (record { message = message; code = "STREAM_PROTOCOL" })

pub record OpenBlock : Type 0 where
  pub index : ℕ
  pub block_type : String
  pub text : String
  pub call_id : String
  pub name : String
  pub arguments : String

-- The finished blocks, as dicts of `type` "text", "thinking" and "tool-call".
pub data Block : Type 0 where
  text_block : String → Block
  thinking_block : String → Block
  tool_block : String → String → String → Block

abbrev pub is_tool_block : Block → Bool
is_tool_block (tool_block _ _ _) = true
is_tool_block _ = false

module _ {ℓ} {V : Type ℓ} where
  -- A dict with numbers for keys.
  unfoldable pub find : ℕ → List (ℕ × V) → Option V
  find i [] = none
  find i ((k, v) ∷ rest) = if eqb k i then some v else find i rest

  unfoldable pub set : ℕ → V → List (ℕ × V) → List (ℕ × V)
  set i v [] = (i, v) ∷ []
  set i v ((k, w) ∷ rest) = if eqb k i then (k, v) ∷ rest else (k, w) ∷ set i v rest

  unfoldable pub drop : ℕ → List (ℕ × V) → List (ℕ × V)
  drop i [] = []
  drop i ((k, v) ∷ rest) = let rest' = drop i rest in if eqb k i then rest' else (k, v) ∷ rest'

  -- `sorted(d)`, each key with its value
  unfoldable pub place : ℕ → V → List (ℕ × V) → List (ℕ × V)
  place i v [] = (i, v) ∷ []
  place i v ((k, w) ∷ rest) = if ltb i k then (i, v) ∷ (k, w) ∷ rest else (k, w) ∷ place i v rest

  unfoldable pub sorted : List (ℕ × V) → List (ℕ × V)
  unfolding place
  sorted [] = []
  sorted ((k, v) ∷ rest) = place k v (sorted rest)

-- `_pending`, a set of numbers, is kept as the dict of the pending indices.
pub record Assembler : Type 0 where
  pub opened : List (ℕ × OpenBlock)
  pub next_index : ℕ
  pub closed : List (ℕ × Block)
  pub usage : Option Usage
  pub finish : Option FinishReason
  pub finished : Bool
  pub pending : List (ℕ × Unit {0})

abbrev pub init : Assembler
init = record {
  opened = [];
  next_index = 0;
  closed = [];
  usage = none;
  finish = none;
  finished = false;
  pending = [];
}

abbrev pub is_block_type : String → Bool
is_block_type t = t == "text" || t == "reasoning" || t == "tool-call"

abbrev pub wire_type : String → String
wire_type t = if t == "reasoning" then "thinking" else t

unfoldable pub finalize_block : OpenBlock → Block
finalize_block b =
    if b.block_type == "text"
    then text_block b.text
    else if b.block_type == "reasoning"
    then thinking_block b.text
    else tool_block b.call_id b.name b.arguments

-- `block.get("type")`, the empty text for none or for a value that is no text
abbrev pub text_at : Option Json → String
text_at (some (str s)) = s
text_at _ = ""

abbrev pub or_keep : String → String → String
or_keep new old = if new == "" then old else new

unfoldable pub feed_start : Assembler → ℕ → String → Fed Assembler
unfolding set
feed_start a index block_type =
    if not (eqb index a.next_index)
    then protocol "block-start index != expected"
    else if not (is_block_type block_type)
    then protocol "unknown block_type"
    else ok (record a {
      opened =
          set index
            (record {
              index = index;
              block_type = block_type;
              text = "";
              call_id = "";
              name = "";
              arguments = "";
            })
            a.opened;
      pending = set index tt a.pending;
      next_index = a.next_index + 1;
    })

delta_on : Assembler → ℕ → String → String → Option OpenBlock → Fed Assembler
delta_on a index expected text none = protocol "delta/end for unopened or closed block index"
delta_on a index expected text (some b) =
    if not (b.block_type == expected)
    then protocol "delta type does not match open block"
    else ok (record a { opened = set index (record b { text = b.text <> text }) a.opened })

-- _feed_delta, with _require_open
unfoldable pub feed_delta : Assembler → ℕ → String → String → Fed Assembler
unfolding delta_on find set
feed_delta a index expected text = delta_on a index expected text (find index a.opened)

tool_delta_on : Assembler → ℕ → String → String → String → Option OpenBlock → Fed Assembler
tool_delta_on a index call_id name delta none =
    protocol "delta/end for unopened or closed block index"
tool_delta_on a index call_id name delta (some b) =
    if not (b.block_type == "tool-call")
    then protocol "tool-call-delta on non tool-call block"
    else ok (record a {
      opened =
          set index
            (record b {
              call_id = or_keep call_id b.call_id;
              name = or_keep name b.name;
              arguments = b.arguments <> delta;
            })
            a.opened;
    })

-- _feed_tool_delta
unfoldable pub feed_tool_delta : Assembler → ℕ → String → String → String → Fed Assembler
unfolding tool_delta_on find set
feed_tool_delta a index call_id name delta =
    tool_delta_on a index call_id name delta (find index a.opened)

end_on : Assembler → ℕ → String → Option OpenBlock → Fed Assembler
end_on a index type none = protocol "delta/end for unopened or closed block index"
end_on a index type (some b) =
    if not (type == "") && not (wire_type b.block_type == type)
    then protocol "block-end type != open block"
    else ok (record a {
      opened = drop index a.opened;
      pending = drop index a.pending;
      closed = set index (finalize_block b) a.closed;
    })

-- _feed_end
unfoldable pub feed_end : Assembler → ℕ → Fields → Fed Assembler
unfolding end_on find set drop finalize_block get
feed_end a index block = end_on a index (text_at (get "type" block)) (find index a.opened)

feed_open : Assembler → Chunk → Fed Assembler
feed_open a (block_start index block_type) = feed_start a index block_type
feed_open a (text_delta index text) = feed_delta a index "text" text
feed_open a (reasoning_delta index text) = feed_delta a index "reasoning" text
feed_open a (tool_call_delta index call_id name delta) = feed_tool_delta a index call_id name delta
feed_open a (block_end index block) = feed_end a index block
feed_open a (usage_chunk usage) = ok (record a { usage = usage })
feed_open a (finish_chunk reason) = ok (record a { finish = some reason; finished = true })
feed_open a (unknown name) = protocol "unknown chunk type"

-- BlockAssembler.feed
unfoldable pub feed : Assembler → Chunk → Fed Assembler
unfolding feed_open feed_start feed_delta feed_tool_delta feed_end
feed a chunk = if a.finished then protocol "chunk after finish" else feed_open a chunk

-- BlockAssembler.validate
unfoldable pub validate : Assembler → Fed (Unit {0})
validate a =
    if not (is_empty a.pending)
    then protocol "unclosed block(s)"
    else if not a.finished
    then err (record { message = "stream ended without finish chunk"; code = "STREAM_CLOSED" })
    else ok tt

abbrev pub is_max_tokens : Option FinishReason → Bool
is_max_tokens none = false
is_max_tokens (some reason) = reason.kind == "max-tokens"

-- BlockAssembler.blocks
unfoldable pub blocks : Assembler → List Block
unfolding sorted keep
blocks a =
    let result = map (λ (e : ℕ × Block). e.1) (sorted a.closed) in
    if is_max_tokens a.finish then keep (λ b. not (is_tool_block b)) result else result

-- `feed` of every chunk of a stream, as the executor does.
unfoldable pub feed_all : Assembler → List Chunk → Fed Assembler
unfolding feed
feed_all a [] = ok a
feed_all a (chunk ∷ chunks) = elim (feed a chunk) [ err e ↦ err e | ok a' ↦ feed_all a' chunks ]
