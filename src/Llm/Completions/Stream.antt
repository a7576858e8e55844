-- ===== src/Llm/Completions/Stream.antt =====
-- The whole of `stream` in llm/adapters/openai_completions.py (src/ftre_agent_core). What stands after
-- its `finally` is never reached: each way out has yielded a finish chunk before.
use ftre_agent_core.Prelude.{
  ℕ, String, Option, none, some, Bool, not, ◌||◌, List, [], ◌∷◌, ◌++◌, ◌==◌, ◌<>◌, is_some,
  is_empty, if◌then◌else◌,
}
use ftre_agent_core.Json.{str, Fields, end, field}
use ftre_agent_core.Runner.{LlmError}
use ftre_agent_core.Llm.{Usage, FinishReason, Chunk, block_end, usage_chunk, finish_chunk}
use ftre_agent_core.Llm.Assembler.{find, sorted}
use ftre_agent_core.Llm.Completions.Turn.{
  Wire, Entry, Turn, new_turn, Step, on_item, item, cancelled, failed,
}

-- The variables after the loop, what it has yielded, and the exception that ended it, if one did.
unfoldable pub loop : List Wire → Turn → Step × Option LlmError
unfolding on_item
loop [] t = ((t, []), none)
loop (cancelled ∷ rest) t = ((t, []), none)
loop (failed e ∷ rest) t = ((t, []), some e)
loop (item i ∷ rest) t =
    let s = on_item i t in let r = loop rest s.0 in ((r.0.0, s.1 ++ r.0.1), r.1)

abbrev pub block_dict : String → Fields → Fields
block_dict type rest = field "type" (str type) rest

unfoldable pub end_reasoning : Turn → List Chunk
end_reasoning t = elim t.reasoning_index [
  | none ↦ []
  | some i ↦ block_end i (block_dict "thinking" (field "thinking" (str t.reasoning_text) end)) ∷ []
]

unfoldable pub end_text : Turn → List Chunk
end_text t = elim t.text_index [
  | none ↦ []
  | some i ↦ block_end i (block_dict "text" (field "text" (str t.text) end)) ∷ []
]

abbrev pub tool_dict : Entry → Fields
tool_dict e =
    block_dict "tool-call"
      (field "id" (str e.id) (field "name" (str e.name) (field "arguments" (str e.arguments) end)))

abbrev pub is_nameless : Entry → Bool
is_nameless e = e.id == "" || e.name == ""

-- The loop over accumulator.entries(), with the wire index that `tool_block_index` lacks, if one does.
unfoldable pub end_tools : List (ℕ × ℕ) → List (ℕ × Entry) → List Chunk × Option ℕ
unfolding find
end_tools index [] = ([], none)
end_tools index ((w, e) ∷ rest) =
    let r = end_tools index rest in
    if is_nameless e then r else elim (find w index) [
      | none ↦ ([], some w)
      | some i ↦ (block_end i (tool_dict e) ∷ r.0, r.1)
    ]

-- _FINISH_KIND_MAP
abbrev pub finish_kind : String → Option String
finish_kind s =
    if s == "stop"
    then some "stop"
    else if s == "tool_calls"
    then some "tool-calls"
    else if s == "length"
    then some "max-tokens"
    else none

abbrev pub has_output : Turn → Bool
has_output t = is_some t.reasoning_index || is_some t.text_index || not (is_empty t.items)

abbrev pub finish_with : String → Option LlmError → Fields → FinishReason
finish_with kind failure metadata = record {
  kind = kind;
  failure = failure;
  response_metadata = metadata;
}

abbrev pub error_finish : LlmError → Chunk
error_finish e = finish_chunk (finish_with "error" (some e) end)

abbrev pub usage_chunks : Option Usage → List Chunk
usage_chunks none = []
usage_chunks (some u) = usage_chunk (some u) ∷ []

-- `str.upper`, and LLMError.classify of the KeyError of a missing wire index.
pub record Library : Type 0 where
  pub upper : String → String
  pub key_error : ℕ → LlmError

module _ (lib : Library) where
  abbrev pub stopped : Turn → LlmError
  stopped t = record {
    message = "model stopped: " <> t.finish_reason;
    code = lib.upper t.finish_reason;
  }

  -- The reason of the finish chunk; an unknown reason is a "stop" when there is output.
  unfoldable pub finish_of : Turn → FinishReason
  finish_of t = elim (finish_kind t.finish_reason) [
    | some kind ↦ finish_with kind none t.response_metadata
    | none ↦
        if has_output t
        then finish_with "stop" none t.response_metadata
        else finish_with "error" (some (stopped t)) t.response_metadata
  ]

  abbrev pub after_blocks : Turn → Option ℕ → List Chunk
  after_blocks t (some w) = error_finish (lib.key_error w) ∷ []
  after_blocks t none = usage_chunks t.usage ++ (finish_chunk (finish_of t) ∷ [])

  -- The end of the stream: the blocks are closed, then come the usage and the finish chunk.
  unfoldable pub close : Turn → List Chunk
  unfolding end_reasoning end_text end_tools sorted finish_of
  close t =
      let r = end_tools t.tool_block_index (sorted t.items) in
      end_reasoning t ++ (end_text t ++ (r.0 ++ after_blocks t r.1))

  abbrev pub ending : Turn → Option LlmError → List Chunk
  ending t none = close t
  ending t (some e) = error_finish e ∷ []

  -- OpenAICompletionsAdapter.stream
  unfoldable pub stream : List Wire → List Chunk
  unfolding loop close
  stream wires = let r = loop wires new_turn in r.0.1 ++ ending r.0.0 r.1
