-- ===== src/Llm.antt =====
-- The model side (src/ftre_agent_core/llm): the chunks of a stream, as block_assembler.py and
-- _execute_reasoning.py read them (the classes are of the package ftre_llm), and LLMError.
pub mod Assembler
pub mod Completions
pub mod Errors
use ftre_agent_core.Prelude.{ℕ, String, Option}
use ftre_agent_core.Json.{Fields}
use ftre_agent_core.Runner.{LlmError}

-- The three token counts of a usage dict, each if it is there.
pub record Usage : Type 0 where
  pub prompt_tokens : Option ℕ
  pub completion_tokens : Option ℕ
  pub total_tokens : Option ℕ

pub record FinishReason : Type 0 where
  pub kind : String
  pub failure : Option LlmError
  pub response_metadata : Fields

-- StreamChunk; `unknown` is an object of another class.
pub data Chunk : Type 0 where
  block_start : ℕ → String → Chunk
  text_delta : ℕ → String → Chunk
  reasoning_delta : ℕ → String → Chunk
  tool_call_delta : ℕ → String → String → String → Chunk
  block_end : ℕ → Fields → Chunk
  usage_chunk : Option Usage → Chunk
  finish_chunk : FinishReason → Chunk
  unknown : String → Chunk
