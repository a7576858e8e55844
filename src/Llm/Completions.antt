-- ===== src/Llm/Completions.antt =====
-- The adapter of the chat-completions protocol, llm/adapters/openai_completions.py
-- (src/ftre_agent_core): the chunks that it makes of a provider's stream. The client of the openai
-- package and the request are not modelled; a stream is the list of what iterating over the response
-- gives, a failure of the request being a failure before the first item.
pub mod Turn
pub mod Stream
pub mod Types
pub mod Accepted
pub mod Items
pub mod Closing
pub mod Whole
pub mod Validated
pub mod Fragments
mod Tests
