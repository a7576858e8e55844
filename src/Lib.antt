-- ===== src/Lib.antt =====
-- ftre-agent-core: a model of the agent's run and of the components that it rests on, all of them in
-- src/ftre_agent_core of the repository.
--
-- A run is a loop of model turns and tool calls. `decide` looks at the state of the run and at the
-- last turn and gives the next action. A Reasoning calls the model and assembles its stream of
-- chunks, with retries; an Acting asks the permission engine about every call of the turn and then
-- runs the tools or pauses; an Exit asks the host whether to go on and ends the reply if not. All of
-- them write to one conversation, the context, and yield events.
--
-- The files, and the code that each is about:
--   Json: dicts and JSON values; no code of the repository
--   Permission: permission/_types.py, _context.py and _engine.py; `evaluate` is
--     PermissionEngine.evaluate
--   Message: message/_block.py and the data of message/_msg.py; Message/Blocks and Message/Rebuild
--     have Msg.append_event, whose chain of tests on the event's type is `apply`
--   Convert: from_openai_part and from_openai_message of message/_convert.py; Convert/Export has
--     to_openai_part and to_openai_message
--   Context: message_context.py; a context is the list of messages, and the methods of
--     MessageContext are functions to a new list; Context/Raw has add_raw and set_messages,
--     Context/Export _msg_to_dicts
--   Event: event/_event.py and ReActRunner._annotate_event
--   Runner: agent/runner/_state.py; a RunState is the record of its fields
--   Runner/Decide: `decide` of agent/runner/react_runner.py, with the state that it may change
--   Runner/Acting, Runner/ExitExecutor: agent/runner/_execute_acting.py; `act`, `resume_execute` and
--     `exit_stream` are the methods stream, resume_execute and stream of the two classes
--   Runner/ReasoningExecutor: agent/runner/_execute_reasoning.py; `reason` is the method stream
--   Runner/Loop: ReActRunner._loop, _dispatch_before_reasoning and _finalize
--   Runner/Run: ReActRunner.run, _prepare_new_reply and _accept_confirmation; the lock _run_task is
--     the field `busy` of World
--   Handler: agent/runner/tool_handler.py; `run_one`, `spawn_all` and `gather_results`
--   Cancellation: tool/cancellation.py; a Token with the calls of its callbacks so far
--   Llm, Llm/Assembler: the chunks of a stream, and llm/block_assembler.py
--   Llm/Completions: llm/adapters/openai_completions.py; Turn has _ToolCallAccumulator.feed and one
--     turn of the loop over the provider's chunks, Stream the whole of `stream`
--   Llm/Errors: LLMError.classify of llm/errors.py; an exception is the record of what it is asked
--   Registry: ToolRegistry of tool/registry.py, over any type of tools; Registry/Schema has
--     Tool.to_openai_dict of tool/base.py
--   Hooks: hooks.py; HookSpec, its checks, and those of a hook's payload and result
--   Normalize: llm/wire/normalize.py
--   World, Env: what the executors share. A coroutine is an action on a World (the context, the
--     permissions, the state of the run, the events so far, the calls handed to tools), which
--     returns or raises. What it asks of hosts, models, tools, the clock and uuid4 is answered by an
--     Env, at a moment that grows with every question. The theorems hold for every Env.
--   Prelude: shared names, Boolean tests and lists
-- The other files hold lemmas and theorems about the file of their parent, and Tests files concrete
-- runs.
--
-- Concurrency: the tools of a batch run together in the code. The model spawns them in order and
-- takes the answer of each at its own moment; a batch waits for all of its tools, as the code does.
-- Fuel: only the `while True` of the loop is on fuel. Its bound is `rounds` of
-- Runner/Loop/Termination: two rounds for each turn and for each continuation that is still
-- allowed. The attempts of a model call are a recursion on the number of attempts left.
--
-- Not modelled: spans, logs and time; the responses adapter, and the requests that are sent, so that
-- for a run messages and tools show only in the answer of the model; the creation times of messages and
-- blocks; pydantic's validation beyond the role rules of Msg; the inference of a tool's parameters,
-- which reads Python signatures. For a run, the execution of a tool and the results of the hook
-- dispatcher are answers of the Env.
mod Prelude
pub mod Json
pub mod Permission
pub mod Message
pub mod Convert
pub mod Context
pub mod Event
pub mod Runner
pub mod Handler
pub mod Hooks
pub mod Llm
pub mod World
pub mod Env
pub mod Cancellation
pub mod Normalize
pub mod Registry
