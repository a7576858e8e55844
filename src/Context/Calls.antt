-- ===== src/Context/Calls.antt =====
-- The state of a tool call before and after MessageContext.set_tool_call_state
-- (src/ftre_agent_core/message_context.py).
use ftre_agent_core.Prelude.{
  String, ◌≡◌, Option, none, some, List, [], ◌∷◌, ◌==◌, eq_iff, arith, if◌then◌else◌,
}
use ftre_agent_core.Message.{ToolCallState, ToolCallBlock, ContentBlock, tool_call}
use ftre_agent_core.Context.{Context, set_in_blocks, set_tool_call_state, find_in_blocks, find_call}
use ftre_agent_core.Context.Blocks.{blocks_of, find_call-blocks, set_flat, blocks_of-set}

abbrev pub with_state : ToolCallState → Option ToolCallBlock → Option ToolCallBlock
with_state state none = none
with_state state (some b) = some (record b { state = state })

find-set_flat :
    (id j : String) (state : ToolCallState) (xs : List ContentBlock)
    → find_in_blocks j (set_flat id state xs)
      ≡ (if id == j then with_state state (find_in_blocks j xs) else find_in_blocks j xs)
unfolding find_in_blocks set_flat set_in_blocks
find-set_flat id j state [] = ground arith
find-set_flat id j state (tool_call b ∷ xs) =
    ground (arith, eq_iff id j, eq_iff b.id id, eq_iff b.id j, find-set_flat id j state xs)
find-set_flat id j state (_ ∷ xs) = ground (arith, eq_iff id j, find-set_flat id j state xs)

-- `set_tool_call_state` gives the first call with that id the new state, and leaves the name, the
-- arguments and the rest of it, and every other call, as they were.
pub find_call-set_tool_call_state :
    (context : Context) (id j : String) (state : ToolCallState)
    → find_call (set_tool_call_state context id state).0 j
      ≡ (if id == j then with_state state (find_call context j) else find_call context j)
find_call-set_tool_call_state context id j state =
    rw (find_call-blocks, find_call-blocks, blocks_of-set)
      (find-set_flat id j state (blocks_of context))
