-- ===== src/Context/Blocks.antt =====
-- The context as one flat list of blocks: the searches of MessageContext
-- (src/ftre_agent_core/message_context.py) are searches in it.
use ftre_agent_core.Prelude.{String, ◌≡◌, refl, Option, none, some, List, [], ◌∷◌, ◌++◌, arith}
use ftre_agent_core.Message.{ToolCallState, ContentBlock, tool_call}
use ftre_agent_core.Context.{
  Context, set_in_blocks, set_tool_call_state, calls_in, tool_calls_in_state, find_in_blocks,
  find_call,
}

unfoldable pub blocks_of : Context → List ContentBlock
blocks_of [] = []
blocks_of (m ∷ rest) = m.content ++ blocks_of rest

abbrev pub or_else {ℓ} : {A : Type ℓ} → Option A → Option A → Option A
or_else none o = o
or_else (some a) o = some a

pub find_in_blocks-append :
    (id : String) (xs ys : List ContentBlock)
    → find_in_blocks id (xs ++ ys) ≡ or_else (find_in_blocks id xs) (find_in_blocks id ys)
unfolding find_in_blocks
find_in_blocks-append id [] ys = refl
find_in_blocks-append id (tool_call b ∷ xs) ys = ground (arith, find_in_blocks-append id xs ys)
find_in_blocks-append id (_ ∷ xs) ys = find_in_blocks-append id xs ys

pub find_call-blocks :
    (context : Context) (id : String) → find_call context id ≡ find_in_blocks id (blocks_of context)
unfolding find_call blocks_of
find_call-blocks [] id = unfold find_in_blocks in refl
find_call-blocks (m ∷ rest) id =
    ground (arith, find_in_blocks-append id m.content (blocks_of rest), find_call-blocks rest id)

pub calls_in-append :
    (state : ToolCallState) (xs ys : List ContentBlock)
    → calls_in state (xs ++ ys) ≡ calls_in state xs ++ calls_in state ys
unfolding calls_in
calls_in-append state [] ys = refl
calls_in-append state (tool_call b ∷ xs) ys = ground (arith, calls_in-append state xs ys)
calls_in-append state (_ ∷ xs) ys = calls_in-append state xs ys

pub tool_calls_in_state-blocks :
    (context : Context) (state : ToolCallState)
    → tool_calls_in_state context state ≡ calls_in state (blocks_of context)
unfolding tool_calls_in_state blocks_of
tool_calls_in_state-blocks [] state = unfold calls_in in refl
tool_calls_in_state-blocks (m ∷ rest) state =
    cc (calls_in-append state m.content (blocks_of rest), tool_calls_in_state-blocks rest state)

-- `set_in_blocks`, or no change.
abbrev pub or_same : List ContentBlock → Option (List ContentBlock) → List ContentBlock
or_same xs none = xs
or_same xs (some ys) = ys

unfoldable pub set_flat : String → ToolCallState → List ContentBlock → List ContentBlock
set_flat id state xs = or_same xs (set_in_blocks id state xs)

set_in_blocks-append :
    (id : String) (state : ToolCallState) (xs ys : List ContentBlock)
    → set_in_blocks id state (xs ++ ys) ≡ elim (set_in_blocks id state xs) [
      | some xs' ↦ some (xs' ++ ys)
      | none ↦ elim (set_in_blocks id state ys) [ none ↦ none | some ys' ↦ some (xs ++ ys') ]
    ]
unfolding set_in_blocks
set_in_blocks-append id state [] ys = ground arith
set_in_blocks-append id state (tool_call b ∷ xs) ys =
    ground (arith, set_in_blocks-append id state xs ys)
set_in_blocks-append id state (_ ∷ xs) ys = ground (arith, set_in_blocks-append id state xs ys)

pub blocks_of-set :
    (context : Context) (id : String) (state : ToolCallState)
    → blocks_of (set_tool_call_state context id state).0 ≡ set_flat id state (blocks_of context)
unfolding set_tool_call_state blocks_of set_flat
blocks_of-set [] id state = refl
blocks_of-set (m ∷ rest) id state =
    ground
      (arith, set_in_blocks-append id state m.content (blocks_of rest), blocks_of-set rest id state)
