-- ===== src/Llm/Completions/Whole.antt =====
-- The whole stream of llm/adapters/openai_completions.py (src/ftre_agent_core), fed to BlockAssembler.
use ftre_agent_core.Prelude.{
  ℕ, ◌≡◌, refl, ◌∙◌, Option, none, some, is_some, true, List, [], ◌∷◌, ◌++◌, eqb, inl, inr,
  Bool-cases, arith,
}
use ftre_agent_core.Runner.{LlmError}
use ftre_agent_core.Llm.{Usage, FinishReason, Chunk, finish_chunk}
use ftre_agent_core.Llm.Assembler.{ok, find, sorted, Assembler, init, feed, feed_all}
use ftre_agent_core.Llm.Assembler.Order.{NoRepeat, sorted-IsAscending}
use ftre_agent_core.Llm.Completions.Turn.{Turn, new_turn, Wire}
use ftre_agent_core.Llm.Completions.Stream.{
  loop, end_reasoning, end_text, end_tools, usage_chunks, Library, after_blocks, close, ending,
  stream,
}
use ftre_agent_core.Llm.Completions.Types.{
  Types, opened_at, View, Accepts, Accepts-nil, Accepts-cons, usage-Accepts, feed_all-append,
}
use ftre_agent_core.Llm.Completions.Accepted.{Fits, IsOwned, of_reasoning, of_text, of_tool}
use ftre_agent_core.Llm.Completions.Items.{loop-NoRepeat}
use ftre_agent_core.Llm.Completions.Closing.{
  loop-Sends, without, without-other, end_reasoning-Accepts, end_text-Accepts, IsLeft, Closes,
  end_tools-Closes,
}

-- Chunks that end a stream: they are accepted, and the blocks still open after them have the types.
abbrev pub Ends : ℕ → Types → List Chunk → Types → Type 0
Ends n f chunks left =
    (a : Assembler)
    → View n f a
    → (a' : Assembler) × (feed_all a chunks ≡ ok a')
      × (a'.finished ≡ true)
      × ((i : ℕ) → opened_at a' i ≡ left i)

pub Ends-after :
    {n n' : ℕ} {f f' left : Types} (cs ds : List Chunk)
    → Accepts n f cs n' f'
    → Ends n' f' ds left
    → Ends n f (cs ++ ds) left
Ends-after cs ds p q a v =
    let (b, e, w) = p a v in
    let (d, g, done, l) = q b w in (d, feed_all-append a b cs ds e ∙ g, done, l)

module _ (n : ℕ) (f : Types) where
  finish-Ends : (reason : FinishReason) → Ends n f (finish_chunk reason ∷ []) f
  unfolding feed_all feed
  finish-Ends reason a v = (
    record a { finish = some reason; finished = true },
    rw (feed_all, feed, v.going) refl,
    refl,
    v.types,
  )

  usage_chunks-Accepts : (u : Option Usage) → Accepts n f (usage_chunks u) n f
  usage_chunks-Accepts none = Accepts-nil n f
  usage_chunks-Accepts (some u) = Accepts-cons _ _ (usage-Accepts (some u)) (Accepts-nil n f)

  after_blocks-Ends : (lib : Library) (t : Turn) (o : Option ℕ) → Ends n f (after_blocks lib t o) f
  after_blocks-Ends lib t (some w) = finish-Ends _
  after_blocks-Ends lib t none =
      Ends-after (usage_chunks t.usage) _ (usage_chunks-Accepts t.usage) (finish-Ends _)

-- What the end of a stream leaves open: nothing, if no wire index was missing, but blocks of tool
-- calls without an id or a name.
pub record IsClosed (n : ℕ) (f : Types) (t : Turn) (chunks : List Chunk) : Type 0 where
  pub left : Types
  pub ends : Ends n f chunks left
  pub of_nameless :
      (end_tools t.tool_block_index (sorted t.items)).1 ≡ none
      → (i : ℕ) → is_some (left i) ≡ true
      → (w : ℕ) × (find w t.tool_block_index ≡ some i)
        × IsLeft t.tool_block_index (sorted t.items) i

without-some :
    (o : Option ℕ) (f : Types) (i : ℕ)
    → is_some (without o f i) ≡ true
    → (is_some (f i) ≡ true) × (o ≡ some i → ⊥)
without-some none f i k = (k, λ p. ground (arith, p))
without-some (some j) f i k = elim (Bool-cases (eqb j i)) [
  | inl e ↦ absurd (ground (arith, k, e))
  | inr e ↦ (ground (arith, k, e), λ p. ground (arith, p, e))
]

module _ (lib : Library) (f : Types) (t : Turn) (h : Fits f t) (once : NoRepeat t.items) where
  abbrev no_reasoning : Types
  no_reasoning = without t.reasoning_index f

  abbrev no_blocks : Types
  no_blocks = without t.text_index no_reasoning

  text_kept : (i : ℕ) → t.text_index ≡ some i → no_reasoning i ≡ some "text"
  text_kept i k =
      without-other t.reasoning_index f "reasoning" "text" i h.reasoning refl (h.text i k)

  tool_kept : (w i : ℕ) → find w t.tool_block_index ≡ some i → no_blocks i ≡ some "tool-call"
  tool_kept w i k =
      without-other t.text_index no_reasoning "text" "tool-call" i text_kept refl (
        without-other t.reasoning_index f "reasoning" "tool-call" i h.reasoning refl
          (h.tools w i k))

  tools : Closes t.next_index no_blocks t.tool_block_index (sorted t.items)
  tools =
      end_tools-Closes t.tool_block_index h.apart t.next_index no_blocks 0 (sorted t.items)
        (sorted-IsAscending t.items once) (λ w i le k. tool_kept w i k)

  open_tool :
      (i : ℕ) → is_some (no_blocks i) ≡ true → (w : ℕ) × (find w t.tool_block_index ≡ some i)
  open_tool i k =
      let (k1, not_text) = without-some t.text_index no_reasoning i k in
      let (k2, not_reasoning) = without-some t.reasoning_index f i k1 in
      of_owner i (h.owned i k2) not_reasoning not_text
    where
      of_owner :
          (i : ℕ)
          → IsOwned t.reasoning_index t.text_index t.tool_block_index i
          → (t.reasoning_index ≡ some i → ⊥)
          → (t.text_index ≡ some i → ⊥)
          → (w : ℕ) × (find w t.tool_block_index ≡ some i)
      of_owner i (of_reasoning p) nr nt = absurd (nr p)
      of_owner i (of_text p) nr nt = absurd (nt p)
      of_owner i (of_tool w p) nr nt = (w, p)

  close-IsClosed : IsClosed t.next_index f t (close lib t)
  unfolding close
  close-IsClosed = record {
    left = tools.types;
    ends = Ends-after (end_reasoning t) _ (end_reasoning-Accepts f t h t.next_index) (
        Ends-after (end_text t) _ (end_text-Accepts t.next_index no_reasoning t text_kept) (
          Ends-after _ _ tools.accepts (
            after_blocks-Ends t.next_index tools.types lib t
              (end_tools t.tool_block_index (sorted t.items)).1)));
    of_nameless = λ m i k. let (a, l) = tools.left m i k in let (w, e) = open_tool i a in (w, e, l);
  }

-- The empty assembler, and the loop's variables before the first item.
pub none_open : Types
none_open i = none

module _ (lib : Library) (wires : List Wire) where
  -- The variables of `stream` after the loop over a stream that did not fail.
  abbrev pub end_turn : Turn
  end_turn = (loop wires new_turn).0.0

  new_turn-Fits : Fits none_open new_turn
  unfolding find none_open
  new_turn-Fits = record {
    below = λ i k. absurd (ground (arith, k));
    reasoning = λ i k. absurd (ground (arith, k));
    text = λ i k. absurd (ground (arith, k));
    tools = λ w i k. absurd (ground (arith, k));
    owned = λ i k. absurd (ground (arith, k));
    apart = λ w w' i k. absurd (ground (arith, k));
  }

  pub init-View : View 0 none_open init
  unfolding find none_open
  init-View = record { next = refl; going = refl; types = λ i. refl }

  pub looped :
      (f : Types) × Accepts 0 none_open (loop wires new_turn).0.1 end_turn.next_index f
      × Fits f end_turn
  looped = loop-Sends none_open new_turn new_turn-Fits wires

  pub closed : IsClosed end_turn.next_index looped.0 end_turn (close lib end_turn)
  closed = close-IsClosed lib looped.0 end_turn looped.2 (loop-NoRepeat new_turn wires tt)

  ending-Ends :
      (o : Option LlmError)
      → (left : Types) × Ends end_turn.next_index looped.0 (ending lib end_turn o) left
  ending-Ends none = (closed.left, closed.ends)
  ending-Ends (some e) = (looped.0, finish-Ends end_turn.next_index looped.0 _)

  -- Whatever a provider sends, in whatever order and however it ends (failures, a cancel, calls
  -- without an id or a name included), BlockAssembler accepts every chunk of the adapter, and the
  -- stream ends with a finish chunk.
  pub stream-accepted :
      (a : Assembler) × (feed_all init (stream lib wires) ≡ ok a) × (a.finished ≡ true)
  unfolding stream
  stream-accepted =
      let (left, ends) = ending-Ends (loop wires new_turn).1 in
      let (a, e, done, l) = Ends-after (loop wires new_turn).0.1 _ looped.1 ends init init-View in
      (a, e, done)
