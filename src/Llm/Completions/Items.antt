-- ===== src/Llm/Completions/Items.antt =====
-- The entries of _ToolCallAccumulator (src/ftre_agent_core/llm/adapters/openai_completions.py): one for
-- each wire index.
use ftre_agent_core.Prelude.{
  ℕ, String, ◌≡◌, refl, sym, subst, ◌∙◌, Option, none, some, List, [], ◌∷◌, ◌==◌, inl, inr,
  Bool-cases,
}
use ftre_agent_core.Llm.Assembler.{find}
use ftre_agent_core.Llm.Assembler.Order.{NoRepeat, NoRepeat-set}
use ftre_agent_core.Llm.Completions.Turn.{
  ToolDelta, Choice, Wire, item, cancelled, failed, Entry, Fragment, Turn, accumulate, can_send,
  fill, entry_of, index_in, reasoning_at, on_reasoning, text_at, on_content, fragment_at,
  on_fragment, on_tool, on_tools, on_choice, note, on_item,
}
use ftre_agent_core.Llm.Completions.Stream.{loop}

module _ (t : Turn) where
  reasoning-items : (s : String) → (on_reasoning s t).0.items ≡ t.items
  unfolding on_reasoning reasoning_at
  reasoning-items s = elim (Bool-cases (s == "")) [
    | inl e ↦ rw (on_reasoning, e) refl
    | inr e ↦ rw (on_reasoning, e) (by_index t.reasoning_index)
  ]
    where
      by_index : (o : Option ℕ) → (reasoning_at t s o).0.items ≡ t.items
      by_index none = refl
      by_index (some i) = refl

  content-items : (s : String) → (on_content s t).0.items ≡ t.items
  unfolding on_content text_at
  content-items s = elim (Bool-cases (s == "")) [
    | inl e ↦ rw (on_content, e) refl
    | inr e ↦ rw (on_content, e) (by_index t.text_index)
  ]
    where
      by_index : (o : Option ℕ) → (text_at t s o).0.items ≡ t.items
      by_index none = refl
      by_index (some i) = refl

  fragment-items : (o : Option Fragment) → (on_fragment o t).0.items ≡ t.items
  unfolding on_fragment fragment_at
  fragment-items none = refl
  fragment-items (some p) = by_index (find p.wire_index t.tool_block_index)
    where
      by_index : (o : Option ℕ) → (fragment_at t p o).0.items ≡ t.items
      by_index none = refl
      by_index (some i) = refl

accumulate-NoRepeat :
    (items : List (ℕ × Entry)) (d : ToolDelta) → NoRepeat items → NoRepeat (accumulate items d).0
unfolding accumulate
accumulate-NoRepeat items d h =
    elim (Bool-cases (can_send (fill d (entry_of (find (index_in items d.index) items))))) [
      | inl e ↦ rw (accumulate, e) (NoRepeat-set _ _ items h)
      | inr e ↦ rw (accumulate, e) (NoRepeat-set _ _ items h)
    ]

tool-NoRepeat : (t : Turn) (d : ToolDelta) → NoRepeat t.items → NoRepeat (on_tool d t).0.items
unfolding on_tool
tool-NoRepeat t d h =
    let r = accumulate t.items d in
    subst NoRepeat (sym (fragment-items (record t { items = r.0 }) r.1))
      (accumulate-NoRepeat t.items d h)

tools-NoRepeat :
    (t : Turn) (ds : List ToolDelta) → NoRepeat t.items → NoRepeat (on_tools ds t).0.items
unfolding on_tools
tools-NoRepeat t [] h = h
tools-NoRepeat t (d ∷ ds) h = tools-NoRepeat (on_tool d t).0 ds (tool-NoRepeat t d h)

choice-NoRepeat :
    (t : Turn) (o : Option Choice) → NoRepeat t.items → NoRepeat (on_choice o t).0.items
unfolding on_choice
choice-NoRepeat t none h = h
choice-NoRepeat t (some c) h =
    tools-NoRepeat (on_content c.content (on_reasoning c.reasoning_content t).0).0 c.tool_calls
      (subst NoRepeat (sym (content-items _ c.content ∙ reasoning-items t c.reasoning_content)) h)

pub loop-NoRepeat :
    (t : Turn) (wires : List Wire) → NoRepeat t.items → NoRepeat (loop wires t).0.0.items
unfolding loop
loop-NoRepeat t [] h = h
loop-NoRepeat t (cancelled ∷ rest) h = h
loop-NoRepeat t (failed e ∷ rest) h = h
loop-NoRepeat t (item i ∷ rest) h =
    loop-NoRepeat (on_item i t).0 rest (choice-NoRepeat (note i t) i.choice h)
