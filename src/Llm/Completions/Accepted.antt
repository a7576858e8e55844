-- ===== src/Llm/Completions/Accepted.antt =====
-- The chunks that the loop of llm/adapters/openai_completions.py (src/ftre_agent_core) yields are ones
-- that BlockAssembler accepts.
use ftre_agent_core.Prelude.{
  ℕ, ◌+◌, ◌<◌, String, ◌≡◌, ◌⊎◌, refl, sym, ap, ◌∙◌, Option, none, some, is_some, true, List, [],
  ◌∷◌, ◌==◌, ◌<>◌, eqb, inl, inr, Bool-cases, arith,
}
use ftre_agent_core.Llm.Assembler.{find, set}
use ftre_agent_core.Llm.Completions.Turn.{
  ToolDelta, Choice, Item, Fragment, Turn, Step, then_step, accumulate, reasoning_at, on_reasoning,
  text_at, on_content, fragment_at, on_fragment, on_tool, on_tools, with_finish, on_calls,
  on_visible, on_choice, note, on_item,
}
use ftre_agent_core.Llm.Completions.Types.{
  Types, with_type, Accepts, Accepts-nil, Accepts-cons, Accepts-append, start-Accepts, text-Accepts,
  reasoning-Accepts, tool-Accepts, find-set,
}

-- An open index belongs to a block that the loop has started.
pub data IsOwned (reasoning_index text_index : Option ℕ) (tools : List (ℕ × ℕ)) (i : ℕ)
    : Type 0 where
  of_reasoning : reasoning_index ≡ some i → IsOwned reasoning_index text_index tools i
  of_text : text_index ≡ some i → IsOwned reasoning_index text_index tools i
  of_tool : (w : ℕ) → find w tools ≡ some i → IsOwned reasoning_index text_index tools i

abbrev Owned : Turn → ℕ → Type 0
Owned t i = IsOwned t.reasoning_index t.text_index t.tool_block_index i

-- The indices handed out, below the next one, are those of the open blocks, each of its type.
pub record IsFitting (f : Types) (reasoning_index text_index : Option ℕ) (next : ℕ)
    (tool_block_index : List (ℕ × ℕ)) : Type 0 where
  pub below : (i : ℕ) → is_some (f i) ≡ true → i < next
  pub reasoning : (i : ℕ) → reasoning_index ≡ some i → f i ≡ some "reasoning"
  pub text : (i : ℕ) → text_index ≡ some i → f i ≡ some "text"
  pub tools : (w i : ℕ) → find w tool_block_index ≡ some i → f i ≡ some "tool-call"
  pub owned : (i : ℕ) → is_some (f i) ≡ true → IsOwned reasoning_index text_index tool_block_index i
  pub apart :
      (w w' i : ℕ) → find w tool_block_index ≡ some i → find w' tool_block_index ≡ some i → w ≡ w'

abbrev pub Fits : Types → Turn → Type 0
Fits f t = IsFitting f t.reasoning_index t.text_index t.next_index t.tool_block_index

-- The chunks of a step are accepted, and the indices fit after it.
abbrev pub Sends : Types → Turn → Step → Type 0
Sends f t s = (f' : Types) × Accepts t.next_index f s.1 s.0.next_index f' × Fits f' s.0

pub Sends-nothing : (f : Types) (t : Turn) → Fits f t → Sends f t (t, [])
Sends-nothing f t h = (f, Accepts-nil t.next_index f, h)

pub Sends-then :
    (f : Types) (t : Turn) (s : Step) (g : Turn → Step)
    → Sends f t s
    → ((f' : Types) → Fits f' s.0 → Sends f' s.0 (g s.0))
    → Sends f t (then_step s g)
Sends-then f t s g p q =
    let (f', a, h) = p in let (f'', b, k) = q f' h in (f'', Accepts-append s.1 (g s.0).1 a b, k)

module _ (f : Types) (t : Turn) (h : Fits f t) where
  -- A block started at the next index.
  abbrev started : String → Types
  started type = with_type t.next_index (some type) f

  started-new : (type : String) (i : ℕ) → t.next_index ≡ i → started type i ≡ some type
  started-new type i e = ground (arith, e)

  started-old : (type : String) (i : ℕ) → is_some (f i) ≡ true → started type i ≡ f i
  started-old type i e = ground (arith, h.below i e)

  keeps : (type kind : String) (i : ℕ) → f i ≡ some kind → started type i ≡ some kind
  keeps type kind i e = started-old type i (ground (arith, e)) ∙ e

  started-below : (type : String) (i : ℕ) → is_some (started type i) ≡ true → i < t.next_index + 1
  started-below type i k = elim (Bool-cases (eqb t.next_index i)) [
    | inl e ↦ ground (arith, e)
    | inr e ↦ ground (arith, h.below i (ground (arith, e, k)))
  ]

  started-Owned :
      (type : String) (i : ℕ) → is_some (started type i) ≡ true → (t.next_index ≡ i) ⊎ Owned t i
  started-Owned type i k = elim (Bool-cases (eqb t.next_index i)) [
    | inl e ↦ inl (ground (arith, e))
    | inr e ↦ inr (h.owned i (ground (arith, e, k)))
  ]

  reasoning_started :
      (s : String)
      → t.reasoning_index ≡ none
      → Fits (started "reasoning") (record t {
        reasoning_index = some t.next_index;
        next_index = t.next_index + 1;
        reasoning_text = s;
      })
  reasoning_started s e = record {
    below = started-below "reasoning";
    reasoning = λ i k. started-new "reasoning" i (ground (arith, k));
    text = λ i k. keeps "reasoning" "text" i (h.text i k);
    tools = λ w i k. keeps "reasoning" "tool-call" i (h.tools w i k);
    owned = λ i k. elim (started-Owned "reasoning" i k) [
      | inl n ↦ of_reasoning (ap some n)
      | inr o ↦ still_owned o
    ];
    apart = h.apart;
  }
    where
      still_owned :
          {i : ℕ}
          → Owned t i
          → Owned
              (record t {
                reasoning_index = some t.next_index;
                next_index = t.next_index + 1;
                reasoning_text = s;
              })
              i
      still_owned (of_reasoning p) = absurd (ground (arith, p, e))
      still_owned (of_text p) = of_text p
      still_owned (of_tool w p) = of_tool w p

  text_started :
      (s : String)
      → t.text_index ≡ none
      → Fits
          (started "text")
          (record t { text_index = some t.next_index; next_index = t.next_index + 1; text = s })
  text_started s e = record {
    below = started-below "text";
    reasoning = λ i k. keeps "text" "reasoning" i (h.reasoning i k);
    text = λ i k. started-new "text" i (ground (arith, k));
    tools = λ w i k. keeps "text" "tool-call" i (h.tools w i k);
    owned = λ i k. elim (started-Owned "text" i k) [
      | inl n ↦ of_text (ap some n)
      | inr o ↦ still_owned o
    ];
    apart = h.apart;
  }
    where
      still_owned :
          {i : ℕ}
          → Owned t i
          → Owned
              (record t { text_index = some t.next_index; next_index = t.next_index + 1; text = s })
              i
      still_owned (of_reasoning p) = of_reasoning p
      still_owned (of_text p) = absurd (ground (arith, p, e))
      still_owned (of_tool w p) = of_tool w p

  -- The block indices of the tool calls after a new one.
  tools_started :
      (w v i : ℕ)
      → find v (set w t.next_index t.tool_block_index) ≡ some i
      → ((w ≡ v) × (t.next_index ≡ i)) ⊎ (find v t.tool_block_index ≡ some i)
  tools_started w v i k = elim (Bool-cases (eqb w v)) [
    | inl e ↦
        inl (ground (arith, e), ground (arith, e, k, find-set w v t.next_index t.tool_block_index))
    | inr e ↦ inr (ground (arith, e, k, find-set w v t.next_index t.tool_block_index))
  ]

  not_next : (v i : ℕ) → find v t.tool_block_index ≡ some i → t.next_index ≡ i → ⊥
  not_next v i k n = ground (arith, n, h.below i (ground (arith, h.tools v i k)))

  tool_started :
      (w : ℕ)
      → find w t.tool_block_index ≡ none
      → Fits (started "tool-call") (record t {
        tool_block_index = set w t.next_index t.tool_block_index;
        next_index = t.next_index + 1;
      })
  tool_started w e = record {
    below = started-below "tool-call";
    reasoning = λ i k. keeps "tool-call" "reasoning" i (h.reasoning i k);
    text = λ i k. keeps "tool-call" "text" i (h.text i k);
    tools = λ v i k. elim (tools_started w v i k) [
      | inl n ↦ started-new "tool-call" i n.1
      | inr o ↦ keeps "tool-call" "tool-call" i (h.tools v i o)
    ];
    owned = λ i k. elim (started-Owned "tool-call" i k) [
      | inl n ↦ of_tool w (ground (arith, n, find-set w w t.next_index t.tool_block_index))
      | inr o ↦ still_owned o
    ];
    apart = λ v v' i k k'. elim (tools_started w v i k) [
      | inl n ↦ elim (tools_started w v' i k') [
        | inl n' ↦ sym n.0 ∙ n'.0
        | inr o' ↦ absurd (not_next v' i o' n.1)
      ]
      | inr o ↦ elim (tools_started w v' i k') [
        | inl n' ↦ absurd (not_next v i o n'.1)
        | inr o' ↦ h.apart v v' i o o'
      ]
    ];
  }
    where
      still_owned :
          {i : ℕ}
          → Owned t i
          → Owned
              (record t {
                tool_block_index = set w t.next_index t.tool_block_index;
                next_index = t.next_index + 1;
              })
              i
      still_owned (of_reasoning p) = of_reasoning p
      still_owned (of_text p) = of_text p
      still_owned (of_tool v p) =
          of_tool v (ground (arith, p, e, find-set w v t.next_index t.tool_block_index))

module _ (f : Types) (t : Turn) (h : Fits f t) where
  reasoning_at-Sends :
      (s : String) (o : Option ℕ) → t.reasoning_index ≡ o → Sends f t (reasoning_at t s o)
  unfolding reasoning_at
  reasoning_at-Sends s none e = (
    started f t h "reasoning",
    Accepts-cons _ _ (start-Accepts "reasoning" refl) (
        Accepts-cons _ _
          (reasoning-Accepts t.next_index s (started-new f t h "reasoning" t.next_index refl))
          (Accepts-nil _ _)),
    reasoning_started f t h (t.reasoning_text <> s) e,
  )
  reasoning_at-Sends s (some i) e =
      (f, Accepts-cons _ _ (reasoning-Accepts i s (h.reasoning i e)) (Accepts-nil _ _), h)

  text_at-Sends : (s : String) (o : Option ℕ) → t.text_index ≡ o → Sends f t (text_at t s o)
  unfolding text_at
  text_at-Sends s none e = (
    started f t h "text",
    Accepts-cons _ _ (start-Accepts "text" refl) (
        Accepts-cons _ _ (text-Accepts t.next_index s (started-new f t h "text" t.next_index refl))
          (Accepts-nil _ _)),
    text_started f t h (t.text <> s) e,
  )
  text_at-Sends s (some i) e =
      (f, Accepts-cons _ _ (text-Accepts i s (h.text i e)) (Accepts-nil _ _), h)

  fragment_at-Sends :
      (p : Fragment) (o : Option ℕ)
      → find p.wire_index t.tool_block_index ≡ o
      → Sends f t (fragment_at t p o)
  unfolding fragment_at
  fragment_at-Sends p none e = (
    started f t h "tool-call",
    Accepts-cons _ _ (start-Accepts "tool-call" refl) (
        Accepts-cons _ _
          (tool-Accepts t.next_index p.call_id p.name p.arguments
            (started-new f t h "tool-call" t.next_index refl))
          (Accepts-nil _ _)),
    tool_started f t h p.wire_index e,
  )
  fragment_at-Sends p (some i) e = (
    f,
    Accepts-cons _ _ (tool-Accepts i p.call_id p.name p.arguments (h.tools p.wire_index i e))
        (Accepts-nil _ _),
    h,
  )

  on_reasoning-Sends : (s : String) → Sends f t (on_reasoning s t)
  unfolding on_reasoning
  on_reasoning-Sends s = elim (Bool-cases (s == "")) [
    | inl e ↦ rw (on_reasoning, e) (Sends-nothing f t h)
    | inr e ↦ rw (on_reasoning, e) (reasoning_at-Sends s _ refl)
  ]

  on_content-Sends : (s : String) → Sends f t (on_content s t)
  unfolding on_content
  on_content-Sends s = elim (Bool-cases (s == "")) [
    | inl e ↦ rw (on_content, e) (Sends-nothing f t h)
    | inr e ↦ rw (on_content, e) (text_at-Sends s _ refl)
  ]

  on_fragment-Sends : (o : Option Fragment) → Sends f t (on_fragment o t)
  unfolding on_fragment
  on_fragment-Sends none = Sends-nothing f t h
  on_fragment-Sends (some p) = fragment_at-Sends p _ refl

on_tool-Sends : (f : Types) (t : Turn) → Fits f t → (d : ToolDelta) → Sends f t (on_tool d t)
unfolding on_tool
on_tool-Sends f t h d =
    let r = accumulate t.items d in on_fragment-Sends f (record t { items = r.0 }) h r.1

on_tools-Sends :
    (f : Types) (t : Turn) → Fits f t → (ds : List ToolDelta) → Sends f t (on_tools ds t)
unfolding on_tools
on_tools-Sends f t h [] = Sends-nothing f t h
on_tools-Sends f t h (d ∷ ds) =
    Sends-then f t (on_tool d t) (on_tools ds) (on_tool-Sends f t h d)
      λ f' k. on_tools-Sends f' _ k ds

on_calls-Sends : (f : Types) (t : Turn) → Fits f t → (c : Choice) → Sends f t (on_calls c t)
on_calls-Sends f t h c =
    Sends-then f t (on_tools c.tool_calls t) (with_finish c.finish_reason)
      (on_tools-Sends f t h c.tool_calls) λ f' k. (f', Accepts-nil _ _, k)

on_visible-Sends : (f : Types) (t : Turn) → Fits f t → (c : Choice) → Sends f t (on_visible c t)
on_visible-Sends f t h c =
    Sends-then f t (on_content c.content t) (on_calls c) (on_content-Sends f t h c.content)
      λ f' k. on_calls-Sends f' (on_content c.content t).0 k c

on_choice-Sends :
    (f : Types) (t : Turn) → Fits f t → (o : Option Choice) → Sends f t (on_choice o t)
unfolding on_choice
on_choice-Sends f t h none = Sends-nothing f t h
on_choice-Sends f t h (some c) =
    Sends-then f t (on_reasoning c.reasoning_content t) (on_visible c)
      (on_reasoning-Sends f t h c.reasoning_content)
      λ f' k. on_visible-Sends f' (on_reasoning c.reasoning_content t).0 k c

pub on_item-Sends : (f : Types) (t : Turn) → Fits f t → (i : Item) → Sends f t (on_item i t)
unfolding on_item
on_item-Sends f t h i = on_choice-Sends f (note i t) h i.choice
