-- ===== src/Message/Text.antt =====
-- The texts of a rebuilt message (Msg.append_event of src/ftre_agent_core/message/_msg.py).
use ftre_agent_core.Prelude.{
  String, ◌≡◌, refl, sym, ap, subst, ◌∙◌, Option, none, some, true, false, ◌&&◌, List, [], ◌∷◌,
  ◌++◌, ◌==◌, ◌<>◌, inl, inr, Bool-cases, Option-cases, eq_iff, if◌then◌else◌,
}
use package.text.Mathlib.TextLemmas.{append-nil, append_assoc}
use ftre_agent_core.Message.{
  TextBlock, ContentBlock, text, Msg, asking, allowed, finished, ToolResultState,
}
use ftre_agent_core.Json.{Fields}
use ftre_agent_core.Event.{
  Event, EventBody, reply_start, reply_end, exceed_max_iters, model_call_start, model_call_end,
  text_block_start, text_block_delta, text_block_end, data_block_start, data_block_delta,
  data_block_end, thinking_block_start, thinking_block_delta, thinking_block_end, hint_block,
  tool_call_start, tool_call_delta, tool_call_end, tool_result_start, tool_result_text_delta,
  tool_result_data_delta, tool_result_end, require_user_confirm, user_confirm_result, retry, custom,
  user_message,
}
use ftre_agent_core.Message.Blocks.{
  find_block, set_block, is_at, alter, unbuffer, source_of, finish_at, set_state, set_arguments,
  end_result, add_output, add_text, add_thinking, add_data_output,
}
use ftre_agent_core.Message.Rebuild.{
  Library, arguments_of, add_data, apply, end_call, end_tool_result, append_event, rebuild, is_for,
}
use ftre_agent_core.Message.Place.{
  IfSome, IfSome-bind, IfSome-at, InPlace, place, place-is_at, at-find_block, find_block-append,
  find_block-set_block, find_block-set_other, alter-content, finish_at-InPlace, add_text-InPlace,
  add_thinking-InPlace, set_state-InPlace, set_call-InPlace, set_result-InPlace, add_output-InPlace,
  add_data_output-InPlace, add_data-InPlace,
}

-- What an event says to the text block with an id.
unfoldable pub delta_for : String → EventBody → String
delta_for id (text_block_delta i delta) = if i == id then delta else ""
delta_for id _ = ""

abbrev pub own_delta : String → String → Event → String
own_delta message id e = if is_for message e then delta_for id e.body else ""

-- All deltas of a stream for a text block of a message, in order.
unfoldable pub all_deltas : String → String → List Event → String
unfolding delta_for
all_deltas message id [] = ""
all_deltas message id (e ∷ es) = own_delta message id e <> all_deltas message id es

-- The text block that `_find_block` gives has a text.
pub record HasText (id s : String) (bs : List ContentBlock) : Type 0 where
  pub block : TextBlock
  pub is_there : find_block "text" id bs ≡ some (text block)
  pub says : block.text ≡ s

module _ (id s : String) where
  HasText-append : (bs cs : List ContentBlock) → HasText id s bs → HasText id s (bs ++ cs)
  HasText-append bs cs h = record {
    block = h.block;
    is_there = find_block-append "text" id (text h.block) bs cs h.is_there;
    says = h.says;
  }

  HasText-other :
      (type i : String) (new : ContentBlock) (bs : List ContentBlock)
      → is_at type i new ≡ true
      → (type == "text" && i == id) ≡ false
      → HasText id s bs
      → HasText id s (set_block type i new bs)
  HasText-other type i new bs n e h = record {
    block = h.block;
    is_there = find_block-set_other "text" id type i new bs n e ∙ h.is_there;
    says = h.says;
  }

  module _ (m : Msg) where
    -- The same message, the text with a delta more.
    abbrev Says : String → Msg → Type 0
    Says delta m' = (m'.id ≡ m.id) × HasText id (s <> delta) m'.content

    quiet : (m' : Msg) → m'.id ≡ m.id → HasText id s m'.content → Says "" m'
    quiet m' e h = (e, subst (λ t. HasText id t m'.content) (sym (append-nil s)) h)

    alter-quiet :
        (type i : String) (change : ContentBlock → Option ContentBlock)
        → (type == "text" && i == id) ≡ false
        → InPlace change
        → HasText id s m.content
        → IfSome (Says "") (alter type i change m)
    alter-quiet type i change n p h =
        alter-content m type i (λ bs. HasText id (s <> "") bs) change ((quiet m refl h).1)
          λ b new f g.
            (quiet (record m { content = set_block type i new m.content }) refl
              (HasText-other type i new m.content
                (place-is_at m type i b new
                  (IfSome-at (λ c. place c ≡ place b) (change b) new (p b) g)
                  (at-find_block type i b m.content f))
                n h)).1

    -- The text block itself, changed to another text block.
    alter-same :
        (delta : String) (change : ContentBlock → Option ContentBlock) (b : TextBlock)
        → (h : HasText id s m.content) → change (text h.block) ≡ some (text b)
        → b.id ≡ h.block.id
        → b.text ≡ s <> delta
        → IfSome (Says delta) (alter "text" id change m)
    unfolding alter
    alter-same delta change b h c same t =
        rw (alter, h.is_there, c)
          (
            refl,
            record {
              block = b;
              is_there =
                  find_block-set_block "text" id (text h.block) (text b) m.content h.is_there
                    (rw same (at-find_block "text" id (text h.block) m.content h.is_there));
              says = t;
            },
          )

    finish_text-Says :
        (i time : String)
        → HasText id s m.content
        → IfSome (Says "") (alter "text" i (λ b. some (finish_at time b)) m)
    finish_text-Says i time h = elim (Bool-cases (i == id)) [
      | inl e ↦ rw ((eq_iff i id).0 e) (
          alter-same "" (λ b. some (finish_at time b)) (record h.block { finished_at = some time })
            h refl refl (h.says ∙ sym (append-nil s)))
      | inr e ↦ alter-quiet "text" i (λ b. some (finish_at time b)) e (finish_at-InPlace time) h
    ]

    add_text-Says :
        (i delta : String)
        → HasText id s m.content
        → IfSome
            (Says (if i == id then delta else ""))
            (alter "text" i (λ b. some (add_text delta b)) m)
    add_text-Says i delta h = elim (Bool-cases (i == id)) [
      | inl e ↦
          rw (e, (eq_iff i id).0 e)
            (alter-same delta (λ b. some (add_text delta b))
              (record h.block { text = h.block.text <> delta }) h refl refl
              (ap (λ t. t <> delta) h.says))
      | inr e ↦
          rw e (alter-quiet "text" i (λ b. some (add_text delta b)) e (add_text-InPlace delta) h)
    ]

module _ (id s : String) (m : Msg) where
  Says-chain :
      (d d' : String) (m' : Msg) (o : Option Msg)
      → Says id s m d m'
      → IfSome (Says id (s <> d) m' d') o
      → IfSome (Says id s m (d <> d')) o
  Says-chain d d' m' none p q = tt
  Says-chain d d' m' (some m'') p q =
      (q.0 ∙ p.0, subst (λ t. HasText id t m''.content) (append_assoc s d d') q.1)

  end_call-Says :
      (lib : Library) (time i raw : String)
      → HasText id s m.content
      → IfSome (Says id s m "") (end_call lib time i raw m)
  unfolding end_call
  end_call-Says lib time i raw h = elim (Option-cases (find_block "tool_call" i m.content)) [
    | inl f ↦ rw (end_call, f) (quiet id s m m refl h)
    | inr (b, f) ↦
        rw (end_call, f)
          (alter-quiet id s (record m { tool_call_input_buf = unbuffer i m.tool_call_input_buf })
            "tool_call" i (λ b. some (finish_at time (set_arguments (arguments_of lib i raw m) b)))
            refl (set_call-InPlace time (arguments_of lib i raw m)) h)
  ]

  end_tool_result-Says :
      (lib : Library) (time i : String) (state : ToolResultState) (metadata : Fields)
      → HasText id s m.content
      → IfSome (Says id s m "") (end_tool_result lib time i state metadata m)
  unfolding end_tool_result
  end_tool_result-Says lib time i state metadata h =
      elim (Option-cases (find_block "tool_result" i m.content)) [
        | inl f ↦ rw (end_tool_result, f) (quiet id s m m refl h)
        | inr (b, f) ↦
            rw (end_tool_result, f)
              (IfSome-bind (Says id s m "") (Says id s m "") _ _
                (alter-quiet id s m "tool_result" i
                  (λ b. some (finish_at time (end_result state metadata b))) refl
                  (set_result-InPlace time state metadata) h)
                λ m' p. Says-chain "" "" m' _ p (
                  alter-quiet id (s <> "") m' "tool_call" i (λ b. some (set_state finished b)) refl
                    (set_state-InPlace finished) p.1))
      ]

module _ (id s : String) (m : Msg) (h : HasText id s m.content) where
  unchanged : Says id s m "" m
  unchanged = quiet id s m m refl h

  added : (b : ContentBlock) → Says id s m "" (record m { content = m.content ++ (b ∷ []) })
  added b =
      quiet id s m (record m { content = m.content ++ (b ∷ []) }) refl
        (HasText-append id s m.content (b ∷ []) h)

  apply-Says :
      (lib : Library) (e : Event) (body : EventBody)
      → IfSome (Says id s m (delta_for id body)) (apply lib e body m)
  unfolding apply delta_for
  apply-Says lib e (reply_start a b) = unchanged
  apply-Says lib e (reply_end a b c) = unchanged
  apply-Says lib e (exceed_max_iters a) = unchanged
  apply-Says lib e (model_call_start a) = unchanged
  apply-Says lib e (model_call_end a b c) = unchanged
  apply-Says lib e (text_block_start i) = added _
  apply-Says lib e (text_block_delta i delta) = add_text-Says id s m i delta h
  apply-Says lib e (text_block_end i) = finish_text-Says id s m i e.created_at h
  apply-Says lib e (data_block_start i media_type) = added _
  apply-Says lib e (data_block_delta i new media_type) =
      alter-quiet id s m "data" i (add_data lib new) refl (add_data-InPlace lib new) h
  apply-Says lib e (data_block_end i) =
      alter-quiet id s m "data" i (λ b. some (finish_at e.created_at b)) refl
        (finish_at-InPlace e.created_at) h
  apply-Says lib e (thinking_block_start i) = added _
  apply-Says lib e (thinking_block_delta i delta) =
      alter-quiet id s m "thinking" i (λ b. some (add_thinking delta b)) refl
        (add_thinking-InPlace delta) h
  apply-Says lib e (thinking_block_end i) =
      alter-quiet id s m "thinking" i (λ b. some (finish_at e.created_at b)) refl
        (finish_at-InPlace e.created_at) h
  apply-Says lib e (hint_block i source content) = added _
  apply-Says lib e (tool_call_start i name) = added _
  apply-Says lib e (tool_call_delta i delta) = unchanged
  apply-Says lib e (tool_call_end i arguments) = end_call-Says id s m lib e.created_at i arguments h
  apply-Says lib e (tool_result_start i name) = added _
  apply-Says lib e (tool_result_text_delta i delta) =
      alter-quiet id s m "tool_result" i (add_output (lib.new_id e) delta) refl
        (add_output-InPlace (lib.new_id e) delta) h
  apply-Says lib e (tool_result_data_delta i block media_type new link) =
      alter-quiet id s m "tool_result" i
        (λ b. some (add_data_output (lib.new_id e) block (source_of media_type new link) b)) refl
        (add_data_output-InPlace (lib.new_id e) block (source_of media_type new link)) h
  apply-Says lib e (tool_result_end i state metadata) =
      end_tool_result-Says id s m lib e.created_at i state metadata h
  apply-Says lib e (require_user_confirm i name arguments reason rule_id) =
      alter-quiet id s m "tool_call" i (λ b. some (set_state asking b)) refl
        (set_state-InPlace asking) h
  apply-Says lib e (user_confirm_result i approved) =
      alter-quiet id s m "tool_call" i
        (λ b. some (set_state (if approved then allowed else finished) b)) refl
        (set_state-InPlace (if approved then allowed else finished)) h
  apply-Says lib e (retry a b c d) = unchanged
  apply-Says lib e (custom a b) = unchanged
  apply-Says lib e (user_message a) = unchanged

module _ (lib : Library) where
  append_event-Says :
      (id s : String) (m : Msg) (e : Event)
      → HasText id s m.content
      → IfSome (Says id s m (own_delta m.id id e)) (append_event lib e m)
  unfolding append_event
  append_event-Says id s m e h = elim (Bool-cases (is_for m.id e)) [
    | inl f ↦ rw (append_event, f) (apply-Says id s m h lib e e.body)
    | inr f ↦ rw (append_event, f) (unchanged id s m h)
  ]

  rebuild-Says :
      (id s : String) (es : List Event) (m : Msg)
      → HasText id s m.content
      → IfSome (Says id s m (all_deltas m.id id es)) (rebuild lib es m)
  unfolding rebuild all_deltas
  rebuild-Says id s [] m h = unchanged id s m h
  rebuild-Says id s (e ∷ es) m h =
      IfSome-bind (Says id s m (own_delta m.id id e)) _ (rebuild lib es) _
        (append_event-Says id s m e h)
        λ m' p. Says-chain id s m _ _ m' _ p (
          subst
            (λ i.
              IfSome (Says id (s <> own_delta m.id id e) m' (all_deltas i id es))
                (rebuild lib es m'))
            p.0 (rebuild-Says id (s <> own_delta m.id id e) es m' p.1))

  -- The text of a text block of a message, after a stream, is its text before it and then the deltas
  -- of the stream's events for this message and this block, in order. The events of other blocks and
  -- messages, between them, change nothing of it; no event takes the block away.
  pub text-rebuild :
      (id s : String) (es : List Event) (m m' : Msg)
      → HasText id s m.content
      → rebuild lib es m ≡ some m'
      → HasText id (s <> all_deltas m.id id es) m'.content
  text-rebuild id s es m m' h e =
      (IfSome-at (Says id s m (all_deltas m.id id es)) (rebuild lib es m) m'
        (rebuild-Says id s es m h) e).1
