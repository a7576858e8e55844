-- ===== src/Message/Order.antt =====
-- The blocks of a rebuilt message and their order (Msg.append_event of
-- src/ftre_agent_core/message/_msg.py).
use ftre_agent_core.Prelude.{
  String, ◌≡◌, refl, sym, ap, subst, ◌∙◌, Option, none, some, true, List, [], ◌∷◌, ◌++◌, map,
  append-nil, append_assoc, map-append, inl, inr, Bool-cases, Option-cases, arith, eq_iff,
  if◌then◌else◌,
}
use ftre_agent_core.Message.{ContentBlock, Msg, asking, allowed, finished, ToolResultState}
use ftre_agent_core.Json.{Fields}
use ftre_agent_core.Event.{
  Event, EventBody, reply_start, reply_end, exceed_max_iters, model_call_start, model_call_end,
  text_block_start, text_block_delta, text_block_end, data_block_start, data_block_delta,
  data_block_end, thinking_block_start, thinking_block_delta, thinking_block_end, hint_block,
  tool_call_start, tool_call_delta, tool_call_end, tool_result_start, tool_result_text_delta,
  tool_result_data_delta, tool_result_end, require_user_confirm, user_confirm_result, retry, custom,
  user_message,
}
use ftre_agent_core.Message.Blocks.{
  find_block, set_block, is_at, alter, unbuffer, source_of, block_type, block_id, finish_at,
  set_state, set_arguments, end_result, add_text, add_thinking, add_data_output,
}
use ftre_agent_core.Message.Rebuild.{
  Library, arguments_of, apply, end_call, end_tool_result, append_event, rebuild, is_for,
}
use ftre_agent_core.Message.Place.{
  IfSome, IfSome-bind, IfSome-at, InPlace, place, at-find_block, alter-content, finish_at-InPlace,
  add_text-InPlace, add_thinking-InPlace, set_state-InPlace, set_call-InPlace, set_result-InPlace,
  add_output-InPlace, add_data_output-InPlace, add_data-InPlace,
}

-- The type and the id of the block that an event opens.
abbrev pub starts : EventBody → List (String × String)
starts (text_block_start id) = ("text", id) ∷ []
starts (data_block_start id media_type) = ("data", id) ∷ []
starts (thinking_block_start id) = ("thinking", id) ∷ []
starts (hint_block id source content) = ("hint", id) ∷ []
starts (tool_call_start id name) = ("tool_call", id) ∷ []
starts (tool_result_start id name) = ("tool_result", id) ∷ []
starts _ = []

abbrev pub own_starts : String → Event → List (String × String)
own_starts id e = if is_for id e then starts e.body else []

-- Of the events of a stream that are for the message with an id.
unfoldable pub all_starts : String → List Event → List (String × String)
all_starts id [] = []
all_starts id (e ∷ es) = own_starts id e ++ all_starts id es

abbrev pub places : List ContentBlock → List (String × String)
places bs = map place bs

place_of : (type id : String) (b : ContentBlock) → is_at type id b ≡ true → place b ≡ (type, id)
place_of type id b h = ground (arith, h, eq_iff (block_type b) type, eq_iff (block_id b) id)

places-set_block :
    (type id : String) (new : ContentBlock) (bs : List ContentBlock)
    → place new ≡ (type, id)
    → places (set_block type id new bs) ≡ places bs
unfolding set_block
places-set_block type id new [] h = refl
places-set_block type id new (b ∷ bs) h = elim (Bool-cases (is_at type id b)) [
  | inl e ↦ rw e (rw (h, place_of type id b e) refl)
  | inr e ↦ rw (e, places-set_block type id new bs h) refl
]

module _ (m : Msg) where
  -- The message is the same one, with some places after its own.
  abbrev HasAdded : List (String × String) → Msg → Type 0
  HasAdded added m' = (m'.id ≡ m.id) × (places m'.content ≡ places m.content ++ added)

  alter-HasAdded :
      (type id : String) (change : ContentBlock → Option ContentBlock)
      → InPlace change
      → IfSome (HasAdded []) (alter type id change m)
  alter-HasAdded type id change p =
      alter-content m type id (λ bs. places bs ≡ places m.content ++ []) change
        (sym (append-nil (places m.content)))
        λ b new f g.
          places-set_block type id new m.content (
            IfSome-at (λ c. place c ≡ place b) (change b) new (p b) g
            ∙ place_of type id b (at-find_block type id b m.content f))
          ∙ sym (append-nil (places m.content))

  unchanged : HasAdded [] m
  unchanged = (refl, sym (append-nil (places m.content)))

  -- What was added first, then the rest.
  HasAdded-chain :
      (xs ys : List (String × String)) (m' : Msg) (o : Option Msg)
      → HasAdded xs m'
      → IfSome (λ m''. (m''.id ≡ m'.id) × (places m''.content ≡ places m'.content ++ ys)) o
      → IfSome (HasAdded (xs ++ ys)) o
  HasAdded-chain xs ys m' none p q = tt
  HasAdded-chain xs ys m' (some m'') p q =
      (q.0 ∙ p.0, q.1 ∙ ap (λ l. l ++ ys) p.1 ∙ append_assoc (places m.content) xs ys)

module _ (m : Msg) where
  end_call-HasAdded :
      (lib : Library) (time id raw : String) → IfSome (HasAdded m []) (end_call lib time id raw m)
  unfolding end_call
  end_call-HasAdded lib time id raw = elim (Option-cases (find_block "tool_call" id m.content)) [
    | inl f ↦ rw (end_call, f) (unchanged m)
    | inr (b, f) ↦
        rw (end_call, f)
          (alter-HasAdded (record m { tool_call_input_buf = unbuffer id m.tool_call_input_buf })
            "tool_call" id
            (λ b. some (finish_at time (set_arguments (arguments_of lib id raw m) b)))
            (set_call-InPlace time (arguments_of lib id raw m)))
  ]

  end_tool_result-HasAdded :
      (lib : Library) (time id : String) (state : ToolResultState) (metadata : Fields)
      → IfSome (HasAdded m []) (end_tool_result lib time id state metadata m)
  unfolding end_tool_result
  end_tool_result-HasAdded lib time id state metadata =
      elim (Option-cases (find_block "tool_result" id m.content)) [
        | inl f ↦ rw (end_tool_result, f) (unchanged m)
        | inr (b, f) ↦
            rw (end_tool_result, f)
              (IfSome-bind (HasAdded m []) (HasAdded m []) _ _
                (alter-HasAdded m "tool_result" id
                  (λ b. some (finish_at time (end_result state metadata b)))
                  (set_result-InPlace time state metadata))
                λ m' p. HasAdded-chain m [] [] m' _ p (
                  alter-HasAdded m' "tool_call" id (λ b. some (set_state finished b))
                    (set_state-InPlace finished)))
      ]

  apply-HasAdded :
      (lib : Library) (e : Event) (body : EventBody)
      → IfSome (HasAdded m (starts body)) (apply lib e body m)
  unfolding apply
  apply-HasAdded lib e (reply_start a b) = unchanged m
  apply-HasAdded lib e (reply_end a b c) = unchanged m
  apply-HasAdded lib e (exceed_max_iters a) = unchanged m
  apply-HasAdded lib e (model_call_start a) = unchanged m
  apply-HasAdded lib e (model_call_end a b c) = unchanged m
  apply-HasAdded lib e (text_block_start id) = (refl, map-append place m.content _)
  apply-HasAdded lib e (text_block_delta id delta) =
      alter-HasAdded m "text" id (λ b. some (add_text delta b)) (add_text-InPlace delta)
  apply-HasAdded lib e (text_block_end id) =
      alter-HasAdded m "text" id (λ b. some (finish_at e.created_at b))
        (finish_at-InPlace e.created_at)
  apply-HasAdded lib e (data_block_start id media_type) = (refl, map-append place m.content _)
  apply-HasAdded lib e (data_block_delta id new media_type) =
      alter-HasAdded m "data" id _ (add_data-InPlace lib new)
  apply-HasAdded lib e (data_block_end id) =
      alter-HasAdded m "data" id (λ b. some (finish_at e.created_at b))
        (finish_at-InPlace e.created_at)
  apply-HasAdded lib e (thinking_block_start id) = (refl, map-append place m.content _)
  apply-HasAdded lib e (thinking_block_delta id delta) =
      alter-HasAdded m "thinking" id (λ b. some (add_thinking delta b)) (add_thinking-InPlace delta)
  apply-HasAdded lib e (thinking_block_end id) =
      alter-HasAdded m "thinking" id (λ b. some (finish_at e.created_at b))
        (finish_at-InPlace e.created_at)
  apply-HasAdded lib e (hint_block id source content) = (refl, map-append place m.content _)
  apply-HasAdded lib e (tool_call_start id name) = (refl, map-append place m.content _)
  apply-HasAdded lib e (tool_call_delta id delta) = unchanged m
  apply-HasAdded lib e (tool_call_end id arguments) =
      end_call-HasAdded lib e.created_at id arguments
  apply-HasAdded lib e (tool_result_start id name) = (refl, map-append place m.content _)
  apply-HasAdded lib e (tool_result_text_delta id delta) =
      alter-HasAdded m "tool_result" id _ (add_output-InPlace (lib.new_id e) delta)
  apply-HasAdded lib e (tool_result_data_delta id block media_type new link) =
      alter-HasAdded m "tool_result" id
        (λ b. some (add_data_output (lib.new_id e) block (source_of media_type new link) b))
        (add_data_output-InPlace (lib.new_id e) block (source_of media_type new link))
  apply-HasAdded lib e (tool_result_end id state metadata) =
      end_tool_result-HasAdded lib e.created_at id state metadata
  apply-HasAdded lib e (require_user_confirm id name arguments reason rule_id) =
      alter-HasAdded m "tool_call" id (λ b. some (set_state asking b)) (set_state-InPlace asking)
  apply-HasAdded lib e (user_confirm_result id approved) =
      alter-HasAdded m "tool_call" id
        (λ b. some (set_state (if approved then allowed else finished) b))
        (set_state-InPlace (if approved then allowed else finished))
  apply-HasAdded lib e (retry a b c d) = unchanged m
  apply-HasAdded lib e (custom a b) = unchanged m
  apply-HasAdded lib e (user_message a) = unchanged m

module _ (lib : Library) where
  append_event-HasAdded :
      (m : Msg) (e : Event) → IfSome (HasAdded m (own_starts m.id e)) (append_event lib e m)
  unfolding append_event
  append_event-HasAdded m e = elim (Bool-cases (is_for m.id e)) [
    | inl f ↦ rw (append_event, f) (apply-HasAdded m lib e e.body)
    | inr f ↦ rw (append_event, f) (unchanged m)
  ]

  rebuild-HasAdded :
      (es : List Event) (m : Msg) → IfSome (HasAdded m (all_starts m.id es)) (rebuild lib es m)
  unfolding rebuild all_starts
  rebuild-HasAdded [] m = unchanged m
  rebuild-HasAdded (e ∷ es) m =
      IfSome-bind (HasAdded m (own_starts m.id e)) _ (rebuild lib es) _ (append_event-HasAdded m e)
        λ m' p. HasAdded-chain m _ _ m' _ p (
          subst (λ id. IfSome (HasAdded m' (all_starts id es)) (rebuild lib es m')) p.0
            (rebuild-HasAdded es m'))

  -- A message rebuilt from a stream has the blocks that it had, then one for each event for this
  -- message that opens a block, of its type and id and in the order of the stream: nothing is taken
  -- out, put in between or opened by any other event. The message's id stays.
  pub places-rebuild :
      (es : List Event) (m m' : Msg)
      → rebuild lib es m ≡ some m'
      → (m'.id ≡ m.id) × (places m'.content ≡ places m.content ++ all_starts m.id es)
  places-rebuild es m m' h =
      IfSome-at (HasAdded m (all_starts m.id es)) (rebuild lib es m) m' (rebuild-HasAdded es m) h
