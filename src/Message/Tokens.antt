-- ===== src/Message/Tokens.antt =====
-- The token counts of a rebuilt message, and the events that it is rebuilt from (Msg.append_event of
-- src/ftre_agent_core/message/_msg.py).
use ftre_agent_core.Prelude.{
  String, ◌≡◌, refl, sym, ap, subst, ◌∙◌, Option, none, some, List, [], ◌∷◌, ◌++◌, append-nil,
  append_assoc, inl, inr, Bool-cases, Option-cases, arith, if◌then◌else◌,
}
use ftre_agent_core.Message.{
  ContentBlock, Msg, MsgToken, TokenUsage, finished, asking, allowed, ToolResultState,
}
use ftre_agent_core.Json.{Fields}
use ftre_agent_core.Event.{
  Event, EventBody, reply_start, reply_end, exceed_max_iters, model_call_start, model_call_end,
  text_block_start, text_block_delta, text_block_end, data_block_start, data_block_delta,
  data_block_end, thinking_block_start, thinking_block_delta, thinking_block_end, hint_block,
  tool_call_start, tool_call_delta, tool_call_end, tool_result_start, tool_result_text_delta,
  tool_result_data_delta, tool_result_end, require_user_confirm, user_confirm_result, retry, custom,
  user_message,
}
use ftre_agent_core.Message.Blocks.{
  add_output, find_block, alter, unbuffer, source_of, count_usage, group_items, add_usage,
  finish_at, set_state, set_arguments, end_result, add_text, add_thinking, add_data_output,
}
use ftre_agent_core.Message.Rebuild.{
  Library, arguments_of, add_data, apply, end_call, end_tool_result, append_event, rebuild, is_for,
}
use ftre_agent_core.Message.Place.{IfSome, IfSome-bind, IfSome-at}

-- The usage that an event reports.
abbrev pub usage_in : EventBody → List TokenUsage
usage_in (model_call_end usage b c) = usage ∷ []
usage_in _ = []

abbrev pub own_usage : String → Event → List TokenUsage
own_usage id e = if is_for id e then usage_in e.body else []

-- Of the events of a stream that are for the message with an id.
unfoldable pub usages : String → List Event → List TokenUsage
usages id [] = []
usages id (e ∷ es) = own_usage id e ++ usages id es

abbrev pub no_usage : TokenUsage
no_usage = record { prompt_tokens = 0; completion_tokens = 0; total_tokens = 0 }

unfoldable pub sum : List TokenUsage → TokenUsage
sum [] = no_usage
sum (u ∷ us) = add_usage u (sum us)

unfoldable pub last : TokenUsage → List TokenUsage → TokenUsage
last u [] = u
last u (v ∷ vs) = last v vs

-- No token record without a model call; else the sum of all calls, and the last one.
unfoldable pub token_of : List TokenUsage → Option MsgToken
token_of [] = none
token_of (u ∷ us) = some (record { usage = sum (u ∷ us); last_call_usage = last u us })

sum-one : (u : TokenUsage) → sum (u ∷ []) ≡ u
unfolding sum
sum-one u = ground arith

sum-snoc : (us : List TokenUsage) (u : TokenUsage) → sum (us ++ (u ∷ [])) ≡ add_usage (sum us) u
unfolding sum
sum-snoc [] u = ground arith
sum-snoc (v ∷ us) u = rw (sum-snoc us u) (ground arith)

last-snoc : (v u : TokenUsage) (us : List TokenUsage) → last v (us ++ (u ∷ [])) ≡ u
unfolding last
last-snoc v u [] = refl
last-snoc v u (w ∷ us) = last-snoc w u us

token_of-snoc :
    (us : List TokenUsage) (u : TokenUsage)
    → token_of (us ++ (u ∷ [])) ≡ some (count_usage u (token_of us))
unfolding token_of count_usage last
token_of-snoc [] u = ap (λ t. some (record { usage = t; last_call_usage = u })) (sum-one u)
token_of-snoc (v ∷ us) u =
    rw (last-snoc v u us)
      (ap (λ t. some (record { usage = t; last_call_usage = u })) (sum-snoc (v ∷ us) u))

module _ (m : Msg) where
  -- The same message, its token record with some usages more.
  abbrev Counts : List TokenUsage → Msg → Type 0
  Counts new m' =
      (m'.id ≡ m.id)
      × ((us : List TokenUsage) → m.token ≡ token_of us → m'.token ≡ token_of (us ++ new))

  same : (m' : Msg) → m'.id ≡ m.id → m'.token ≡ m.token → Counts [] m'
  same m' e t = (e, λ us h. t ∙ h ∙ ap token_of (sym (append-nil us)))

  alter-Counts :
      (type i : String) (change : ContentBlock → Option ContentBlock)
      → IfSome (Counts []) (alter type i change m)
  unfolding alter
  alter-Counts type i change = elim (Option-cases (find_block type i m.content)) [
    | inl f ↦ rw (alter, f) (same m refl refl)
    | inr (b, f) ↦ elim (Option-cases (change b)) [
      | inl g ↦ rw (alter, f, g) tt
      | inr (new, g) ↦ rw (alter, f, g) (same m refl refl)
    ]
  ]

  Counts-chain :
      (us vs : List TokenUsage) (m' : Msg) (o : Option Msg)
      → Counts us m'
      → IfSome
          (λ m''.
            (m''.id ≡ m'.id)
            × ((ws : List TokenUsage) → m'.token ≡ token_of ws → m''.token ≡ token_of (ws ++ vs)))
          o
      → IfSome (Counts (us ++ vs)) o
  Counts-chain us vs m' none p q = tt
  Counts-chain us vs m' (some m'') p q =
      (q.0 ∙ p.0, λ ws h. q.1 (ws ++ us) (p.1 ws h) ∙ ap token_of (append_assoc ws us vs))

  counted :
      (u : TokenUsage) (m' : Msg)
      → m'.id ≡ m.id
      → m'.token ≡ some (count_usage u m.token)
      → Counts (u ∷ []) m'
  counted u m' e t = (e, λ us h. t ∙ ap (λ o. some (count_usage u o)) h ∙ sym (token_of-snoc us u))

module _ (m : Msg) where
  end_call-Counts :
      (lib : Library) (time i raw : String) → IfSome (Counts m []) (end_call lib time i raw m)
  unfolding end_call
  end_call-Counts lib time i raw = elim (Option-cases (find_block "tool_call" i m.content)) [
    | inl f ↦ rw (end_call, f) (same m m refl refl)
    | inr (b, f) ↦
        rw (end_call, f)
          (alter-Counts (record m { tool_call_input_buf = unbuffer i m.tool_call_input_buf })
            "tool_call" i (λ b. some (finish_at time (set_arguments (arguments_of lib i raw m) b))))
  ]

  end_tool_result-Counts :
      (lib : Library) (time i : String) (state : ToolResultState) (metadata : Fields)
      → IfSome (Counts m []) (end_tool_result lib time i state metadata m)
  unfolding end_tool_result
  end_tool_result-Counts lib time i state metadata =
      elim (Option-cases (find_block "tool_result" i m.content)) [
        | inl f ↦ rw (end_tool_result, f) (same m m refl refl)
        | inr (b, f) ↦
            rw (end_tool_result, f)
              (IfSome-bind (Counts m []) (Counts m []) _ _
                (alter-Counts m "tool_result" i
                  (λ b. some (finish_at time (end_result state metadata b))))
                λ m' p.
                  Counts-chain m [] [] m' _ p
                    (alter-Counts m' "tool_call" i (λ b. some (set_state finished b))))
      ]

  unchanged : Counts m [] m
  unchanged = same m m refl refl

  apply-Counts :
      (lib : Library) (e : Event) (body : EventBody)
      → IfSome (Counts m (usage_in body)) (apply lib e body m)
  unfolding apply
  apply-Counts lib e (reply_start a b) = unchanged
  apply-Counts lib e (reply_end a b c) = same m m refl refl
  apply-Counts lib e (exceed_max_iters a) = unchanged
  apply-Counts lib e (model_call_start a) = unchanged
  apply-Counts lib e (model_call_end a b c) =
      counted m a
        (record m { token = some (count_usage a m.token); metadata = group_items c m.metadata })
        refl refl
  apply-Counts lib e (text_block_start id) = same m m refl refl
  apply-Counts lib e (text_block_delta id delta) =
      alter-Counts m "text" id (λ b. some (add_text delta b))
  apply-Counts lib e (text_block_end id) =
      alter-Counts m "text" id (λ b. some (finish_at e.created_at b))
  apply-Counts lib e (data_block_start id media_type) = same m m refl refl
  apply-Counts lib e (data_block_delta id new media_type) =
      alter-Counts m "data" id (add_data lib new)
  apply-Counts lib e (data_block_end id) =
      alter-Counts m "data" id (λ b. some (finish_at e.created_at b))
  apply-Counts lib e (thinking_block_start id) = same m m refl refl
  apply-Counts lib e (thinking_block_delta id delta) =
      alter-Counts m "thinking" id (λ b. some (add_thinking delta b))
  apply-Counts lib e (thinking_block_end id) =
      alter-Counts m "thinking" id (λ b. some (finish_at e.created_at b))
  apply-Counts lib e (hint_block id source content) = same m m refl refl
  apply-Counts lib e (tool_call_start id name) = same m m refl refl
  apply-Counts lib e (tool_call_delta id delta) = same m m refl refl
  apply-Counts lib e (tool_call_end id arguments) = end_call-Counts lib e.created_at id arguments
  apply-Counts lib e (tool_result_start id name) = same m m refl refl
  apply-Counts lib e (tool_result_text_delta id delta) =
      alter-Counts m "tool_result" id (add_output (lib.new_id e) delta)
  apply-Counts lib e (tool_result_data_delta id block media_type new link) =
      alter-Counts m "tool_result" id
        (λ b. some (add_data_output (lib.new_id e) block (source_of media_type new link) b))
  apply-Counts lib e (tool_result_end id state metadata) =
      end_tool_result-Counts lib e.created_at id state metadata
  apply-Counts lib e (require_user_confirm id name arguments reason rule_id) =
      alter-Counts m "tool_call" id (λ b. some (set_state asking b))
  apply-Counts lib e (user_confirm_result id approved) =
      alter-Counts m "tool_call" id
        (λ b. some (set_state (if approved then allowed else finished) b))
  apply-Counts lib e (retry a b c d) = unchanged
  apply-Counts lib e (custom a b) = unchanged
  apply-Counts lib e (user_message a) = unchanged

module _ (lib : Library) where
  append_event-Counts :
      (m : Msg) (e : Event) → IfSome (Counts m (own_usage m.id e)) (append_event lib e m)
  unfolding append_event
  append_event-Counts m e = elim (Bool-cases (is_for m.id e)) [
    | inl f ↦ rw (append_event, f) (apply-Counts m lib e e.body)
    | inr f ↦ rw (append_event, f) (unchanged m)
  ]

  rebuild-Counts :
      (es : List Event) (m : Msg) → IfSome (Counts m (usages m.id es)) (rebuild lib es m)
  unfolding rebuild usages
  rebuild-Counts [] m = unchanged m
  rebuild-Counts (e ∷ es) m =
      IfSome-bind (Counts m (own_usage m.id e)) _ (rebuild lib es) _ (append_event-Counts m e)
        λ m' p. Counts-chain m _ _ m' _ p (
          subst (λ id. IfSome (Counts m' (usages id es)) (rebuild lib es m')) p.0
            (rebuild-Counts es m'))

  -- The token record of a message that had none, after a stream: none if no event for the message
  -- reports a usage, and else the sums of what they report, with the last of them.
  pub token-rebuild :
      (es : List Event) (m m' : Msg)
      → m.token ≡ none
      → rebuild lib es m ≡ some m'
      → m'.token ≡ token_of (usages m.id es)
  unfolding token_of
  token-rebuild es m m' n h =
      (IfSome-at (Counts m (usages m.id es)) (rebuild lib es m) m' (rebuild-Counts es m) h).1 [] n
