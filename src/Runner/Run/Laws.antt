-- ===== src/Runner/Run/Laws.antt =====
-- What a confirmation does to a run (src/ftre_agent_core/agent/runner/react_runner.py).
use ftre_agent_core.Prelude.{
  String, ◌≡◌, ◌≢◌, refl, sym, ap, subst, ◌∙◌, none, ◌⊎◌, inl, inr, some, Bool, true, false, not,
  ◌==◌, eq_refl, arith, Bool-cases, Option-cases,
}
use ftre_agent_core.Message.{ToolCallState, asking, same_state, ToolCallBlock}
use ftre_agent_core.Context.{set_tool_call_state, find_call}
use ftre_agent_core.Context.Calls.{find_call-set_tool_call_state}
use ftre_agent_core.World.{
  Result, ok, err, World, pure, throw, gets, ◌>>=◌, set_run, set_context, when,
}
use ftre_agent_core.Runner.Run.{
  Confirmation, is_awaiting, expected_state, apply_decision, accept_confirmation,
}

-- What an accepted confirmation leaves behind: the call has the state that was decided, no other call
-- has changed, and the answer says whether no call awaits a confirmation any more.
pub record IsAccepted (c : Confirmation) (w : World) (answer : Bool) (v : World) : Type 0 where
  pub target : ToolCallBlock
  pub found : find_call w.context c.tool_call_id ≡ some target
  pub undecided_or_same : (target.state ≡ asking) ⊎ (target.state ≡ expected_state c.approved)
  pub decided :
      find_call v.context c.tool_call_id
      ≡ some (record target { state = expected_state c.approved })
  pub others :
      (id : String)
      → (c.tool_call_id == id) ≡ false
      → find_call v.context id ≡ find_call w.context id
  pub says : answer ≡ not (is_awaiting v.context)

-- A confirmation is refused only when its call is not there, or is in a state that neither awaits a
-- confirmation nor is the decided one; then nothing is written or yielded.
pub record IsRejected (c : Confirmation) (w v : World) : Type 0 where
  pub why :
      (target : ToolCallBlock)
      → find_call w.context c.tool_call_id ≡ some target
      → (target.state ≢ asking) × (target.state ≢ expected_state c.approved)
  pub same_context : v.context ≡ w.context
  pub same_events : v.events ≡ w.events

abbrev pub Accepts : Confirmation → World → Result Bool × World → Type 0
Accepts c w (ok answer, v) = IsAccepted c w answer v
Accepts c w (err e, v) = IsRejected c w v

eq_of_same_state : (a b : ToolCallState) → same_state a b ≡ true → a ≡ b
eq_of_same_state a b h = ground arith

ne_of_not_same_state : (a b : ToolCallState) → same_state a b ≡ false → a ≢ b
ne_of_not_same_state a b h = ground arith

some_inj : {A : Type 0} (a b : A) → some a ≡ some b → a ≡ b
some_inj a b h = ap (λ o. elim o [ none ↦ a | some x ↦ x ]) h

module _ (c : Confirmation) (w : World) where
  accept_found :
      (target : ToolCallBlock)
      → find_call w.context c.tool_call_id ≡ some target
      → Accepts c w (accept_confirmation c w)
  unfolding accept_confirmation ◌>>=◌ gets throw pure when set_run set_context apply_decision
  accept_found target found = elim (Bool-cases (same_state target.state asking)) [
    | inl t ↦
        let changed : (id : String)
            → find_call (set_tool_call_state w.context c.tool_call_id (expected_state c.approved)).0
                id
              ≡ _ =
          λ id.
            find_call-set_tool_call_state w.context c.tool_call_id id (expected_state c.approved) in
        let accepted : IsAccepted c w _ _ = record {
          target = target;
          found = found;
          undecided_or_same = inl (eq_of_same_state target.state asking t);
          decided = changed c.tool_call_id ∙ (rw (eq_refl c.tool_call_id, found) refl);
          others = λ id other. changed id ∙ (rw other refl);
          says = refl;
        } in
        rw (found, t) accepted
    | inr t ↦ elim (Bool-cases (same_state target.state (expected_state c.approved))) [
      | inl u ↦
          let same = eq_of_same_state target.state (expected_state c.approved) u in
          let accepted : IsAccepted c w _ _ = record {
            target = target;
            found = found;
            undecided_or_same = inr same;
            decided = found ∙ ap (λ s. some (record target { state = s })) same;
            others = λ id other. refl;
            says = refl;
          } in
          rw (found, t, u) accepted
      | inr u ↦
          let rejected : IsRejected c w _ = record {
            why = λ other at.
                subst
                  (λ (b : ToolCallBlock).
                    (b.state ≢ asking) × (b.state ≢ expected_state c.approved))
                  (some_inj target other (sym found ∙ at))
                  (
                    ne_of_not_same_state target.state asking t,
                    ne_of_not_same_state target.state (expected_state c.approved) u,
                  );
            same_context = refl;
            same_events = refl;
          } in
          rw (found, t, u) rejected
    ]
  ]

  -- A confirmation is accepted exactly when its call is in the conversation and awaits one or already
  -- has the state that it decides; the reply id that it names plays no part. Then that call has the
  -- decided state, every other call is as it was, and the answer is whether no call awaits a
  -- confirmation any more. In every other case it raises, the conversation is unchanged and nothing
  -- is yielded.
  pub accept_confirmation-Accepts : Accepts c w (accept_confirmation c w)
  unfolding accept_confirmation ◌>>=◌ gets throw when
  accept_confirmation-Accepts = elim (Option-cases (find_call w.context c.tool_call_id)) [
    | inl missing ↦
        let rejected : IsRejected c w _ = record {
          why = λ other at. absurd (ground (arith, missing, at));
          same_context = refl;
          same_events = refl;
        } in
        rw missing rejected
    | inr (target, found) ↦ accept_found target found
  ]
