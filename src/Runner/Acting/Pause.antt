-- ===== src/Runner/Acting/Pause.antt =====
-- Which batches of calls reach the tools
-- (src/ftre_agent_core/agent/runner/_execute_acting.py, ActingExecutor.stream).
use ftre_agent_core.Prelude.{
  String, ◌≡◌, refl, subst, ◌∙◌, ◌⊎◌, inl, inr, Option, none, some, Bool, false, ◌||◌, List, [],
  ◌∷◌, ◌++◌, any, All, ◌==◌, eq_iff, arith, Bool-cases,
}
use ftre_agent_core.Permission.{PermissionBehavior, allow, deny, ask}
use ftre_agent_core.Runner.{RunState, ToolCall}
use ftre_agent_core.Handler.{insert, lookup}
use ftre_agent_core.Handler.Laws.{HasDistinctIds, lookup-insert_same, lookup-insert_other}
use ftre_agent_core.World.{World, ◌>>=◌, gets}
use ftre_agent_core.Env.{Env}
use ftre_agent_core.Runner.Acting.{
  Verdict, is_pause, verdict_of, classify, run_tools, execute_calls, act,
}
use ftre_agent_core.Runner.Acting.Batch.{pause_calls-Keeps, written-Keeps}

-- The test of `stream` on the entries of `_classify`.
abbrev holds_back : String × Verdict → Bool
holds_back v = is_pause v.1.behavior

abbrev AllowedIf : Option Verdict → Type 0
AllowedIf none = Unit
AllowedIf (some v) = v.behavior ≡ allow

allow_of_not_pause : (b : PermissionBehavior) → is_pause b ≡ false → b ≡ allow
allow_of_not_pause allow h = refl
allow_of_not_pause deny h = ground (arith, h)
allow_of_not_pause ask h = ground (arith, h)

or-false_left : (a b : Bool) → (a || b) ≡ false → a ≡ false
or-false_left a b h = ground (arith, h)

or-false_right : (a b : Bool) → (a || b) ≡ false → b ≡ false
or-false_right a b h = ground (arith, h)

-- With no entry that holds back, whatever the dict has for an id allows it.
allowed_found :
    (id : String) (v : Verdict) (d : List (String × Verdict))
    → any holds_back d ≡ false
    → lookup id d ≡ some v
    → v.behavior ≡ allow
unfolding any lookup
allowed_found id v [] h found = ground (arith, found)
allowed_found id v ((k, u) ∷ d) h found = elim (Bool-cases (k == id)) [
  | inl t ↦
      let same : some u ≡ some v = rw t at found in
      let mine =
        allow_of_not_pause u.behavior (or-false_left (is_pause u.behavior) (any holds_back d) h) in
      subst AllowedIf same mine
  | inr t ↦
      allowed_found id v d (or-false_right (is_pause u.behavior) (any holds_back d) h)
        (rw t at found)
]

module _ (env : Env) (w : World) where
  classify-other :
      (id : String) (d : List (String × Verdict)) (calls : List ToolCall)
      → All (λ (c : ToolCall). (id == c.id) ≡ false) calls
      → lookup id (classify env w d calls) ≡ lookup id d
  unfolding classify
  classify-other id d [] h = refl
  classify-other id d (c ∷ cs) (h, hs) =
      classify-other id (insert c.id (verdict_of env w c) d) cs hs
      ∙ lookup-insert_other c.id id (verdict_of env w c) d
          (ground (arith, eq_iff id c.id, eq_iff c.id id, h))

  -- Every call of the batch is allowed by its own verdict.
  abbrev pub AllAllowed : List ToolCall → Type 0
  AllAllowed calls = All (λ c. (verdict_of env w c).behavior ≡ allow) calls

  classify-AllAllowed :
      (d : List (String × Verdict)) (calls : List ToolCall)
      → HasDistinctIds calls
      → any holds_back (classify env w d calls) ≡ false
      → AllAllowed calls
  unfolding classify
  classify-AllAllowed d [] distinct h = tt
  classify-AllAllowed d (c ∷ cs) (new, distinct) h =
      let v = verdict_of env w c in
      let found : lookup c.id (classify env w (insert c.id v d) cs) ≡ some v =
        classify-other c.id (insert c.id v d) cs new ∙ lookup-insert_same c.id v d in
      (
        allowed_found c.id v (classify env w (insert c.id v d) cs) h found,
        classify-AllAllowed (insert c.id v d) cs distinct h,
      )

-- The calls handed to the tools so far, as a predicate of `Keeps`.
abbrev HasSpawned : List ToolCall → RunState → List ToolCall → Type 0
HasSpawned calls s spawned = spawned ≡ calls

module _ (env : Env) (calls : List ToolCall) (w : World) where
  execute_calls-spawned : (execute_calls env calls w).1.spawned ≡ w.spawned ++ calls
  unfolding execute_calls ◌>>=◌ run_tools gets
  execute_calls-spawned =
      (written-Keeps (HasSpawned (w.spawned ++ calls)) env w.run.reply_id _ calls _).at
        (run_tools env calls w).1 refl

  -- The two ways that a batch goes.
  abbrev pub IsGated : World → Type 0
  IsGated after =
      (after.spawned ≡ w.spawned) ⊎ ((after.spawned ≡ w.spawned ++ calls) × AllAllowed env w calls)

  -- A batch of calls with distinct ids goes to the tools as a whole, and only when the permission
  -- verdict of every single call of it is to allow it; else none of its calls reaches a tool.
  pub act-IsGated : HasDistinctIds calls → IsGated (act env calls w).1
  unfolding act ◌>>=◌ gets
  act-IsGated distinct = elim (Bool-cases (any holds_back (classify env w [] calls))) [
    | inl t ↦
        let still =
          (pause_calls-Keeps (HasSpawned w.spawned) env w.run.reply_id (classify env w [] calls)
              calls).at
            w refl in
        inl (rw t still)
    | inr t ↦ inr (rw t execute_calls-spawned, classify-AllAllowed env w [] calls distinct t)
  ]
