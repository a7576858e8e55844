-- ===== src/Handler/Laws.antt =====
-- The dicts of tasks and results of agent/runner/tool_handler.py (src/ftre_agent_core).
use ftre_agent_core.Prelude.{
  ℕ, suc, String, ◌≡◌, refl, ap, ◌∙◌, none, some, Bool, false, ◌||◌, List, [], ◌∷◌, map, All, ◌==◌,
  eq_iff, eq_refl, arith, inl, inr, Bool-cases, if◌then◌else◌,
}
use ftre_agent_core.Runner.{ToolCall}
use ftre_agent_core.Handler.{
  ToolResult, TaskEnd, returned, threw, ToolWorld, plain_result, failed, cancelled, run_one, insert,
  lookup, spawn_all, name_of, finish, or_lost, gather_results,
}

module _ {ℓ} {V : Type ℓ} where
  pub lookup-insert :
      (k j : String) (v : V) (d : List (String × V))
      → lookup j (insert k v d) ≡ (if k == j then some v else lookup j d)
  unfolding lookup insert
  lookup-insert k j v [] = refl
  lookup-insert k j v ((i, w) ∷ d) =
      ground (arith, eq_iff k j, eq_iff i k, eq_iff i j, lookup-insert k j v d)

  pub lookup-insert_same :
      (k : String) (v : V) (d : List (String × V)) → lookup k (insert k v d) ≡ some v
  lookup-insert_same k v d = lookup-insert k k v d ∙ (rw (eq_refl k) refl)

  pub lookup-insert_other :
      (k j : String) (v : V) (d : List (String × V))
      → (k == j) ≡ false
      → lookup j (insert k v d) ≡ lookup j d
  lookup-insert_other k j v d h = lookup-insert k j v d ∙ (rw h refl)

-- No two calls of a batch have one id.
abbrev pub HasDistinctIds : List ToolCall → Type 0
HasDistinctIds [] = Unit
HasDistinctIds (c ∷ cs) = All (λ (d : ToolCall). (c.id == d.id) ≡ false) cs × HasDistinctIds cs

not_sym : (s t : String) → (s == t) ≡ false → (t == s) ≡ false
not_sym s t h = ground (arith, eq_iff s t, eq_iff t s, h)

spawn_all-other :
    (world : ToolWorld) (moment : ℕ) (id : String) (tasks : List (String × TaskEnd))
    (calls : List ToolCall)
    → All (λ (d : ToolCall). (id == d.id) ≡ false) calls
    → lookup id (spawn_all world moment tasks calls) ≡ lookup id tasks
unfolding spawn_all
spawn_all-other world moment id tasks [] h = refl
spawn_all-other world moment id tasks (c ∷ cs) (h, hs) =
    spawn_all-other world (suc moment) id (insert c.id (run_one world moment c) tasks) cs hs
    ∙ lookup-insert_other c.id id (run_one world moment c) tasks (not_sym id c.id h)

name_of-tail :
    (d : ToolCall) (ds cs : List ToolCall)
    → All (λ (c : ToolCall). (d.id == c.id) ≡ false) cs
    → All (λ (c : ToolCall). name_of ds c.id ≡ c.name) cs
    → All (λ (c : ToolCall). name_of (d ∷ ds) c.id ≡ c.name) cs
unfolding name_of
name_of-tail d ds [] h k = tt
name_of-tail d ds (c ∷ cs) (h, hs) (k, ks) = (rw h k, name_of-tail d ds cs hs ks)

-- Among calls with distinct ids, each id finds the name of its own call.
names_found :
    (calls : List ToolCall)
    → HasDistinctIds calls
    → All (λ (c : ToolCall). name_of calls c.id ≡ c.name) calls
unfolding name_of
names_found [] h = tt
names_found (c ∷ cs) (h, hs) = (rw (eq_refl c.id) refl, name_of-tail c cs cs h (names_found cs hs))

-- The result of one call by itself: the task's own, or that it was interrupted.
abbrev pub own_result : Bool → ToolCall → TaskEnd → ToolResult
own_result interrupted call (returned r) = r
own_result interrupted call (threw by_cancel) =
    plain_result call.id call.name "[INTERRUPTED] Tool execution was interrupted." none
      (if interrupted then cancelled else failed)

-- The calls run one by one, each at its moment, with no dict between.
abbrev pub run_each : ToolWorld → Bool → ℕ → List ToolCall → List ToolResult
run_each world interrupted moment [] = []
run_each world interrupted moment (call ∷ calls) =
    own_result interrupted call (run_one world moment call)
    ∷ run_each world interrupted (suc moment) calls

module _ (all : List ToolCall) (interrupted : Bool) where
  finish-own :
      (c : ToolCall) (id : String) (e : TaskEnd)
      → name_of all c.id ≡ c.name
      → id ≡ c.id
      → finish all interrupted (id, e) ≡ (id, own_result interrupted c e)
  unfolding finish
  finish-own c id (returned r) named same = refl
  finish-own c id (threw by_cancel) named same = rw (same, named) refl

  finish-key :
      (id : String) (e : TaskEnd) → (r : ToolResult) × (finish all interrupted (id, e) ≡ (id, r))
  unfolding finish
  finish-key id (returned r) = (r, refl)
  finish-key id (threw by_cancel) = (_, refl)

  lookup-finish :
      (c : ToolCall) (e : TaskEnd) (tasks : List (String × TaskEnd))
      → name_of all c.id ≡ c.name
      → lookup c.id tasks ≡ some e
      → lookup c.id (map (finish all interrupted) tasks) ≡ some (own_result interrupted c e)
  unfolding lookup
  lookup-finish c e [] named found = absurd (ground (arith, found))
  lookup-finish c e ((id, end) ∷ tasks) named found = elim (Bool-cases (id == c.id)) [
    | inl t ↦
        let same : some end ≡ some e = rw t at found in
        let mine = finish-own c id end named ((eq_iff id c.id).0 t) in
        rw (mine, t)
          (ap (λ o. elim o [ none ↦ none | some x ↦ some (own_result interrupted c x) ]) same)
    | inr t ↦
        let later : lookup c.id tasks ≡ some e = rw t at found in
        let (r, kept) = finish-key id end in rw (kept, t) (lookup-finish c e tasks named later)
  ]

  gathered-each :
      (world : ToolWorld) (moment : ℕ) (tasks : List (String × TaskEnd)) (calls : List ToolCall)
      → HasDistinctIds calls
      → All (λ (c : ToolCall). name_of all c.id ≡ c.name) calls
      → map
          (λ (c : ToolCall).
            or_lost c
              (lookup c.id (map (finish all interrupted) (spawn_all world moment tasks calls))))
          calls
        ≡ run_each world interrupted moment calls
  unfolding spawn_all
  gathered-each world moment tasks [] h k = refl
  gathered-each world moment tasks (c ∷ cs) (h, hs) (k, ks) =
      let after = insert c.id (run_one world moment c) tasks in
      let found : lookup c.id (spawn_all world (suc moment) after cs)
          ≡ some (run_one world moment c) =
        spawn_all-other world (suc moment) c.id after cs h
        ∙ lookup-insert_same c.id (run_one world moment c) tasks in
      let rest = gathered-each world (suc moment) after cs hs ks in
      rw
        (
          lookup-finish c (run_one world moment c) (spawn_all world (suc moment) after cs) k found,
          rest,
        )
        refl

-- A batch of calls with distinct ids gives one result per call, in the order of the calls, and each
-- is the result of that very call: the dicts in between lose none and mix up none.
pub gather_results-each :
    (world : ToolWorld) (moment : ℕ) (calls : List ToolCall) (is_cancelled external : Bool)
    → HasDistinctIds calls
    → (gather_results calls (spawn_all world moment [] calls) is_cancelled external).0
      ≡ run_each world (is_cancelled || external) moment calls
unfolding gather_results
gather_results-each world moment calls is_cancelled external h =
    gathered-each calls (is_cancelled || external) world moment [] calls h (names_found calls h)
