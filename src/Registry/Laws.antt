-- ===== src/Registry/Laws.antt =====
-- What a tool registry holds, and what it injects (src/ftre_agent_core/tool/registry.py).
use ftre_agent_core.Prelude.{
  String, ◌≡◌, refl, sym, subst, ◌∙◌, Option, none, some, List, [], ◌∷◌, ◌==◌, ◌<>◌, is_some,
  eq_iff, inl, inr, Bool-cases, arith, if◌then◌else◌,
}
use ftre_agent_core.Json.{Json, Fields, get, put}
use ftre_agent_core.Json.Laws.{get-put}
use ftre_agent_core.Handler.{insert, lookup}
use ftre_agent_core.Registry.{
  discard, or_null, inject, or_empty, ToolRegistry, new_registry, register, unregister, get_tool,
  map_of, resolve_injections, execute, Change, add, drop, changed,
}

module _ {V : Type 0} where
  lookup-insert :
      (k j : String) (v : V) (xs : List (String × V))
      → lookup j (insert k v xs) ≡ (if k == j then some v else lookup j xs)
  unfolding lookup insert
  lookup-insert k j v [] = refl
  lookup-insert k j v ((i, w) ∷ xs) =
      ground (arith, eq_iff k j, eq_iff i k, eq_iff i j, lookup-insert k j v xs)

  lookup-discard :
      (k j : String) (xs : List (String × V))
      → lookup j (discard k xs) ≡ (if k == j then none else lookup j xs)
  unfolding lookup discard
  lookup-discard k j [] = ground arith
  lookup-discard k j ((i, w) ∷ xs) =
      ground (arith, eq_iff k j, eq_iff i k, eq_iff i j, lookup-discard k j xs)

-- A parameter after the loop: what was given, else what the first entry for it takes from the context.
abbrev pub injected : Option Json → Option String → Fields → Option Json
injected (some v) key ctx = some v
injected none none ctx = none
injected none (some key) ctx = some (or_null (get key ctx))

injected-none : (o : Option Json) (ctx : Fields) → injected o none ctx ≡ o
injected-none none ctx = refl
injected-none (some v) ctx = refl

-- One parameter of the loop.
injected-step :
    (q p key : String) (l : List (String × String)) (ctx d : Fields) (o : Option Json)
    → get q d ≡ o
    → injected (get p (if is_some o then d else put q (or_null (get key ctx)) d)) (lookup p l) ctx
      ≡ injected (get p d) (if q == p then some key else lookup p l) ctx
injected-step q p key l ctx d (some v) e = elim (Bool-cases (q == p)) [
  | inl t ↦ rw (t, subst (λ k. get k d ≡ some v) ((eq_iff q p).0 t) e) refl
  | inr t ↦ rw t refl
]
injected-step q p key l ctx d none e = elim (Bool-cases (q == p)) [
  | inl t ↦
      rw
        (get-put q p (or_null (get key ctx)) d, t, subst (λ k. get k d ≡ none) ((eq_iff q p).0 t) e)
        refl
  | inr t ↦ rw (get-put q p (or_null (get key ctx)) d, t) refl
]

get-inject :
    (l : List (String × String)) (ctx d : Fields) (p : String)
    → get p (inject l ctx d) ≡ injected (get p d) (lookup p l) ctx
unfolding inject lookup
get-inject [] ctx d p = sym (injected-none (get p d) ctx)
get-inject ((q, key) ∷ l) ctx d p =
    get-inject l ctx _ p ∙ injected-step q p key l ctx d (get q d) refl

module _ (Tool : Type 0) (name_of : Tool → String)
    (injections_of : Tool → List (String × String)) where
  -- The tool of a name after the changes: the last one added, unless it was dropped since.
  unfoldable pub last_of :
      String → Option Tool → List (Change Tool name_of injections_of) → Option Tool
  last_of name o [] = o
  last_of name o (add tool ∷ cs) = last_of name (if name_of tool == name then some tool else o) cs
  last_of name o (drop n ∷ cs) = last_of name (if n == name then none else o) cs

  -- The injections are those of the registered tools.
  abbrev injections_for : Option Tool → Option (List (String × String))
  injections_for none = none
  injections_for (some tool) = some (injections_of tool)

  record IsAt (name : String) (r : ToolRegistry Tool name_of injections_of) (o : Option Tool)
      : Type 0 where
    tool : lookup name r.tools ≡ o
    map : lookup name r.inject_map ≡ injections_for o

  register-IsAt :
      (name : String) (r : ToolRegistry Tool name_of injections_of) (o : Option Tool) (t : Tool)
      → IsAt name r o
      → IsAt name
          (register Tool name_of injections_of t r)
          (if name_of t == name then some t else o)
  unfolding register
  register-IsAt name r o t h = elim (Bool-cases (name_of t == name)) [
    | inl e ↦ rw e (record {
      tool = lookup-insert (name_of t) name t r.tools ∙ rw e refl;
      map = lookup-insert (name_of t) name (injections_of t) r.inject_map ∙ rw e refl;
    })
    | inr e ↦ rw e (record {
      tool = lookup-insert (name_of t) name t r.tools ∙ rw e h.tool;
      map = lookup-insert (name_of t) name (injections_of t) r.inject_map ∙ rw e h.map;
    })
  ]

  unregister-IsAt :
      (name : String) (r : ToolRegistry Tool name_of injections_of) (o : Option Tool) (n : String)
      → IsAt name r o
      → IsAt name (unregister Tool name_of injections_of n r) (if n == name then none else o)
  unfolding unregister
  unregister-IsAt name r o n h = elim (Bool-cases (n == name)) [
    | inl e ↦ rw e (record {
      tool = lookup-discard n name r.tools ∙ rw e refl;
      map = lookup-discard n name r.inject_map ∙ rw e refl;
    })
    | inr e ↦ rw e (record {
      tool = lookup-discard n name r.tools ∙ rw e h.tool;
      map = lookup-discard n name r.inject_map ∙ rw e h.map;
    })
  ]

  changed-IsAt :
      (name : String) (cs : List (Change Tool name_of injections_of))
      (r : ToolRegistry Tool name_of injections_of) (o : Option Tool)
      → IsAt name r o
      → IsAt name (changed Tool name_of injections_of r cs) (last_of name o cs)
  unfolding changed last_of
  changed-IsAt name [] r o h = h
  changed-IsAt name (add t ∷ cs) r o h =
      changed-IsAt name cs (register Tool name_of injections_of t r) _ (register-IsAt name r o t h)
  changed-IsAt name (drop n ∷ cs) r o h =
      changed-IsAt name cs (unregister Tool name_of injections_of n r) _
        (unregister-IsAt name r o n h)

  new-IsAt : (name : String) → IsAt name (new_registry Tool name_of injections_of) none
  unfolding lookup
  new-IsAt name = record { tool = refl; map = refl }

  module _ {R : Type 0} (run : Tool → Fields → R) (raise : String → R) where
    -- What a tool, if there is one, makes of a call.
    abbrev pub answer : String → Option Fields → Fields → Option Tool → R
    answer name ctx kwargs none = raise ("Tool '" <> name <> "' not found")
    answer name ctx kwargs (some tool) =
        run tool (inject (injections_of tool) (or_empty ctx) kwargs)

    execute_at :
        (name : String) (r : ToolRegistry Tool name_of injections_of) (o : Option Tool)
        (ctx : Option Fields) (kwargs : Fields)
        → IsAt name r o
        → execute Tool name_of injections_of run raise r name ctx kwargs ≡ answer name ctx kwargs o
    unfolding execute get_tool resolve_injections
    execute_at name r none ctx kwargs h = rw (execute, h.tool) refl
    execute_at name r (some t) ctx kwargs h = rw (execute, h.tool, h.map) refl

    -- After any registering and unregistering, a call of a name runs the tool that was registered last
    -- under it, with that tool's own injections, and raises if there was none or it was unregistered
    -- since: the two dicts of the registry never disagree, and other names have no effect.
    pub execute-changed :
        (name : String) (cs : List (Change Tool name_of injections_of)) (ctx : Option Fields)
        (kwargs : Fields)
        → execute Tool name_of injections_of run raise
            (changed Tool name_of injections_of (new_registry Tool name_of injections_of) cs)
            name
            ctx
            kwargs
          ≡ answer name ctx kwargs (last_of name none cs)
    execute-changed name cs ctx kwargs =
        execute_at name _ _ ctx kwargs
          (changed-IsAt name cs (new_registry Tool name_of injections_of) none (new-IsAt name))

  -- A parameter of a call after the injections: an argument that was given is never replaced; one that
  -- was not is taken from the runtime context under its key, null if the context lacks that, when the
  -- tool has it injected, and is missing otherwise.
  pub get-resolve_injections :
      (r : ToolRegistry Tool name_of injections_of) (name p : String) (kwargs : Fields)
      (ctx : Option Fields)
      → get p (resolve_injections Tool name_of injections_of r name kwargs ctx)
        ≡ injected
            (get p kwargs)
            (lookup p (map_of Tool name_of injections_of (lookup name r.inject_map)))
            (or_empty ctx)
  unfolding resolve_injections
  get-resolve_injections r name p kwargs ctx =
      get-inject (map_of Tool name_of injections_of (lookup name r.inject_map)) (or_empty ctx)
        kwargs p
